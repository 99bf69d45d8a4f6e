-- ===== src/Vsock/Leases.antt =====
-- Leases of internal/vsock/allocator.go that several processes take and release: the steps of their
-- calls of `Allocate` in any order, between those of the others. A CID is tried in two steps: the lock,
-- and what is done under it. While a process has the lock of a file no other changes that file.
use spinbox.Common.{
  ℕ, zero, suc, ◌+◌, ◌%◌, ◌^◌, ◌≤◌, Bool, true, false, not, ◌||◌, Option, none, some, List, [], ◌∷◌,
  ◌≡◌, refl, arith, ◌==◌, leb, if◌then◌else◌, inl, ◌⊎◌,
}
use spinbox.Vsock.{
  Allocator, Files, LockFile, Host, Lease, CidMetadata, put_file, is_cooling_down, write_metadata,
  release,
}

-- Where a call of `Allocate` is: before the lock of a CID, with the lock of one, or at its end.
pub data Phase : Type 0 where
  trying locking : ℕ → Phase
  finished : Phase

-- The calls, the lock files, and the leases that are held.
pub record Reserved : Type 0 where
  pub calls : List Phase
  pub files : Files
  pub held : List Lease

-- The counter of the loop is a `uint32`.
unfoldable pub next_cid : ℕ → ℕ
next_cid cid = (cid + 1) % 2 ^ 32

abbrev pub with_lock : ℕ → Bool → Files → Files
with_lock cid b files = put_file cid (record (files cid) { locked = b }) files

-- What is left of a call, the files, and the lease that it returns.
abbrev pub Advanced : Type 0
Advanced = Phase × Files × Option Lease

-- The metadata has been written, or not: then the lock is let go.
abbrev pub finish : ℕ → Files → LockFile × Bool → Advanced
finish cid files (f, true) = (
  finished,
  put_file cid (record f { locked = true }) files,
  some (record { cid = cid; has_file = true }),
)
finish cid files (f, false) =
    (trying (next_cid cid), put_file cid (record f { locked = false }) files, none)

-- A step of a call, with what the operating system answers to it.
abbrev pub advance_in : Allocator → Host → ℕ → Phase → Files → Advanced
advance_in a h now (trying cid) files =
    if not (leb cid a.max_cid)
    then (finished, files, none)
    else if not (h.opens cid) || (files cid).locked
    then (trying (next_cid cid), files, none)
    else (locking cid, with_lock cid true files, none)
advance_in a h now (locking cid) files =
    let meta : CidMetadata = record { pid = h.pid; allocated_at = some now; released_at = none } in
    if is_cooling_down now (files cid).metadata a.cooldown || h.is_cid_in_use cid
    then (trying (next_cid cid), with_lock cid false files, none)
    else finish cid files (write_metadata (h.writes cid) meta (files cid))
advance_in a h now finished files = (finished, files, none)

unfoldable pub advance : Allocator → Host → ℕ → Phase → Files → Advanced
unfolding put_file is_cooling_down next_cid
advance a h now p files = advance_in a h now p files

abbrev pub add_lease : Option Lease → List Lease → List Lease
add_lease none ls = ls
add_lease (some l) ls = l ∷ ls

-- The n-th call makes a step.
unfoldable pub advance_nth :
    ℕ → Allocator → Host → ℕ → List Phase → Files → List Phase × Files × Option Lease
unfolding advance
advance_nth n a h now [] files = ([], files, none)
advance_nth zero a h now (p ∷ ps) files =
    let (p', files', l) = advance a h now p files in (p' ∷ ps, files', l)
advance_nth (suc n) a h now (p ∷ ps) files =
    let (ps', files', l) = advance_nth n a h now ps files in (p ∷ ps', files', l)

-- The release of the n-th lease that is held.
unfoldable pub release_nth : ℕ → Host → ℕ → List Lease → Files → List Lease × Files
unfolding release
release_nth n h now [] files = ([], files)
release_nth zero h now (l ∷ ls) files = (ls, (release h now l files).1)
release_nth (suc n) h now (l ∷ ls) files =
    let (ls', files') = release_nth n h now ls files in (l ∷ ls', files')

pub data Step : Type 0 where
  allocate_step : Step
  advance_step release_step : ℕ → Host → ℕ → Step

unfoldable pub step : Allocator → Step → Reserved → Reserved
unfolding advance_nth release_nth
step a allocate_step s = record s { calls = trying a.min_cid ∷ s.calls }
step a (advance_step n h now) s =
    let (calls, files, l) = advance_nth n a h now s.calls s.files in
    record { calls = calls; files = files; held = add_lease l s.held }
step a (release_step n h now) s =
    let (held, files) = release_nth n h now s.held s.files in
    record s { files = files; held = held }

unfoldable pub run : Allocator → List Step → Reserved → Reserved
unfolding step
run a [] s = s
run a (x ∷ xs) s = run a xs (step a x s)

-- How many of the leases are for a CID.
unfoldable pub leases_of : ℕ → List Lease → ℕ
leases_of cid [] = 0
leases_of cid (l ∷ ls) = (if cid == l.cid then 1 else 0) + leases_of cid ls

abbrev pub holds : ℕ → Phase → ℕ
holds cid (locking k) = if cid == k then 1 else 0
holds cid _ = 0

-- How many calls have the lock of a CID.
unfoldable pub holders : ℕ → List Phase → ℕ
holders cid [] = 0
holders cid (p ∷ ps) = holds cid p + holders cid ps

-- A CID has at most one lease, or one call with its lock, and none at all if its file is not locked.
abbrev pub IsExclusive : Reserved → Type 0
IsExclusive s =
    (cid : ℕ) → leases_of cid s.held + holders cid s.calls ≤ (if (s.files cid).locked then 1 else 0)

release_nth-leases_of :
    (n : ℕ) (h : Host) (now : ℕ) (held : List Lease) (files : Files) (cid : ℕ)
    → let (held', files') = release_nth n h now held files in
      (leases_of cid held' ≤ leases_of cid held)
      × (((files' cid).locked ≡ (files cid).locked)
          ⊎ (suc (leases_of cid held') ≡ leases_of cid held))
unfolding release_nth leases_of release put_file
release_nth-leases_of n h now [] files cid = (omega arith, inl refl)
release_nth-leases_of zero h now (l ∷ ls) files cid = ground arith
release_nth-leases_of (suc n) h now (l ∷ ls) files cid =
    ground (arith, release_nth-leases_of n h now ls files cid)

written-exclusive :
    (cid k m : ℕ) (files : Files) (w : LockFile × Bool) (held : List Lease)
    → leases_of k held + ((if k == cid then 1 else 0) + m) ≤ (if (files k).locked then 1 else 0)
    → let (p, files', l) = finish cid files w in
      leases_of k (add_lease l held) + (holds k p + m) ≤ (if (files' k).locked then 1 else 0)
unfolding leases_of put_file
written-exclusive cid k m files (f, true) held e = ground (arith, e)
written-exclusive cid k m files (f, false) held e = ground (arith, e)

advance-exclusive :
    (a : Allocator) (h : Host) (now k m : ℕ) (p : Phase) (files : Files) (held : List Lease)
    → leases_of k held + (holds k p + m) ≤ (if (files k).locked then 1 else 0)
    → let (p', files', l) = advance a h now p files in
      leases_of k (add_lease l held) + (holds k p' + m) ≤ (if (files' k).locked then 1 else 0)
unfolding advance put_file
advance-exclusive a h now k m (trying cid) files held e = ground (arith, e)
advance-exclusive a h now k m (locking cid) files held e =
    let meta : CidMetadata = record { pid = h.pid; allocated_at = some now; released_at = none } in
    let w = write_metadata (h.writes cid) meta (files cid) in
    ground (arith, e, written-exclusive cid k m files w held e)
advance-exclusive a h now k m finished files held e = e

advance_nth-exclusive :
    (n : ℕ) (a : Allocator) (h : Host) (now k m : ℕ) (ps : List Phase) (files : Files)
    (held : List Lease)
    → leases_of k held + (m + holders k ps) ≤ (if (files k).locked then 1 else 0)
    → let (ps', files', l) = advance_nth n a h now ps files in
      leases_of k (add_lease l held) + (m + holders k ps') ≤ (if (files' k).locked then 1 else 0)
unfolding advance_nth holders
advance_nth-exclusive n a h now k m [] files held e = e
advance_nth-exclusive zero a h now k m (p ∷ ps) files held e =
    let r = advance-exclusive a h now k (m + holders k ps) p files held (omega (arith, e)) in
    omega (arith, r)
advance_nth-exclusive (suc n) a h now k m (p ∷ ps) files held e =
    let r = advance_nth-exclusive n a h now k (m + holds k p) ps files held (omega (arith, e)) in
    omega (arith, r)

step-IsExclusive :
    (a : Allocator) (x : Step) (s : Reserved) → IsExclusive s → IsExclusive (step a x s)
unfolding step holders
step-IsExclusive a allocate_step s e = λ cid. omega (arith, e cid)
step-IsExclusive a (advance_step n h now) s e = λ cid.
    let r = advance_nth-exclusive n a h now cid 0 s.calls s.files s.held (omega (arith, e cid)) in
    omega (arith, r)
step-IsExclusive a (release_step n h now) s e =
    λ cid. ground (arith, e cid, release_nth-leases_of n h now s.held s.files cid)

-- From lock files and leases in which each leased CID is locked and leased once, over any interleaving
-- of the steps of any number of allocations and of releases by several processes, whatever the clocks,
-- the files and the scans for QEMU answer: each CID has at most one lease at a time, none while an allocation has its lock, and one that is
-- leased stays locked.
pub run-IsExclusive :
    (a : Allocator) (xs : List Step) (s : Reserved) → IsExclusive s → IsExclusive (run a xs s)
unfolding run
run-IsExclusive a [] s e = e
run-IsExclusive a (x ∷ xs) s e = run-IsExclusive a xs (step a x s) (step-IsExclusive a x s e)
