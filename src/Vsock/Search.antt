-- ===== src/Vsock/Search.antt =====
-- What `Allocate` of internal/vsock/allocator.go finds.
use spinbox.Common.{
  ℕ, zero, suc, ◌+◌, ◌-◌, ◌%◌, ◌^◌, ◌≤◌, ◌<◌, Bool, true, false, not, ◌&&◌, Option, none, some, ◌≡◌,
  refl, arith, leb, ◌==◌, if◌then◌else◌, Bool-cases, inl, inr, ◌⊎◌, sym, ap, ◌∙◌,
}
use spinbox.Vsock.{
  Allocator, LockFile, Files, Written, written, truncate_failed, encode_failed, Host, Lease,
  put_file, is_cooling_down, try_cid, Allocated, leased, no_directory, exhausted, or_next, search,
  allocate, release,
}

abbrev is_written : Written → Bool
is_written written = true
is_written truncate_failed = false
is_written encode_failed = false

-- A CID that can be reserved: its file opens, is not locked and not cooling down, no QEMU uses the
-- CID, and the metadata can be written.
abbrev pub is_available : Host → ℕ → ℕ → LockFile → ℕ → Bool
is_available h now cooldown f cid =
    h.opens cid
    && not f.locked
    && not (is_cooling_down now f.metadata cooldown)
    && not (h.is_cid_in_use cid)
    && is_written (h.writes cid)

try_cid-is_available :
    (h : Host) (now cooldown cid : ℕ) (files : Files)
    → (try_cid h now cooldown cid files).1 ≡ is_available h now cooldown (files cid) cid
unfolding try_cid
try_cid-is_available h now cooldown cid files = ground arith

-- A round touches no other file, and no lock but the one that it takes.
try_cid-other :
    (h : Host) (now cooldown cid c : ℕ) (files : Files)
    → ((c == cid) ≡ false → (try_cid h now cooldown cid files).0 c ≡ files c)
      × (((try_cid h now cooldown cid files).0 c).locked
          ≡ (if (try_cid h now cooldown cid files).1 && (c == cid) then true else (files c).locked))
unfolding try_cid put_file
try_cid-other h now cooldown cid c files = ground arith

-- What a search from `cid` ends with: the least available CID, or that there is none; the locks
-- stay as they were, but for the one of the CID that is leased.
abbrev pub IsSearched : Allocator → Host → ℕ → ℕ → Files → Files × Option Allocated → Type 0
IsSearched a h now cid files (files', none) = ⊥
IsSearched a h now cid files (files', some no_directory) = ⊥
IsSearched a h now cid files (files', some exhausted) =
    ((k : ℕ) → cid ≤ k → k ≤ a.max_cid → is_available h now a.cooldown (files k) k ≡ false)
    × ((k : ℕ) → (files' k).locked ≡ (files k).locked)
IsSearched a h now cid files (files', some (leased l)) =
    (l.has_file ≡ true)
    × (cid ≤ l.cid)
    × (l.cid ≤ a.max_cid)
    × (is_available h now a.cooldown (files l.cid) l.cid ≡ true)
    × ((k : ℕ) → cid ≤ k → k < l.cid → is_available h now a.cooldown (files k) k ≡ false)
    × ((k : ℕ) → (files' k).locked ≡ (if k == l.cid then true else (files k).locked))

above : (cid k : ℕ) → cid ≤ k → ((k == cid) ≡ true) ⊎ ((k == cid) ≡ false) × (cid + 1 ≤ k)
above cid k h = elim (Bool-cases (k == cid)) [ inl e ↦ inl e | inr e ↦ inr (e, ground arith) ]

unavailable_from :
    (a : Allocator) (h : Host) (now cid : ℕ) (files files₁ : Files) (k : ℕ)
    → is_available h now a.cooldown (files cid) cid ≡ false
    → ((k == cid) ≡ false → files₁ k ≡ files k)
    → cid ≤ k
    → (cid + 1 ≤ k → is_available h now a.cooldown (files₁ k) k ≡ false)
    → is_available h now a.cooldown (files k) k ≡ false
unavailable_from a h now cid files files₁ k n same lo f = elim (above cid k lo) [
  | inl e ↦ let e' : k ≡ cid = ground arith in rw e' n
  | inr e ↦ ap (λ x. is_available h now a.cooldown x k) (sym (same e.0)) ∙ f e.1
]

IsSearched-step :
    (a : Allocator) (h : Host) (now cid : ℕ) (files files₁ : Files) (r : Files × Option Allocated)
    → is_available h now a.cooldown (files cid) cid ≡ false
    → ((k : ℕ) → (k == cid) ≡ false → files₁ k ≡ files k)
    → ((k : ℕ) → (files₁ k).locked ≡ (files k).locked)
    → IsSearched a h now (cid + 1) files₁ r
    → IsSearched a h now cid files r
IsSearched-step a h now cid files files₁ (files', none) n same locks s = s
IsSearched-step a h now cid files files₁ (files', some no_directory) n same locks s = s
IsSearched-step a h now cid files files₁ (files', some exhausted) n same locks s = (
  (λ k lo hi. unavailable_from a h now cid files files₁ k n (same k) lo (λ m. s.0 k m hi)),
  (λ k. s.1 k ∙ locks k),
)
IsSearched-step a h now cid files files₁ (files', some (leased l)) n same locks
      (x, lo, hi, av, least, lk) =
    (
      x,
      omega arith,
      hi,
      ap (λ f. is_available h now a.cooldown f l.cid) (sym (same l.cid (ground arith))) ∙ av,
      (λ k m u. unavailable_from a h now cid files files₁ k n (same k) m (λ m'. least k m' u)),
      (λ k. lk k ∙ ap (λ b. if k == l.cid then true else b) (locks k)),
    )

or_next-IsSearched :
    (a : Allocator) (h : Host) (now cid : ℕ) (files : Files) (o : Files × Bool)
    (next : Files → Files × Option Allocated)
    → cid ≤ a.max_cid
    → o.1 ≡ is_available h now a.cooldown (files cid) cid
    → ((k : ℕ) → (k == cid) ≡ false → o.0 k ≡ files k)
    → ((k : ℕ) → (o.0 k).locked ≡ (if o.1 && (k == cid) then true else (files k).locked))
    → (o.1 ≡ false → IsSearched a h now (cid + 1) o.0 (next o.0))
    → IsSearched a h now cid files (or_next cid o next)
or_next-IsSearched a h now cid files (files₁, true) next le av same locks s =
    (refl, omega arith, le, sym av, (λ k lo hi. absurd (omega arith)), locks)
or_next-IsSearched a h now cid files (files₁, false) next le av same locks s =
    IsSearched-step a h now cid files files₁ (next files₁) (sym av) same locks (s refl)

search_lem :
    (fuel : ℕ) (a : Allocator) (h : Host) (now cid : ℕ) (files : Files)
    → a.max_cid + 1 < 2 ^ 32
    → cid ≤ a.max_cid + 1
    → a.max_cid + 2 ≤ fuel + cid
    → IsSearched a h now cid files (search fuel a h now cid files)
unfolding search
search_lem zero a h now cid files w hi f = absurd (omega arith)
search_lem (suc fuel) a h now cid files w hi f = elim (Bool-cases (leb cid a.max_cid)) [
  | inl e ↦
      let le : cid ≤ a.max_cid = ground arith in
      let small : (cid + 1) % 2 ^ 32 ≡ cid + 1 = omega arith in
      let o = try_cid h now a.cooldown cid files in
      let rest = search_lem fuel a h now (cid + 1) o.0 w (omega arith) (omega arith) in
      rw (e, small)
        (or_next-IsSearched a h now cid files o (search fuel a h now (cid + 1)) le
          (try_cid-is_available h now a.cooldown cid files)
          (λ k. (try_cid-other h now a.cooldown cid k files).0)
          (λ k. (try_cid-other h now a.cooldown cid k files).1) (λ m. rest))
  | inr e ↦
      let gt : a.max_cid < cid = ground arith in
      rw e ((λ k lo hi'. absurd (omega arith)), (λ k. refl))
]

-- An allocation in a directory that can be made, while no other process acts, ends, and with the least CID of the range that is
-- available or, if none is, without a lease; it changes no lock but that of the CID that it leases.
-- The range does not end at the last `uint32`.
pub allocate-IsSearched :
    (a : Allocator) (h : Host) (now : ℕ) (files : Files)
    → h.makes_directory ≡ true
    → a.max_cid + 1 < 2 ^ 32
    → a.min_cid ≤ a.max_cid
    → IsSearched a h now a.min_cid files (allocate a h now files)
unfolding allocate
allocate-IsSearched a h now files d w r = simp d (
    search_lem (suc (a.max_cid + 1 - a.min_cid)) a h now a.min_cid files w (omega arith)
      (omega arith))

-- After a release whose metadata could be written, the CID is not available to anybody until the
-- cooldown is over.
pub release-is_available :
    (h other : Host) (now later cooldown : ℕ) (l : Lease) (files : Files)
    → l.has_file ≡ true
    → h.writes l.cid ≡ written
    → 0 < cooldown
    → later < now + cooldown
    → is_available other later cooldown ((release h now l files).1 l.cid) l.cid ≡ false
unfolding release is_cooling_down put_file
release-is_available h other now later cooldown l files x w p c = ground arith
