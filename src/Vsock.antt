-- ===== src/Vsock.antt =====
-- internal/vsock/allocator.go: context identifiers are reserved by locks on one file each. The files
-- are a function from identifiers; what the operating system answers while they are tried is a
-- `Host`, the scan of /proc for QEMU processes included.
pub mod Search
pub mod Leases
mod Tests
use spinbox.Common.{
  ℕ, zero, suc, ◌+◌, ◌-◌, ◌%◌, ◌^◌, Bool, true, false, not, ◌&&◌, Option, none, some, ltb, leb,
  ◌==◌, if◌then◌else◌,
}

pub record Allocator : Type 0 where
  pub min_cid : ℕ
  pub max_cid : ℕ
  pub cooldown : ℕ

-- `cidMetadata`: a time that is zero, or not there, is `none`.
pub record CidMetadata : Type 0 where
  pub pid : ℕ
  pub allocated_at : Option ℕ
  pub released_at : Option ℕ

abbrev pub empty_metadata : CidMetadata
empty_metadata = record { pid = 0; allocated_at = none; released_at = none }

-- A lock file: what `readMetadata` makes of its text, and whether a process holds its lock.
pub record LockFile : Type 0 where
  pub metadata : CidMetadata
  pub locked : Bool

abbrev pub Files : Type 0
Files = ℕ → LockFile

pub data Written : Type 0 where
  written truncate_failed encode_failed : Written

pub record Host : Type 0 where
  pub pid : ℕ
  pub makes_directory : Bool
  pub opens : ℕ → Bool
  pub writes : ℕ → Written
  pub is_cid_in_use : ℕ → Bool

-- `Lease`, with `file` as whether it is still there.
pub record Lease : Type 0 where
  pub cid : ℕ
  pub has_file : Bool

unfoldable pub put_file : ℕ → LockFile → Files → Files
put_file cid f files = λ c. if c == cid then f else files c

abbrev pub since : Option ℕ → ℕ → ℕ → Bool
since none now cooldown = false
since (some last) now cooldown = ltb (now - last) cooldown

-- A clock that was set back leaves a cooldown that has just begun.
unfoldable pub is_cooling_down : ℕ → CidMetadata → ℕ → Bool
is_cooling_down now meta cooldown = if leb cooldown 0 then false else elim meta.released_at [
  | some last ↦ ltb (now - last) cooldown
  | none ↦ since meta.allocated_at now cooldown
]

-- `writeMetadata` on a file: it is empty once it has been truncated.
abbrev pub write_metadata : Written → CidMetadata → LockFile → LockFile × Bool
write_metadata written meta f = (record f { metadata = meta }, true)
write_metadata truncate_failed meta f = (f, false)
write_metadata encode_failed meta f = (record f { metadata = empty_metadata }, false)

-- The lock is taken, and let go if the metadata cannot be written.
abbrev pub lock_if : ℕ → Files → LockFile × Bool → Files × Bool
lock_if cid files (f, true) = (put_file cid (record f { locked = true }) files, true)
lock_if cid files (f, false) = (put_file cid (record f { locked = false }) files, false)

-- One round of the loop of `Allocate`.
unfoldable pub try_cid : Host → ℕ → ℕ → ℕ → Files → Files × Bool
unfolding put_file is_cooling_down
try_cid h now cooldown cid files =
    let meta : CidMetadata = record { pid = h.pid; allocated_at = some now; released_at = none } in
    if not (h.opens cid)
    then (files, false)
    else if (files cid).locked
    then (files, false)
    else if is_cooling_down now (files cid).metadata cooldown
    then (files, false)
    else if h.is_cid_in_use cid
    then (files, false)
    else lock_if cid files (write_metadata (h.writes cid) meta (files cid))

pub data Allocated : Type 0 where
  leased : Lease → Allocated
  no_directory exhausted : Allocated

abbrev pub or_next :
    ℕ → Files × Bool → (Files → Files × Option Allocated) → Files × Option Allocated
or_next cid (files, true) next = (files, some (leased (record { cid = cid; has_file = true })))
or_next cid (files, false) next = next files

-- The loop from `cid` on, with fuel; the counter is a `uint32`.
unfoldable pub search : ℕ → Allocator → Host → ℕ → ℕ → Files → Files × Option Allocated
unfolding try_cid
search zero a h now cid files = (files, none)
search (suc fuel) a h now cid files =
    if leb cid a.max_cid
    then or_next cid (try_cid h now a.cooldown cid files) (search fuel a h now ((cid + 1) % 2 ^ 32))
    else (files, some exhausted)

-- `Allocate` while no other process acts; Leases has its steps between those of other processes.
unfoldable pub allocate : Allocator → Host → ℕ → Files → Files × Option Allocated
unfolding search
allocate a h now files =
    if h.makes_directory
    then search (suc (a.max_cid + 1 - a.min_cid)) a h now a.min_cid files
    else (files, some no_directory)

abbrev pub or_now : Option ℕ → ℕ → Option ℕ
or_now none now = some now
or_now (some t) now = some t

-- `Release`; an error of the write is ignored.
unfoldable pub release : Host → ℕ → Lease → Files → Lease × Files
unfolding put_file
release h now l files =
    if not l.has_file
    then (l, files)
    else let f = files l.cid in
      let meta : CidMetadata = record {
        pid = h.pid;
        allocated_at = or_now f.metadata.allocated_at now;
        released_at = some now;
      } in
      let f' = (write_metadata (h.writes l.cid) meta f).0 in
      (record l { has_file = false }, put_file l.cid (record f' { locked = false }) files)
