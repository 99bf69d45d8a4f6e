-- ===== src/Vsock/Tests.antt =====
-- Runs of internal/vsock/allocator.go at concrete lock files.
use spinbox.Common.{true, false, List, [], ◌∷◌, refl, arith, ◌==◌, if◌then◌else◌}
use spinbox.Vsock.{Allocator, empty_metadata, LockFile, Files, written, Host, Lease, allocate}
use spinbox.Vsock.Search.{IsSearched, allocate-IsSearched}
use spinbox.Vsock.Leases.{
  Reserved, Step, allocate_step, advance_step, release_step, run, leases_of, holders, IsExclusive,
  run-IsExclusive,
}

abbrev allocator : Allocator
allocator = record { min_cid = 4; max_cid = 6; cooldown = 2 }

abbrev host : Host
host = record {
  pid = 70;
  makes_directory = true;
  opens = λ cid. true;
  writes = λ cid. written;
  is_cid_in_use = λ cid. cid == 5;
}

abbrev taken : LockFile
taken = record { metadata = empty_metadata; locked = true }

abbrev free : LockFile
free = record { metadata = empty_metadata; locked = false }

abbrev files : Files
files = λ cid. if cid == 4 then taken else free

allocate-IsSearched_example :
    IsSearched allocator host 100 4 files (allocate allocator host 100 files)
allocate-IsSearched_example =
    allocate-IsSearched allocator host 100 files refl (omega arith) (omega arith)

abbrev lease : Lease
lease = record { cid = 4; has_file = true }

abbrev nothing_held : Reserved
nothing_held = record { calls = []; files = files; held = [] }

nothing_held-IsExclusive : IsExclusive nothing_held
unfolding leases_of holders
nothing_held-IsExclusive = λ cid. omega arith

-- Two calls try the same CID, and one of them leases it.
abbrev steps : List Step
steps =
    allocate_step
    ∷ allocate_step
    ∷ advance_step 0 host 100
    ∷ advance_step 0 host 100
    ∷ advance_step 1 host 101
    ∷ advance_step 0 host 101
    ∷ advance_step 1 host 102
    ∷ release_step 0 host 103
    ∷ []

run-IsExclusive_example : IsExclusive (run allocator steps nothing_held)
run-IsExclusive_example = run-IsExclusive allocator steps nothing_held nothing_held-IsExclusive
