-- ===== src/Runc/Tests.antt =====
-- Runs of internal/guest/vminit/runc/container.go with two handlers for one ID.
use spinbox.Common.{none, some, List, [], ◌∷◌, arith}
use spinbox.Runc.{ok, err, failed, Container}
use spinbox.Runc.Exclusion.{
  Step, arrive, advance_step, remove_step, Handlers, run, IsExclusive, holders, run-IsExclusive_ids,
}
use spinbox.Common.Maps.{lookup}

abbrev container : Container
container = record {
  id = "web";
  cgroup = none;
  init_process = some 1;
  processes = [];
  reserved_process = [];
  mount_cleanup = none;
}

abbrev nobody : Handlers
nobody = ([], container)

nobody-IsExclusive : IsExclusive nobody
unfolding holders lookup
nobody-IsExclusive = λ id. ground arith

abbrev steps : List Step
steps =
    arrive "sh" (ok 2)
    ∷ arrive "sh" (err (failed 1))
    ∷ advance_step 0
    ∷ advance_step 1
    ∷ advance_step 0
    ∷ remove_step "sh"
    ∷ []

run-IsExclusive_ids_example : IsExclusive (run steps nobody)
run-IsExclusive_ids_example = run-IsExclusive_ids steps nobody nobody-IsExclusive
