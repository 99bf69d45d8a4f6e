-- ===== src/Supervisor/Tests.antt =====
-- Runs of the loop of internal/guest/vminit/supervisor/monitor.go.
use spinbox.Common.{◌*◌, true, false, none, some, List, [], ◌∷◌, ◌++◌, ◌≡◌, refl, arith}
use spinbox.Supervisor.{second, new_monitor, Round, gave_up, Running, run}
use spinbox.Supervisor.Restarts.{IsCrash, run-gave_up}

abbrev crash : Round
crash = record {
  launch = some 40;
  lasted = 3;
  stop_called = false;
  cancelled = false;
  late = 1;
  stop_in_backoff = false;
  backoff_cancelled = false;
}

abbrev failed_start : Round
failed_start = record crash { launch = none }

abbrev fresh : Running
fresh = record { monitor = new_monitor 100; now = 100 }

crash-IsCrash : IsCrash (9 * second) crash
crash-IsCrash = (λ h. cc, omega arith, refl, refl, refl, refl)

abbrev crashes : List Round
crashes = crash ∷ crash ∷ crash ∷ crash ∷ crash ∷ crash ∷ crash ∷ crash ∷ crash ∷ crash ∷ []

run-gave_up_example :
    ((run crashes fresh).1 ≡ none) × ((run (crashes ++ crash ∷ []) fresh).1 ≡ some gave_up)
run-gave_up_example =
    let c = crash-IsCrash in
    run-gave_up 100 crashes crash (c, (c, (c, (c, (c, (c, (c, (c, (c, (c, tt)))))))))) refl

abbrev stopped_in_backoff : Running
stopped_in_backoff = record { monitor = record (new_monitor 100) { stopped = true }; now = 200 }
