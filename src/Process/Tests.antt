-- ===== src/Process/Tests.antt =====
-- Runs of the state machines of internal/guest/vminit/process at concrete processes.
use spinbox.Common.{true, false, some, List, [], ◌∷◌, refl}
use spinbox.Process.{new_process, Attempt, Call, start_exec, delete_exec, exit_exec, run}
use spinbox.Process.Exit.{IsRecorded, run-IsRecorded}

abbrev success : Attempt
success = record {
  initialized = true;
  prepared = true;
  executed = true;
  copied = true;
  pid_read = some 9;
}

abbrev failure : Attempt
failure = record success { executed = false }

abbrev calls : List Call
calls = start_exec success ∷ exit_exec 137 50 ∷ exit_exec 0 60 ∷ delete_exec ∷ []

new-IsRecorded : IsRecorded (new_process 0)
unfolding new_process
new-IsRecorded = (refl, refl, λ h. refl, λ h. cc)

run-IsRecorded_example : IsRecorded (run calls (new_process 0))
run-IsRecorded_example =
    run-IsRecorded calls (new_process 0) (refl, (tt, (tt, (tt, tt)))) new-IsRecorded
