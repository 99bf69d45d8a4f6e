-- ===== src/Qemu/Tests.antt =====
-- Runs of internal/host/vm/qemu: a start that fails and one that works, and a process that does not
-- die.
use spinbox.Common.{true, false, none, some, List, [], ◌∷◌, ◌≡◌, refl, inl}
use spinbox.Qemu.{new, Instance, StartCalls, ShutdownCalls, new_instance, start}
use spinbox.Qemu.Release.{
  Call, add_tap_call, start_call, shutdown_call, run, IsLeasedOnce, run-IsLeasedOnce, all_well,
  start-not_again, AllFail,
}

abbrev no_qmp : StartCalls
no_qmp = record all_well { qmp = some 5 }

abbrev stubborn : ShutdownCalls
stubborn = record {
  exits_early = false;
  quit_sent = true;
  exits_after_quit = false;
  kill_sent = true;
  exits_after_kill = false;
}

abbrev calls : List Call
calls = add_tap_call ∷ start_call no_qmp ∷ start_call all_well ∷ shutdown_call stubborn ∷ []

run-IsLeasedOnce_example : IsLeasedOnce 7 (run calls (new_instance 7))
unfolding new_instance
run-IsLeasedOnce_example = run-IsLeasedOnce 7 calls (new_instance 7) (inl (refl, refl))

abbrev started : Instance
started = (start all_well (new_instance 7)).0

start-not_again_example :
    let q' = (start no_qmp (new_instance 7)).0 in
    (q'.state ≡ new)
    × (q'.cid_lease ≡ none)
    × (q'.has_state_dir ≡ false)
    × AllFail (all_well ∷ no_qmp ∷ []) q'
unfolding start new_instance
start-not_again_example =
    start-not_again no_qmp (new_instance 7) 5 (all_well ∷ no_qmp ∷ []) refl refl refl refl refl
