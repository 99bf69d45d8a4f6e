-- ===== src/Lifecycle/State/Tests.antt =====
-- Runs of the state machine of internal/shim/lifecycle/state.go at concrete machines.
use spinbox.Common.{some, ◌+◌, ◌≤◌, true, false, List, [], ◌∷◌, ◌≡◌, ◌⊎◌}
use spinbox.Lifecycle.State.{
  deleting, idle, created, running, shutting_down, StateMachine, ◌==◌, Call, start_creating_call,
  start_deleting_call, mark_creation_failed_call, call, run,
}
use spinbox.Lifecycle.State.Diagram.{IsReached, call-⟶}
use spinbox.Lifecycle.State.Exclusion.{grants, returns, one_if, grants-le-returns}

abbrev machine_running : StateMachine
machine_running = record { state = running; intentional_shutdown = false }

abbrev machine_created : StateMachine
machine_created = record { state = created; intentional_shutdown = false }

abbrev machine_ending : StateMachine
machine_ending = record { state = shutting_down; intentional_shutdown = true }

abbrev machine_idle : StateMachine
machine_idle = record { state = idle; intentional_shutdown = false }

call-⟶_example :
    ((call start_deleting_call machine_running).1 ≡ false)
      × ((call start_deleting_call machine_running).0 ≡ machine_running)
    ⊎ ((call start_deleting_call machine_running).1 ≡ true)
      × IsReached (some deleting) running (call start_deleting_call machine_running).0.state
call-⟶_example = call-⟶ start_deleting_call machine_running tt

abbrev two_creations : List Call
two_creations =
    start_creating_call ∷ start_creating_call ∷ mark_creation_failed_call ∷ start_creating_call ∷ []

grants-le-returns_example :
    grants two_creations machine_idle + one_if ((run two_creations machine_idle).state == idle)
    ≤ returns two_creations machine_idle + one_if (machine_idle.state == idle)
grants-le-returns_example = grants-le-returns two_creations machine_idle
