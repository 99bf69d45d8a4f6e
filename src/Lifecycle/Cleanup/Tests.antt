-- ===== src/Lifecycle/Cleanup/Tests.antt =====
-- Runs of the orchestrator of internal/shim/lifecycle/cleanup.go over a world that is a number.
use spinbox.Common.{refl, ℕ, ◌+◌, none, some, List, ◌≡◌, drop}
use spinbox.Lifecycle.Cleanup.{
  phase_conn_close, CleanupPhase, CleanupPhases, new_cleanup_orchestrator, execute_partial,
}
use spinbox.Lifecycle.Cleanup.Sequence.{
  position, names, call_all, pending, turned, execute_partial-pending,
}

abbrev phases : CleanupPhases ℕ ℕ
phases = record {
  hotplug_stop = some (λ w. (w + 1, none));
  io_shutdown = none;
  conn_close = some (λ w. (w + 10, some 7));
  vm_shutdown = some (λ w. (w + 100, none));
  network_cleanup = none;
  mount_cleanup = some (λ w. (w + 1000, some 8));
  event_close = none;
}

abbrev orchestrator : List (CleanupPhase ℕ ℕ)
orchestrator = new_cleanup_orchestrator phases

execute_partial-pending_example :
    ((execute_partial phase_conn_close orchestrator 0).0 ≡ turned 2 orchestrator)
    × ((execute_partial phase_conn_close orchestrator 0).1.errors
        ≡ (call_all (pending (drop 2 orchestrator)) 0).0)
    × ((execute_partial phase_conn_close orchestrator 0).2
        ≡ (call_all (pending (drop 2 orchestrator)) 0).1)
unfolding position names new_cleanup_orchestrator
execute_partial-pending_example =
    execute_partial-pending phase_conn_close orchestrator 0 phases refl
