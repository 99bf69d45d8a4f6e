-- ===== src/Task/Events/Last.antt =====
-- `handleInitExit` of internal/guest/vminit/task/events.go from the exit of an init to its event.
use spinbox.Common.{true, false, some, List, [], ◌∷◌, ◌++◌, ◌≡◌, refl, arith, length}
use spinbox.Common.Int.{◌-ℤ◌}
use spinbox.Task.ExitTracker.{
  Container, Exit, Process, put_state, notify_exec_exit, should_delay_init_exit,
}
use spinbox.Task.Events.{
  Waiting, Service, send, is_closed, pick, handle_process_exit, handle_init_exit, resume,
}
use spinbox.Task.Events.Count.{live, IsBalanced}
use spinbox.Task.Events.Order.{exit_event}

pick-append : (ws : List Waiting) (w : Waiting) → pick (length ws) (ws ++ w ∷ []) ≡ some (w, ws)
unfolding pick
pick-append [] w = refl
pick-append (v ∷ ws) w = ground (arith, pick-append ws w)

-- With the counters right and one exec of the container running, an exit of the init that is
-- handled first is published after the exec's: the goroutine goes on once the exec's exit has been
-- handled, and no other goroutine is lost.
pub init_exit_last :
    (e f : Exit) (k : Container) (p q : Process) (s : Service)
    → p.is_init ≡ true
    → q.is_init ≡ false
    → IsBalanced s.tracker
    → live k s.tracker.running ≡ 1
    → let s' = resume (length s.waiting) (handle_process_exit f k q (handle_init_exit e k p s)) in
      (s'.events ≡ (s.events ++ exit_event f k q ∷ []) ++ exit_event e k p ∷ [])
      × (s'.waiting ≡ s.waiting)
unfolding handle_process_exit handle_init_exit resume ◌-ℤ◌ send is_closed notify_exec_exit
    should_delay_init_exit put_state
init_exit_last e f k p q s i x b h = ground (
  arith,
  b k,
  pick-append s.waiting (record {
    channel = s.tracker.coordinator.next_channel;
    exit = e;
    container = k;
    process = p;
  }),
)
