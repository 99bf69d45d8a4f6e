-- ===== src/Task/Events/Order.antt =====
-- The order that `handleInitExit` of internal/guest/vminit/task/events.go is for: a container's init
-- exit after the exits of its execs, as long as the counter is right.
use spinbox.Common.{ℕ, suc, true, false, Option, none, some, [], ◌∷◌, ◌++◌, ◌≡◌, arith, ◌==◌, ◌∙◌}
use spinbox.Common.Int.{pos, ◌-ℤ◌}
use spinbox.Task.ExitTracker.{
  Container, Exit, Process, ContainerProcess, ContainerExitState, exits_of,
}
use spinbox.Task.ExitTracker.EarlyExits.{exits_of-unregister}
use spinbox.Task.Events.{
  TaskExit, Service, handle_process_exit, handle_init_exit, handle_started, is_closed,
}
use spinbox.Task.Events.Count.{live, live-append, counter, counter-increment, IsBalanced}

-- A start that ends with no early exit keeps the counters equal to the numbers of running execs.
pub handle_started-IsBalanced :
    (id : ℕ) (cp : ContainerProcess) (s : Service)
    → exits_of id cp.pid s.tracker.detector.subscriptions ≡ []
    → IsBalanced s.tracker
    → IsBalanced (handle_started id cp s).tracker
unfolding handle_started live
handle_started-IsBalanced id cp s none_early b = λ k.
    let seen = exits_of-unregister id id cp.pid s.tracker.detector.subscriptions ∙ none_early in
    rw seen (
      ground (
        arith,
        b k,
        live-append k s.tracker.running (cp ∷ []),
        counter-increment cp.container k s.tracker.coordinator (live k s.tracker.running),
      ))

-- The event of a process.
abbrev pub exit_event : Exit → Container → Process → TaskExit
exit_event e k p = record { container = k; process = p; pid = e.pid; exit_status = e.status }

abbrev pub waiter_of : Option ContainerExitState → Option ℕ
waiter_of none = none
waiter_of (some s) = s.exec_waiter

-- With the counters right, the exit of an init is published at once if none of the execs of its
-- container is running.
pub handle_init_exit_alone :
    (e : Exit) (k : Container) (p : Process) (s : Service)
    → p.is_init ≡ true
    → IsBalanced s.tracker
    → live k s.tracker.running ≡ 0
    → let s' = handle_init_exit e k p s in
      (s'.events ≡ s.events ++ exit_event e k p ∷ []) × (s'.waiting ≡ s.waiting)
unfolding handle_init_exit
handle_init_exit_alone e k p s i b h = ground (arith, b k)

-- With the counters right, while an exec of the container is running the exit of its init sends
-- no event: a goroutine waits with it, on a new channel that the container's state holds for the
-- last exec to close, and the counters stay.
pub handle_init_exit_held :
    (e : Exit) (k : Container) (p : Process) (s : Service) (n : ℕ)
    → IsBalanced s.tracker
    → live k s.tracker.running ≡ suc n
    → let s' = handle_init_exit e k p s in
      let channel = s.tracker.coordinator.next_channel in
      (s'.events ≡ s.events)
      × (s'.waiting
          ≡ s.waiting ++ record { channel = channel; exit = e; container = k; process = p } ∷ [])
      × (waiter_of (s'.tracker.coordinator.containers k) ≡ some channel)
      × (counter k s'.tracker.coordinator ≡ pos (suc n))
unfolding handle_init_exit
handle_init_exit_held e k p s n b h = ground (arith, b k)

-- The exit of an exec closes the channel that an init exit waits for exactly if it was the last.
pub last_exec-is_closed :
    (e : Exit) (k : Container) (p : Process) (s : Service) (st : ContainerExitState) (channel n : ℕ)
    → p.is_init ≡ false
    → s.tracker.coordinator.containers k ≡ some st
    → st.running_execs ≡ pos (suc n)
    → st.exec_waiter ≡ some channel
    → is_closed channel s.tracker.coordinator.closed_channels ≡ false
    → is_closed channel (handle_process_exit e k p s).tracker.coordinator.closed_channels ≡ n == 0
unfolding handle_process_exit is_closed ◌-ℤ◌
last_exec-is_closed e k p s st channel n x h c w f = ground arith
