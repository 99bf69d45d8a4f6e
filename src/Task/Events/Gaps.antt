-- ===== src/Task/Events/Gaps.antt =====
-- The counter of running execs of internal/guest/vminit/task/exit_tracker.go after those starts of
-- internal/guest/vminit/task/lifecycle.go whose process exits early or does not start at all.
use spinbox.Common.{ℕ, true, false, some, [], ◌∷◌, ◌++◌, ◌≡◌, ◌∙◌, arith}
use spinbox.Common.Int.{pos, negsuc, ◌-ℤ◌}
use spinbox.Task.ExitTracker.{
  Exit, Process, ContainerProcess, ContainerExitState, notify_exec_exit, exits_of,
}
use spinbox.Task.ExitTracker.EarlyExits.{exits_of-unregister}
use spinbox.Task.Events.{
  Service, start_failed, handle_process_exit, handle_init_exit, handle_started, finish_start,
}
use spinbox.Task.Events.Count.{live, counter, IsBalanced}
use spinbox.Task.Events.Order.{exit_event}

-- A started exec whose exit came early leaves the registry as it is and its container's counter
-- one lower, if the tracker has a state for the container.
pub handle_started-early :
    (id : ℕ) (cp : ContainerProcess) (e : Exit) (s : Service) (st : ContainerExitState)
    → cp.process.is_init ≡ false
    → exits_of id cp.pid s.tracker.detector.subscriptions ≡ e ∷ []
    → s.tracker.coordinator.containers cp.container ≡ some st
    → let t = (handle_started id cp s).tracker in
      (counter cp.container t.coordinator ≡ st.running_execs -ℤ pos 1)
      × (t.running ≡ s.tracker.running)
unfolding handle_started handle_process_exit
handle_started-early id cp e s st x early c =
    let seen = exits_of-unregister id id cp.pid s.tracker.detector.subscriptions ∙ early in
    rw seen (ground arith)

-- With the counters right and one exec of a container running, a second exec that exits while it is
-- being started makes the next exit of the init be published at once, while the first exec is still
-- registered as running.
pub init_exit_before_exec :
    (id : ℕ) (cp : ContainerProcess) (e f : Exit) (p : Process) (s : Service)
    → cp.process.is_init ≡ false
    → p.is_init ≡ true
    → exits_of id cp.pid s.tracker.detector.subscriptions ≡ e ∷ []
    → IsBalanced s.tracker
    → live cp.container s.tracker.running ≡ 1
    → let started = handle_started id cp s in
      let s' = handle_init_exit f cp.container p started in
      (s'.events ≡ started.events ++ exit_event f cp.container p ∷ [])
      × (live cp.container s'.tracker.running ≡ 1)
unfolding handle_started handle_process_exit handle_init_exit ◌-ℤ◌
init_exit_before_exec id cp e f p s x i early b h =
    let seen = exits_of-unregister id id cp.pid s.tracker.detector.subscriptions ∙ early in
    rw seen (ground (arith, b cp.container))

-- With the counters right, no exec of a container running and a state for the container, an exec
-- that exits while it is being started makes the next exit of the init wait on a new channel: no
-- event is sent, no exec is running, and the counter is -1.
pub init_exit_stuck :
    (id : ℕ) (cp : ContainerProcess) (e f : Exit) (p : Process) (s : Service)
    (st : ContainerExitState)
    → cp.process.is_init ≡ false
    → exits_of id cp.pid s.tracker.detector.subscriptions ≡ e ∷ []
    → s.tracker.coordinator.containers cp.container ≡ some st
    → IsBalanced s.tracker
    → live cp.container s.tracker.running ≡ 0
    → let started = handle_started id cp s in
      let s' = handle_init_exit f cp.container p started in
      (s'.events ≡ started.events)
      × (s'.waiting
          ≡ s.waiting
            ++ record {
              channel = s.tracker.coordinator.next_channel;
              exit = f;
              container = cp.container;
              process = p;
            }
              ∷ [])
      × (live cp.container s'.tracker.running ≡ 0)
      × (counter cp.container s'.tracker.coordinator ≡ negsuc 0)
unfolding handle_started handle_process_exit handle_init_exit ◌-ℤ◌
init_exit_stuck id cp e f p s st x early c b h =
    let seen = exits_of-unregister id id cp.pid s.tracker.detector.subscriptions ∙ early in
    rw seen (ground (arith, b cp.container))

-- The start of an exec that fails without a process lowers the counter of its container, if the
-- tracker has a state for it, though the registry stays as it was.
pub finish_start-start_failed :
    (id : ℕ) (cp : ContainerProcess) (s : Service) (st : ContainerExitState)
    → cp.pid ≡ 0
    → exits_of id 0 s.tracker.detector.subscriptions ≡ []
    → s.tracker.coordinator.containers cp.container ≡ some st
    → let t = (finish_start cp.container id (start_failed cp) s).0.tracker in
      (counter cp.container t.coordinator ≡ st.running_execs -ℤ pos 1)
      × (t.running ≡ s.tracker.running)
unfolding handle_started notify_exec_exit
finish_start-start_failed id cp s st z early c =
    let seen = exits_of-unregister id id 0 s.tracker.detector.subscriptions ∙ early in
    rw z (rw seen (ground arith))
