-- ===== src/Task/Events.antt =====
-- internal/guest/vminit/task/events.go, and what `Start` of internal/guest/vminit/task/lifecycle.go
-- does to the exit tracker. `SetExited` and `KillAll` act on the process and the kernel, which
-- are not part of this state; the channel of events is the list of what has been sent.
pub mod Count
pub mod Order
pub mod Last
pub mod Gaps
mod Tests
use spinbox.Common.{
  ℕ, ◌-◌, Bool, true, false, not, ◌||◌, Option, none, some, List, [], ◌∷◌, ◌++◌, ◌==◌,
  if◌then◌else◌,
}
use spinbox.Task.ExitTracker.{
  Container, Exit, Process, ContainerProcess, ExitTracker, ExitCoordinator, new_exit_tracker,
  should_delay_init_exit, notify_exec_exit, notify_exit, handle_start, cancel, subscribe,
  init_has_exited,
}

-- `TaskExit`, with the process for its ID.
pub record TaskExit : Type 0 where
  pub container : Container
  pub process : Process
  pub pid : ℕ
  pub exit_status : ℕ

-- A goroutine of `handleInitExit` that waits for a channel.
pub record Waiting : Type 0 where
  pub channel : ℕ
  pub exit : Exit
  pub container : Container
  pub process : Process

pub record Service : Type 0 where
  pub tracker : ExitTracker
  pub events : List TaskExit
  pub waiting : List Waiting

unfoldable pub new_service : Service
unfolding new_exit_tracker
new_service = record { tracker = new_exit_tracker; events = []; waiting = [] }

abbrev pub with_coordinator : ExitCoordinator → Service → Service
with_coordinator c s = record s { tracker = record (s.tracker) { coordinator = c } }

unfoldable pub send : TaskExit → Service → Service
send e s = record s { events = s.events ++ e ∷ [] }

unfoldable pub handle_process_exit : Exit → Container → Process → Service → Service
unfolding send notify_exec_exit
handle_process_exit e k p s =
    let s' = send (record { container = k; process = p; pid = e.pid; exit_status = e.status }) s in
    if p.is_init then s' else with_coordinator (notify_exec_exit k s'.tracker.coordinator) s'

abbrev pub publish_or_wait :
    Exit → Container → Process → ExitCoordinator × Option ℕ → Service → Service
publish_or_wait e k p (c, none) s = handle_process_exit e k p (with_coordinator c s)
publish_or_wait e k p (c, some channel) s =
    let s' = with_coordinator c s in
    record s' {
      waiting =
          s.waiting ++ record { channel = channel; exit = e; container = k; process = p } ∷ [];
    }

unfoldable pub handle_init_exit : Exit → Container → Process → Service → Service
unfolding handle_process_exit should_delay_init_exit
handle_init_exit e k p s = publish_or_wait e k p (should_delay_init_exit k s.tracker.coordinator) s

-- The inner loop of `processExits`.
unfoldable pub handle_exited : Exit → List ContainerProcess → Service → Service
unfolding handle_init_exit handle_process_exit
handle_exited e [] s = s
handle_exited e (cp ∷ cps) s = handle_exited e cps (
    if cp.process.is_init
    then handle_init_exit e cp.container cp.process s
    else handle_process_exit e cp.container cp.process s)

-- One round of `processExits`.
unfoldable pub process_exit : Exit → Service → Service
unfolding handle_exited notify_exit
process_exit e s =
    let (t, cps) = notify_exit e s.tracker in handle_exited e cps (record s { tracker = t })

unfoldable pub is_closed : ℕ → List ℕ → Bool
is_closed channel [] = false
is_closed channel (c ∷ cs) = c == channel || is_closed channel cs

abbrev pub kept : Waiting → Option (Waiting × List Waiting) → Option (Waiting × List Waiting)
kept w none = none
kept w (some (v, ws)) = some (v, w ∷ ws)

-- The n-th waiting goroutine, and the others.
unfoldable pub pick : ℕ → List Waiting → Option (Waiting × List Waiting)
pick n [] = none
pick n (w ∷ ws) = let rest = pick (n - 1) ws in if n == 0 then some (w, ws) else kept w rest

abbrev pub go_on : Option (Waiting × List Waiting) → Service → Service
go_on none s = s
go_on (some (w, ws)) s =
    if is_closed w.channel s.tracker.coordinator.closed_channels
    then handle_process_exit w.exit w.container w.process (record s { waiting = ws })
    else s

-- The goroutine of `handleInitExit` that the scheduler picks goes on if its channel is closed.
unfoldable pub resume : ℕ → Service → Service
unfolding handle_process_exit is_closed pick
resume n s = go_on (pick n s.waiting) s

unfoldable pub handle_early : ContainerProcess → List Exit → Service → Service
unfolding handle_process_exit
handle_early cp [] s = s
handle_early cp (e ∷ es) s = handle_early cp es (handle_process_exit e cp.container cp.process s)

-- The `handleStarted` closure of `preStart`; the PID is 0 if the process is nil.
unfoldable pub handle_started : ℕ → ContainerProcess → Service → Service
unfolding handle_early handle_start
handle_started id cp s =
    let (t, early) = handle_start id cp s.tracker in
    handle_early cp early (record s { tracker = t })

-- What `container.Start` returned: the process, with PID 0 if it has none.
pub data StartResult : Type 0 where
  started : ContainerProcess → StartResult
  start_failed : ContainerProcess → StartResult

abbrev pub finish_start : Container → ℕ → StartResult → Service → Service × Bool
finish_start k id (started cp) s = (handle_started id cp s, true)
finish_start k id (start_failed cp) s =
    let s' = with_coordinator (notify_exec_exit k s.tracker.coordinator) s in
    (handle_started id cp s', false)

-- `Start` of an exec: `meanwhile` is what other goroutines do while the runtime starts it. The
-- deferred `cleanup` cancels the subscription.
unfoldable pub start_exec : Container → (Service → Service) → StartResult → Service → Service × Bool
unfolding subscribe cancel handle_started notify_exec_exit init_has_exited
start_exec k meanwhile r s =
    if init_has_exited k s.tracker.coordinator
    then (s, false)
    else let (t, id) = subscribe none s.tracker in
      let (s', success) = finish_start k id r (meanwhile (record s { tracker = t })) in
      (record s' { tracker = cancel id s'.tracker }, success)
