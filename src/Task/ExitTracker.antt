-- ===== src/Task/ExitTracker.antt =====
-- internal/guest/vminit/task/exit_tracker.go. Pointers to containers and processes are numbers; a
-- process is its pointer with `IsInit`. Each method holds its component's mutex and is one step.
pub mod EarlyExits
mod Tests
use spinbox.Common.{
  ℕ, ◌+◌, ◌%◌, ◌^◌, Bool, true, false, not, ◌&&◌, Option, none, some, List, [], ◌∷◌, ◌++◌, map,
  length, ltb, ◌==◌, if◌then◌else◌,
}
use spinbox.Common.Int.{ℤ, pos, ◌+ℤ◌, ◌-ℤ◌, ltb_ℤ}

abbrev pub Container : Type 0
Container = ℕ

-- `runcC.Exit`, without its timestamp.
pub record Exit : Type 0 where
  pub pid : ℕ
  pub status : ℕ

pub record Process : Type 0 where
  pub id : ℕ
  pub is_init : Bool

-- An entry of `processRegistry.running` under its PID; the entries of one PID keep their order.
pub record ContainerProcess : Type 0 where
  pub pid : ℕ
  pub container : Container
  pub process : Process

-- `earlyExitSubscription`: an object, and whether the detector's map still holds it.
pub record Subscription : Type 0 where
  pub id : ℕ
  pub registered : Bool
  pub exits : ℕ → List Exit

pub record EarlyExitDetector : Type 0 where
  pub next_sub_id : ℕ
  pub subscriptions : List Subscription

pub record ContainerExitState : Type 0 where
  pub running_execs : ℤ
  pub exec_waiter : Option ℕ
  pub init_exit : Option Exit

-- Channels are numbers; `closed_channels` are those that have been closed.
pub record ExitCoordinator : Type 0 where
  pub containers : Container → Option ContainerExitState
  pub next_channel : ℕ
  pub closed_channels : List ℕ

pub record ExitTracker : Type 0 where
  pub detector : EarlyExitDetector
  pub coordinator : ExitCoordinator
  pub running : List ContainerProcess

unfoldable pub new_exit_tracker : ExitTracker
new_exit_tracker = record {
  detector = record { next_sub_id = 0; subscriptions = [] };
  coordinator = record { containers = λ c. none; next_channel = 0; closed_channels = [] };
  running = [];
}

-- `atomic.AddUint64` wraps.
unfoldable pub detector_subscribe : EarlyExitDetector → EarlyExitDetector × ℕ
detector_subscribe d =
    let id = (d.next_sub_id + 1) % 2 ^ 64 in
    let sub : Subscription = record { id = id; registered = true; exits = λ pid. [] } in
    (record { next_sub_id = id; subscriptions = sub ∷ d.subscriptions }, id)

unfoldable pub collect : Exit → Subscription → Subscription
collect e s =
    if s.registered
    then record s { exits = λ pid. if pid == e.pid then s.exits pid ++ e ∷ [] else s.exits pid }
    else s

unfoldable pub detector_notify_exit : Exit → EarlyExitDetector → EarlyExitDetector
unfolding collect
detector_notify_exit e d = record d { subscriptions = map (collect e) d.subscriptions }

unfoldable pub unregister : ℕ → Subscription → Subscription
unregister id s = if s.id == id then record s { registered = false } else s

unfoldable pub detector_remove : ℕ → EarlyExitDetector → EarlyExitDetector
unfolding unregister
detector_remove id d = record d { subscriptions = map (unregister id) d.subscriptions }

-- What the subscription's own map holds for a PID.
unfoldable pub exits_of : ℕ → ℕ → List Subscription → List Exit
exits_of id pid [] = []
exits_of id pid (s ∷ ss) = if s.id == id then s.exits pid else exits_of id pid ss

unfoldable pub complete : ℕ → ℕ → EarlyExitDetector → EarlyExitDetector × List Exit
unfolding detector_remove exits_of
complete id pid d = let d' = detector_remove id d in (d', exits_of id pid d'.subscriptions)

unfoldable pub put_state : Container → Option ContainerExitState → ExitCoordinator → ExitCoordinator
put_state container s c = record c {
  containers = λ k. if k == container then s else c.containers k;
}

abbrev pub fresh_state : ContainerExitState
fresh_state = record { running_execs = pos 0; exec_waiter = none; init_exit = none }

-- The value of `getOrCreateState`; every caller stores it back.
abbrev pub or_fresh : Option ContainerExitState → ContainerExitState
or_fresh none = fresh_state
or_fresh (some s) = s

unfoldable pub increment_exec_count : Container → ExitCoordinator → ExitCoordinator
unfolding put_state
increment_exec_count k c =
    let s = or_fresh (c.containers k) in
    put_state k (some (record s { running_execs = s.running_execs +ℤ pos 1 })) c

unfoldable pub stash_init_exit : Container → Exit → ExitCoordinator → ExitCoordinator
unfolding put_state
stash_init_exit k e c =
    put_state k (some (record (or_fresh (c.containers k)) { init_exit = some e })) c

-- `runningExecs == 0`.
abbrev pub is_zero : ℤ → Bool
is_zero n = not (ltb_ℤ n (pos 0)) && not (ltb_ℤ (pos 0) n)

abbrev pub delay :
    Container → Option ContainerExitState → ExitCoordinator → ExitCoordinator × Option ℕ
delay k none c = (c, none)
delay k (some s) c =
    if is_zero s.running_execs
    then (c, none)
    else let c' = put_state k (some (record s { exec_waiter = some c.next_channel })) c in
      (record c' { next_channel = c.next_channel + 1 }, some c.next_channel)

-- The channel to wait for, if the exit has to be delayed.
unfoldable pub should_delay_init_exit : Container → ExitCoordinator → ExitCoordinator × Option ℕ
unfolding put_state
should_delay_init_exit k c = delay k (c.containers k) c

abbrev pub signal : Container → ContainerExitState → Option ℕ → ExitCoordinator → ExitCoordinator
signal k s none c = put_state k (some s) c
signal k s (some channel) c =
    let c' = put_state k (some (record s { exec_waiter = none })) c in
    record c' { closed_channels = channel ∷ c.closed_channels }

abbrev pub decrement : Container → Option ContainerExitState → ExitCoordinator → ExitCoordinator
decrement k none c = c
decrement k (some s) c =
    let s' = record s { running_execs = s.running_execs -ℤ pos 1 } in
    if ltb_ℤ (pos 0) s'.running_execs then put_state k (some s') c else signal k s' s.exec_waiter c

unfoldable pub notify_exec_exit : Container → ExitCoordinator → ExitCoordinator
unfolding put_state
notify_exec_exit k c = decrement k (c.containers k) c

abbrev pub taken :
    Container → ContainerExitState → Option Exit → ExitCoordinator → ExitCoordinator × Option Exit
taken k s none c = (c, none)
taken k s (some e) c = (put_state k (some (record s { init_exit = none })) c, some e)

abbrev pub take_exit :
    Container → Option ContainerExitState → ExitCoordinator → ExitCoordinator × Option Exit
take_exit k none c = (c, none)
take_exit k (some s) c = taken k s s.init_exit c

unfoldable pub get_init_exit : Container → ExitCoordinator → ExitCoordinator × Option Exit
unfolding put_state
get_init_exit k c = take_exit k (c.containers k) c

abbrev pub has_exit : Option ContainerExitState → Bool
has_exit none = false
has_exit (some s) = elim s.init_exit [ none ↦ false | some e ↦ true ]

unfoldable pub init_has_exited : Container → ExitCoordinator → Bool
init_has_exited k c = has_exit (c.containers k)

unfoldable pub coordinator_cleanup : Container → ExitCoordinator → ExitCoordinator
unfolding put_state
coordinator_cleanup k c = put_state k none c

-- The entries of the registry that a test picks, and the others.
unfoldable pub select : (ContainerProcess → Bool) → List ContainerProcess → List ContainerProcess
select test [] = []
select test (cp ∷ cps) = let rest = select test cps in if test cp then cp ∷ rest else rest

unfoldable pub add_process : ContainerProcess → List ContainerProcess → List ContainerProcess
add_process cp running = running ++ cp ∷ []

unfoldable pub remove_by_pid :
    ℕ → List ContainerProcess → List ContainerProcess × List ContainerProcess
unfolding select
remove_by_pid pid running =
    (select (λ cp. not (cp.pid == pid)) running, select (λ cp. cp.pid == pid) running)

unfoldable pub remove_by_container : ℕ → Container → List ContainerProcess → List ContainerProcess
unfolding select
remove_by_container pid k running = select (λ cp. not (cp.pid == pid && cp.container == k)) running

unfoldable pub cleanup_container : Container → List ContainerProcess → List ContainerProcess
unfolding select
cleanup_container k running = select (λ cp. not (cp.container == k)) running

-- A restarted container comes with its PID.
abbrev pub forget_init : Option (ℕ × Container) → List ContainerProcess → List ContainerProcess
forget_init none running = running
forget_init (some (pid, k)) running = remove_by_container pid k running

unfoldable pub subscribe : Option (ℕ × Container) → ExitTracker → ExitTracker × ℕ
unfolding detector_subscribe remove_by_container
subscribe c t =
    let (d, id) = detector_subscribe t.detector in
    (record t { detector = d; running = forget_init c t.running }, id)

unfoldable pub cancel : ℕ → ExitTracker → ExitTracker
unfolding detector_remove
cancel id t = record t { detector = detector_remove id t.detector }

-- The loop of `NotifyExit` over the processes that exited.
unfoldable pub stash_all : Exit → List ContainerProcess → ExitCoordinator → ExitCoordinator
stash_all e [] c = c
stash_all e (cp ∷ cps) c =
    stash_all e cps (if cp.process.is_init then stash_init_exit cp.container e c else c)

unfoldable pub notify_exit : Exit → ExitTracker → ExitTracker × List ContainerProcess
unfolding detector_notify_exit remove_by_pid stash_all
notify_exit e t =
    let d = detector_notify_exit e t.detector in
    let (running, cps) = remove_by_pid e.pid t.running in
    (record { detector = d; coordinator = stash_all e cps t.coordinator; running = running }, cps)

-- `subscription.HandleStart`: the early exits, or the process is registered.
abbrev pub register : ContainerProcess → List Exit → ExitTracker → ExitTracker × List Exit
register cp (e ∷ es) t = (t, e ∷ es)
register cp [] t = if cp.pid == 0 then (t, []) else (
  record t {
    running = add_process cp t.running;
    coordinator =
        if cp.process.is_init
        then t.coordinator
        else increment_exec_count cp.container t.coordinator;
  },
  [],
)

-- `other` is what other goroutines do to the tracker after the subscription is completed and
-- before the process is registered.
unfoldable pub handle_start_during :
    (ExitTracker → ExitTracker) → ℕ → ContainerProcess → ExitTracker → ExitTracker × List Exit
unfolding complete add_process increment_exec_count
handle_start_during other id cp t =
    let (d, early) = complete id cp.pid t.detector in
    register cp early (other (record t { detector = d }))

unfoldable pub handle_start : ℕ → ContainerProcess → ExitTracker → ExitTracker × List Exit
unfolding handle_start_during
handle_start = handle_start_during (λ t. t)

unfoldable pub tracker_cleanup : Container → ExitTracker → ExitTracker
unfolding coordinator_cleanup cleanup_container
tracker_cleanup k t = record t {
  coordinator = coordinator_cleanup k t.coordinator;
  running = cleanup_container k t.running;
}
