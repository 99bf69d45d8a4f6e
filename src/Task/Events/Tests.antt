-- ===== src/Task/Events/Tests.antt =====
-- Runs of internal/guest/vminit/task/events.go at concrete services.
use spinbox.Common.{
  ℕ, true, false, Option, none, some, List, [], ◌∷◌, ◌++◌, ◌≡◌, refl, arith, ◌==◌, if◌then◌else◌,
}
use spinbox.Common.Int.{pos, negsuc}
use spinbox.Task.ExitTracker.{
  Exit, Process, ContainerProcess, Subscription, ContainerExitState, exits_of,
}
use spinbox.Task.Events.{
  Service, handle_process_exit, handle_init_exit, process_exit, resume, handle_started,
}
use spinbox.Task.Events.Count.{live, counter, IsBalanced, process_exit-IsBalanced}
use spinbox.Task.Events.Order.{exit_event}
use spinbox.Task.Events.Last.{init_exit_last}
use spinbox.Task.Events.Gaps.{init_exit_stuck}

abbrev init : Process
init = record { id = 1; is_init = true }

abbrev exec : Process
exec = record { id = 2; is_init = false }

abbrev running_init : ContainerProcess
running_init = record { pid = 6; container = 1; process = init }

abbrev running_exec : ContainerProcess
running_exec = record { pid = 8; container = 1; process = exec }

abbrev second_exec : ContainerProcess
second_exec = record { pid = 9; container = 1; process = record { id = 3; is_init = false } }

abbrev no_process : ContainerProcess
no_process = record second_exec { pid = 0 }

abbrev init_exit : Exit
init_exit = record { pid = 6; status = 0 }

abbrev exec_exit : Exit
exec_exit = record { pid = 8; status = 137 }

abbrev second_exit : Exit
second_exit = record { pid = 9; status = 1 }

abbrev quiet : Subscription
quiet = record { id = 5; registered = true; exits = λ pid. [] }

abbrev early : Subscription
early = record {
  id = 5;
  registered = true;
  exits = λ pid. if pid == 9 then second_exit ∷ [] else [];
}

abbrev counted : ℕ → Option ℕ → ContainerExitState
counted n waiter = record { running_execs = pos n; exec_waiter = waiter; init_exit = none }

-- Container 1 with its init, some processes and a counter; one start is under way.
abbrev service : Subscription → ContainerExitState → List ContainerProcess → Service
service sub state running = record {
  tracker = record {
    detector = record { next_sub_id = 5; subscriptions = sub ∷ [] };
    coordinator = record {
      containers = λ k. if k == 1 then some state else none;
      next_channel = 3;
      closed_channels = [];
    };
    running = running;
  };
  events = [];
  waiting = [];
}

abbrev with_exec : Subscription → Service
with_exec sub = service sub (counted 1 none) (running_init ∷ running_exec ∷ [])

abbrev alone : Subscription → Service
alone sub = service sub (counted 0 none) (running_init ∷ [])

with_exec-IsBalanced : (sub : Subscription) → IsBalanced (with_exec sub).tracker
unfolding live
with_exec-IsBalanced sub = λ k. ground arith

alone-IsBalanced : (sub : Subscription) → IsBalanced (alone sub).tracker
unfolding live
alone-IsBalanced sub = λ k. ground arith

process_exit-IsBalanced_example : IsBalanced (process_exit exec_exit (with_exec quiet)).tracker
process_exit-IsBalanced_example =
    process_exit-IsBalanced exec_exit (with_exec quiet) (with_exec-IsBalanced quiet)

init_exit_last_example :
    let s = resume 0 (
      handle_process_exit exec_exit 1 exec (handle_init_exit init_exit 1 init (with_exec quiet))) in
    (s.events ≡ ([] ++ exit_event exec_exit 1 exec ∷ []) ++ exit_event init_exit 1 init ∷ [])
    × (s.waiting ≡ [])
unfolding live
init_exit_last_example =
    init_exit_last init_exit exec_exit 1 init exec (with_exec quiet) refl refl
      (with_exec-IsBalanced quiet) refl

init_exit_stuck_example :
    let started = handle_started 5 second_exec (alone early) in
    let s = handle_init_exit init_exit 1 init started in
    (s.events ≡ started.events)
    × (s.waiting
        ≡ [] ++ record { channel = 3; exit = init_exit; container = 1; process = init } ∷ [])
    × (live 1 s.tracker.running ≡ 0)
    × (counter 1 s.tracker.coordinator ≡ negsuc 0)
unfolding exits_of live
init_exit_stuck_example =
    init_exit_stuck 5 second_exec second_exit init_exit init (alone early) (counted 0 none) refl
      refl refl (alone-IsBalanced early) refl
