-- ===== src/Task/Events/Count.antt =====
-- The counter of running execs of internal/guest/vminit/task/exit_tracker.go against the
-- registry of running processes.
use spinbox.Common.{
  ℕ, suc, ◌+◌, Bool, true, not, ◌&&◌, Option, none, some, List, [], ◌∷◌, ◌++◌, ◌≡◌, refl, sym, ap,
  ◌∙◌, arith, ◌==◌, if◌then◌else◌,
}
use spinbox.Common.Int.{ℤ, pos, ◌+ℤ◌, ◌-ℤ◌}
use spinbox.Task.ExitTracker.{
  Container, Exit, Process, ContainerProcess, ContainerExitState, ExitCoordinator, ExitTracker,
  increment_exec_count, stash_init_exit, should_delay_init_exit, notify_exec_exit, stash_all,
  select, notify_exit,
}
use spinbox.Task.Events.{
  Service, with_coordinator, handle_process_exit, handle_init_exit, handle_exited, process_exit,
}

-- The execs of a container in a list of processes.
unfoldable pub live : Container → List ContainerProcess → ℕ
live k [] = 0
live k (cp ∷ cps) = (if cp.container == k && not cp.process.is_init then 1 else 0) + live k cps

abbrev pub execs_of : Option ContainerExitState → ℤ
execs_of none = pos 0
execs_of (some s) = s.running_execs

abbrev pub counter : Container → ExitCoordinator → ℤ
counter k c = execs_of (c.containers k)

-- The counter of each container is the number of its execs that the registry holds as running.
abbrev pub IsBalanced : ExitTracker → Type 0
IsBalanced t = (k : Container) → counter k t.coordinator ≡ pos (live k t.running)

pub live-append :
    (k : Container) (xs ys : List ContainerProcess) → live k (xs ++ ys) ≡ live k xs + live k ys
unfolding live
live-append k [] ys = omega arith
live-append k (x ∷ xs) ys = ground (arith, live-append k xs ys)

live-select :
    (k : Container) (test : ContainerProcess → Bool) (l : List ContainerProcess)
    → live k l ≡ live k (select (λ cp. not (test cp)) l) + live k (select test l)
unfolding live select
live-select k test [] = refl
live-select k test (x ∷ xs) = ground (arith, live-select k test xs)

pub counter-increment :
    (j k : Container) (c : ExitCoordinator) (n : ℕ)
    → counter k c ≡ pos n
    → counter k (increment_exec_count j c) ≡ pos (if k == j then suc n else n)
unfolding increment_exec_count ◌+ℤ◌
counter-increment j k c n h = ground arith

counter-stash :
    (j k : Container) (e : Exit) (c : ExitCoordinator)
    → counter k (stash_init_exit j e c) ≡ counter k c
unfolding stash_init_exit
counter-stash j k e c = ground arith

counter-delay :
    (j k : Container) (c : ExitCoordinator) → counter k (should_delay_init_exit j c).0 ≡ counter k c
unfolding should_delay_init_exit
counter-delay j k c = ground arith

counter-notify :
    (j k : Container) (c : ExitCoordinator) (n : ℕ)
    → counter k c ≡ pos (if j == k then suc n else n)
    → counter k (notify_exec_exit j c) ≡ pos n
unfolding notify_exec_exit ◌-ℤ◌
counter-notify j k c n h = ground arith

counter-stash_all :
    (k : Container) (e : Exit) (cps : List ContainerProcess) (c : ExitCoordinator)
    → counter k (stash_all e cps c) ≡ counter k c
unfolding stash_all
counter-stash_all k e [] c = refl
counter-stash_all k e (cp ∷ cps) c =
    let c' = if cp.process.is_init then stash_init_exit cp.container e c else c in
    ground (arith, counter-stash_all k e cps c', counter-stash cp.container k e c)

abbrev pub coordinator_of : Service → ExitCoordinator
coordinator_of s = s.tracker.coordinator

pub counter-handle_process_exit :
    (e : Exit) (j : Container) (p : Process) (s : Service) (k : Container) (n : ℕ)
    → counter k (coordinator_of s) ≡ pos ((if j == k && not p.is_init then 1 else 0) + n)
    → (counter k (coordinator_of (handle_process_exit e j p s)) ≡ pos n)
      × ((handle_process_exit e j p s).tracker.running ≡ s.tracker.running)
unfolding handle_process_exit
counter-handle_process_exit e j p s k n h = ground (arith, counter-notify j k (coordinator_of s) n)

counter-handle_init_exit :
    (e : Exit) (j : Container) (p : Process) (s : Service) (k : Container) (n : ℕ)
    → p.is_init ≡ true
    → counter k (coordinator_of s) ≡ pos n
    → (counter k (coordinator_of (handle_init_exit e j p s)) ≡ pos n)
      × ((handle_init_exit e j p s).tracker.running ≡ s.tracker.running)
unfolding handle_init_exit
counter-handle_init_exit e j p s k n i h =
    let c = (should_delay_init_exit j (coordinator_of s)).0 in
    ground (
      arith,
      counter-delay j k (coordinator_of s),
      counter-handle_process_exit e j p (with_coordinator c s) k n,
    )

counter-handle_exited :
    (e : Exit) (cps : List ContainerProcess) (s : Service) (k : Container) (n : ℕ)
    → counter k (coordinator_of s) ≡ pos (live k cps + n)
    → (counter k (coordinator_of (handle_exited e cps s)) ≡ pos n)
      × ((handle_exited e cps s).tracker.running ≡ s.tracker.running)
unfolding handle_exited live
counter-handle_exited e [] s k n h = (ground arith, refl)
counter-handle_exited e (cp ∷ cps) s k n h =
    let s₁ = handle_init_exit e cp.container cp.process s in
    let s₂ = handle_process_exit e cp.container cp.process s in
    let m = live k cps + n in
    ground (
      arith,
      counter-handle_init_exit e cp.container cp.process s k m,
      counter-handle_process_exit e cp.container cp.process s k m,
      counter-handle_exited e cps s₁ k n,
      counter-handle_exited e cps s₂ k n,
    )

-- Handling an exit keeps the counters equal to the numbers of running execs, whatever the
-- exit's PID is reused for, inits and execs of any containers among them.
pub process_exit-IsBalanced :
    (e : Exit) (s : Service) → IsBalanced s.tracker → IsBalanced (process_exit e s).tracker
unfolding process_exit notify_exit
process_exit-IsBalanced e s b = λ k.
    let (t, cps) = notify_exit e s.tracker in
    let l = live-select k (λ cp. cp.pid == e.pid) s.tracker.running in
    let c = counter-stash_all k e cps (coordinator_of s) in
    let h : counter k t.coordinator ≡ pos (live k cps + live k t.running) =
      ground (arith, b k, c, l) in
    let (same, kept) =
      counter-handle_exited e cps (record s { tracker = t }) k (live k t.running) h in
    same ∙ ap (λ r. pos (live k r)) (sym kept)
