-- ===== src/Task/ExitTracker/EarlyExits.antt =====
-- The early exits of internal/guest/vminit/task/exit_tracker.go: what a subscription collects.
use mathlib.Core.List.{append-nil, append_assoc}
use spinbox.Common.{
  ℕ, ◌+◌, ◌%◌, ◌^◌, Bool, true, false, not, ◌&&◌, List, [], ◌∷◌, ◌++◌, map, ◌≡◌, refl, sym, ◌∙◌,
  arith, ◌==◌, if◌then◌else◌,
}
use spinbox.Task.ExitTracker.{
  Exit, Subscription, EarlyExitDetector, ContainerProcess, ExitTracker, collect, unregister,
  exits_of, detector_subscribe, detector_notify_exit, detector_remove, complete, notify_exit,
  handle_start_during, select, remove_by_pid,
}

-- The exits of one PID among those that were delivered.
unfoldable pub of_pid : ℕ → List Exit → List Exit
of_pid pid [] = []
of_pid pid (e ∷ es) = if pid == e.pid then e ∷ of_pid pid es else of_pid pid es

-- Exits that are delivered one after the other.
unfoldable pub deliver : List Exit → EarlyExitDetector → EarlyExitDetector
deliver [] d = d
deliver (e ∷ es) d = deliver es (detector_notify_exit e d)

-- Whether the newest subscription with an identity is still in the detector's map.
unfoldable pub is_registered : ℕ → List Subscription → Bool
is_registered id [] = false
is_registered id (s ∷ ss) = if s.id == id then s.registered else is_registered id ss

exits_of-collect :
    (id pid : ℕ) (e : Exit) (ss : List Subscription)
    → exits_of id pid (map (collect e) ss) ≡ (
        if is_registered id ss && pid == e.pid
        then exits_of id pid ss ++ e ∷ []
        else exits_of id pid ss)
unfolding exits_of collect is_registered
exits_of-collect id pid e [] = refl
exits_of-collect id pid e (s ∷ ss) = ground (arith, exits_of-collect id pid e ss)

is_registered-collect :
    (id : ℕ) (e : Exit) (ss : List Subscription)
    → is_registered id (map (collect e) ss) ≡ is_registered id ss
unfolding collect is_registered
is_registered-collect id e [] = refl
is_registered-collect id e (s ∷ ss) = ground (arith, is_registered-collect id e ss)

pub exits_of-unregister :
    (id j pid : ℕ) (ss : List Subscription)
    → exits_of id pid (map (unregister j) ss) ≡ exits_of id pid ss
unfolding exits_of unregister
exits_of-unregister id j pid [] = refl
exits_of-unregister id j pid (s ∷ ss) = ground (arith, exits_of-unregister id j pid ss)

exits_of-deliver :
    (id pid : ℕ) (es : List Exit) (d : EarlyExitDetector)
    → is_registered id d.subscriptions ≡ true
    → exits_of id pid (deliver es d).subscriptions
      ≡ exits_of id pid d.subscriptions ++ of_pid pid es
unfolding deliver detector_notify_exit of_pid
exits_of-deliver id pid [] d h = sym (append-nil (exits_of id pid d.subscriptions))
exits_of-deliver id pid (e ∷ es) d h = ground (
  arith,
  exits_of-deliver id pid es (detector_notify_exit e d),
  exits_of-collect id pid e d.subscriptions,
  is_registered-collect id e d.subscriptions,
  append_assoc (exits_of id pid d.subscriptions) (e ∷ []) (of_pid pid es),
)

deliver_new :
    (id pid : ℕ) (es : List Exit) (ss : List Subscription)
    → let d : EarlyExitDetector = record {
      next_sub_id = id;
      subscriptions = record { id = id; registered = true; exits = λ pid. [] } ∷ ss;
    } in
      exits_of id pid (deliver es d).subscriptions ≡ of_pid pid es
deliver_new id pid es ss =
    let d : EarlyExitDetector = record {
      next_sub_id = id;
      subscriptions = record { id = id; registered = true; exits = λ pid. [] } ∷ ss;
    } in
    unfold exits_of is_registered in ground (arith, exits_of-deliver id pid es d)

-- A subscription that is completed gets exactly the exits of its PID that were delivered since
-- it was made, in their order, however many other exits came in between.
pub complete-deliver :
    (d : EarlyExitDetector) (es : List Exit) (pid : ℕ)
    → let (d', id) = detector_subscribe d in (complete id pid (deliver es d')).1 ≡ of_pid pid es
unfolding complete detector_remove detector_subscribe
complete-deliver d es pid =
    let id = (d.next_sub_id + 1) % 2 ^ 64 in
    rw (exits_of-unregister id id pid) (deliver_new id pid es d.subscriptions)

select-append :
    (test : ContainerProcess → Bool) (xs ys : List ContainerProcess)
    → select test (xs ++ ys) ≡ select test xs ++ select test ys
unfolding select
select-append test [] ys = refl
select-append test (x ∷ xs) ys = ground (arith, select-append test xs ys)

select_excluded :
    (pid : ℕ) (l : List ContainerProcess)
    → select (λ cp. cp.pid == pid) (select (λ cp. not (cp.pid == pid)) l) ≡ []
unfolding select
select_excluded pid [] = refl
select_excluded pid (x ∷ xs) = ground (arith, select_excluded pid xs)

select_single : (cp : ContainerProcess) → select (λ x. x.pid == cp.pid) (cp ∷ []) ≡ cp ∷ []
unfolding select
select_single cp = ground arith

select-register :
    (cp : ContainerProcess) (l : List ContainerProcess)
    → select (λ x. x.pid == cp.pid) (select (λ x. not (x.pid == cp.pid)) l ++ cp ∷ []) ≡ cp ∷ []
select-register cp l = rw (
  select-append (λ x. x.pid == cp.pid) (select (λ x. not (x.pid == cp.pid)) l) (cp ∷ []),
  select_excluded cp.pid l,
  select_single cp,
)

-- Between the completion of the subscription and the registration of the process an exit is
-- lost: no running process is found for it, the subscription has missed it, and afterwards
-- the process is registered as running.
pub exit_lost_during_start :
    (t : ExitTracker) (id : ℕ) (cp : ContainerProcess) (e : Exit)
    → e.pid ≡ cp.pid
    → (cp.pid == 0) ≡ false
    → (remove_by_pid cp.pid t.running).1 ≡ []
    → exits_of id cp.pid t.detector.subscriptions ≡ []
    → let d = detector_remove id t.detector in
      let (t', early) = handle_start_during (λ t. (notify_exit e t).0) id cp t in
      ((notify_exit e (record t { detector = d })).1 ≡ [])
      × (early ≡ [])
      × ((remove_by_pid cp.pid t'.running).1 ≡ cp ∷ [])
unfolding handle_start_during notify_exit
exit_lost_during_start t id cp e p z none_running none_seen =
    let seen = exits_of-unregister id id cp.pid t.detector.subscriptions ∙ none_seen in
    rw (p, seen, z) (none_running, refl, select-register cp t.running)
