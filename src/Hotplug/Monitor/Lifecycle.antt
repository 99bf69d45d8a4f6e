-- ===== src/Hotplug/Monitor/Lifecycle.antt =====
-- `Start`, `Stop` and the end of `monitorLoop` of internal/shim/hotplug/monitor.go: the mutex makes
-- each critical section one step. Closing a nil or closed channel panics: `none`.
use mathlib.Core.Path.{subst}
use spinbox.Common.{
  ℕ, zero, suc, ◌+◌, ◌≤◌, Bool, true, false, not, ◌||◌, Option, none, some, List, [], ◌∷◌, ◌≡◌,
  refl, arith, if◌then◌else◌,
}

pub data Channel : Type 0 where
  nil open_ch closed : Channel

pub record Lifecycle : Type 0 where
  pub stop_ch : Channel
  pub stopped_ch : Channel
  pub started : Bool
  -- The goroutines that run `monitorLoop`.
  pub loops : ℕ

abbrev pub new_lifecycle : Lifecycle
new_lifecycle = record { stop_ch = nil; stopped_ch = nil; started = false; loops = 0 }

unfoldable pub close : Channel → Option Channel
close open_ch = some closed
close nil = none
close closed = none

unfoldable pub start : Lifecycle → Lifecycle
start l =
    if l.started
    then l
    else record { stop_ch = open_ch; stopped_ch = open_ch; started = true; loops = l.loops + 1 }

abbrev is_nil : Channel → Bool
is_nil nil = true
is_nil open_ch = false
is_nil closed = false

abbrev is_closed : Channel → Bool
is_closed closed = true
is_closed nil = false
is_closed open_ch = false

-- `Stop` up to its wait for `stoppedCh`.
unfoldable pub stop : Lifecycle → Option Lifecycle
unfolding close
stop l =
    if not l.started || is_nil l.stop_ch
    then some l
    else if is_closed l.stop_ch
    then some l
    else elim (close l.stop_ch) [ none ↦ none | some ch ↦ some (record l { stop_ch = ch }) ]

-- A loop sees `stopCh` closed, or its context done, and returns: the deferred close runs.
unfoldable pub end_loop : Bool → Lifecycle → Option Lifecycle
unfolding close
end_loop done l = elim l.loops [
  | zero ↦ some l
  | suc n ↦
      if is_closed l.stop_ch || done
      then elim (close l.stopped_ch) [
        | none ↦ none
        | some ch ↦ some (record l { stopped_ch = ch; loops = n })
      ]
      else some l
]

pub data Action : Type 0 where
  start_action stop_action : Action
  -- A running loop polls, with its context done or not.
  poll_action : Bool → Action

unfoldable pub act : Action → Lifecycle → Option Lifecycle
unfolding start stop end_loop
act start_action l = some (start l)
act stop_action l = stop l
act (poll_action done) l = end_loop done l

unfoldable pub run_actions : List Action → Lifecycle → Option Lifecycle
run_actions [] l = some l
run_actions (a ∷ acts) l = elim (act a l) [ none ↦ none | some l' ↦ run_actions acts l' ]

pub record IsSound (l : Lifecycle) : Type 0 where
  pub idle : l.started ≡ false → (l.stop_ch ≡ nil) × (l.stopped_ch ≡ nil) × (l.loops ≡ 0)
  pub opened : l.started ≡ true → is_nil l.stop_ch ≡ false
  pub running : l.started ≡ true → is_closed l.stopped_ch ≡ false → l.loops ≡ 1
  pub ended : l.started ≡ true → is_closed l.stopped_ch ≡ true → l.loops ≡ 0
  pub stopped_opened : l.started ≡ true → is_nil l.stopped_ch ≡ false

-- No panic, and a sound lifecycle.
abbrev pub IsFine : Option Lifecycle → Type 0
IsFine none = ⊥
IsFine (some l) = IsSound l

IsFine-cases : (o : Option Lifecycle) → IsFine o → (l : Lifecycle) × (o ≡ some l) × IsSound l
IsFine-cases none h = absurd h
IsFine-cases (some l) h = (l, refl, h)

start-IsSound : (l : Lifecycle) → IsSound l → IsSound (start l)
unfolding start
start-IsSound l s = ground arith

stop-IsFine : (l : Lifecycle) → IsSound l → IsFine (stop l)
unfolding stop
stop-IsFine l s = ground arith

end_loop-IsFine : (done : Bool) (l : Lifecycle) → IsSound l → IsFine (end_loop done l)
unfolding end_loop
end_loop-IsFine done l s = ground arith

act-IsFine : (a : Action) (l : Lifecycle) → IsSound l → IsFine (act a l)
unfolding act
act-IsFine start_action l s = start-IsSound l s
act-IsFine stop_action l s = stop-IsFine l s
act-IsFine (poll_action done) l s = end_loop-IsFine done l s

abbrev then_run : List Action → Option Lifecycle → Option Lifecycle
then_run acts none = none
then_run acts (some l) = run_actions acts l

run_actions-IsFine :
    (acts : List Action) (o : Option Lifecycle) → IsFine o → IsFine (then_run acts o)
unfolding run_actions
run_actions-IsFine acts none h = h
run_actions-IsFine [] (some l) h = h
run_actions-IsFine (a ∷ acts) (some l) h = run_actions-IsFine acts (act a l) (act-IsFine a l h)

-- Whatever the order of starts, stops and polls, no channel is closed twice or before it is
-- made, and at most one loop runs.
pub one_loop :
    (acts : List Action)
    → (l : Lifecycle) × (run_actions acts new_lifecycle ≡ some l) × (l.loops ≤ 1)
one_loop acts =
    let o = run_actions acts new_lifecycle in
    let (l, e, s) = IsFine-cases o (run_actions-IsFine acts (some new_lifecycle) (ground arith)) in
    (l, e, ground arith)

-- Stopped, with no loop left.
abbrev pub HasEnded : Option Lifecycle → Type 0
HasEnded none = ⊥
HasEnded (some l) = (l.started ≡ true) × (l.stop_ch ≡ closed) × (l.loops ≡ 0)

act-HasEnded : (a : Action) (l : Lifecycle) → HasEnded (some l) → HasEnded (act a l)
unfolding act
act-HasEnded start_action l h = ground arith
act-HasEnded stop_action l h = ground arith
act-HasEnded (poll_action done) l h = ground arith

run_actions-HasEnded :
    (acts : List Action) (o : Option Lifecycle) → HasEnded o → HasEnded (then_run acts o)
unfolding run_actions
run_actions-HasEnded acts none h = h
run_actions-HasEnded [] (some l) h = h
run_actions-HasEnded (a ∷ acts) (some l) h =
    run_actions-HasEnded acts (act a l) (act-HasEnded a l h)

stop-closed :
    (l : Lifecycle) → IsSound l → l.started ≡ true → stop l ≡ some (record l { stop_ch = closed })
unfolding stop
stop-closed l s h = ground arith

act-poll-HasEnded :
    (l : Lifecycle) (done : Bool)
    → IsSound l
    → l.started ≡ true
    → HasEnded (act (poll_action done) (record l { stop_ch = closed }))
unfolding act
act-poll-HasEnded l done s h = ground arith

-- Once a started monitor has been stopped, the first poll ends its loop, and no later start,
-- stop or poll makes it run again.
pub stop_is_final :
    (before after : List Action) (l : Lifecycle) (done : Bool)
    → run_actions before new_lifecycle ≡ some l
    → l.started ≡ true
    → (l' : Lifecycle) × (stop l ≡ some l') × HasEnded (run_actions (poll_action done ∷ after) l')
unfolding act run_actions
stop_is_final before after l done e h =
    let fine = run_actions-IsFine before (some new_lifecycle) (ground arith) in
    let s : IsSound l = subst IsFine e fine in
    let stopped = record l { stop_ch = closed } in
    (
      stopped,
      stop-closed l s h,
      run_actions-HasEnded after (act (poll_action done) stopped) (act-poll-HasEnded l done s h),
    )
