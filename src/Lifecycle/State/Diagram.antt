-- ===== src/Lifecycle/State/Diagram.antt =====
-- The transition diagram of internal/shim/lifecycle/state.go as a relation, and the methods
-- against its edges.
use spinbox.Common.{true, false, Option, none, some, ◌≡◌, ◌⊎◌, List, [], ◌∷◌, arith, All}
use spinbox.Lifecycle.State.{
  ShimState, idle, creating, created, running, shutting_down, deleting, StateMachine, Call,
  transition_call, start_creating_call, start_deleting_call, mark_created_call, mark_started_call,
  mark_creation_failed_call, IsUnforced, call, run,
}

infix 40 ◌⟶◌
pub data ◌⟶◌ : ShimState → ShimState → Type 0 where
  begin : idle ⟶ creating
  finish : creating ⟶ created
  fail : creating ⟶ idle
  start : created ⟶ running
  delete_started : running ⟶ deleting
  delete_unstarted : created ⟶ deleting
  shut_down : {s : ShimState} → s ⟶ shutting_down

ruleset edges = (begin, finish, fail, start, delete_started, delete_unstarted, shut_down)

-- The state that a call which is not forced asks for; `SetIntentionalShutdown` asks for none.
abbrev pub target : Call → Option ShimState
target (transition_call old new) = some new
target start_creating_call = some creating
target start_deleting_call = some deleting
target mark_created_call = some created
target mark_started_call = some running
target mark_creation_failed_call = some idle
target _ = none

abbrev pub IsReached : Option ShimState → ShimState → ShimState → Type 0
IsReached none s t = t ≡ s
IsReached (some goal) s t = (t ≡ goal) × (s ⟶ t)

-- A call that is not forced either fails and leaves the whole machine as it was, or succeeds: then it
-- takes the state along an edge to the state that the call asks for, and if it is
-- `SetIntentionalShutdown`, which asks for none, the state is the same as before.
pub call-⟶ :
    (c : Call) (sm : StateMachine)
    → IsUnforced c
    → ((call c sm).1 ≡ false) × ((call c sm).0 ≡ sm)
      ⊎ ((call c sm).1 ≡ true) × IsReached (target c) sm.state (call c sm).0.state
unfolding call
call-⟶ c sm u = grind (arith, edges)

-- Each edge of the diagram is taken by some call that is not forced, from any machine in its
-- source state.
pub ⟶-call :
    (sm : StateMachine) {s t : ShimState}
    → s ⟶ t
    → sm.state ≡ s
    → (c : Call) × IsUnforced c × ((call c sm).1 ≡ true) × ((call c sm).0.state ≡ t)
unfolding call
⟶-call sm begin e = (start_creating_call, tt, ground arith, ground arith)
⟶-call sm finish e = (mark_created_call, tt, ground arith, ground arith)
⟶-call sm fail e = (mark_creation_failed_call, tt, ground arith, ground arith)
⟶-call sm start e = (mark_started_call, tt, ground arith, ground arith)
⟶-call sm delete_started e = (start_deleting_call, tt, ground arith, ground arith)
⟶-call sm delete_unstarted e = (start_deleting_call, tt, ground arith, ground arith)
⟶-call sm (shut_down {s}) e = (transition_call s shutting_down, tt, ground arith, ground arith)

call_shutting_down :
    (c : Call) (sm : StateMachine)
    → IsUnforced c
    → sm.state ≡ shutting_down
    → (call c sm).0.state ≡ shutting_down
unfolding call
call_shutting_down c sm u e = ground arith

-- After a shutdown has begun no sequence of calls that are not forced leaves that state.
pub run_shutting_down :
    (cs : List Call) (sm : StateMachine)
    → All IsUnforced cs
    → sm.state ≡ shutting_down
    → (run cs sm).state ≡ shutting_down
unfolding run
run_shutting_down [] sm u e = e
run_shutting_down (c ∷ cs) sm u e =
    run_shutting_down cs (call c sm).0 u.1 (call_shutting_down c sm u.0 e)
