-- ===== src/Lifecycle/State/Exclusion.antt =====
-- One creation at a time: `TryStartCreating` as a lock, over any interleaving of calls.
use spinbox.Common.{ℕ, ◌+◌, ◌≤◌, Bool, true, false, ◌&&◌, not, List, [], ◌∷◌, arith, if◌then◌else◌}
use spinbox.Lifecycle.State.{
  idle, creating, StateMachine, ◌==◌, Call, transition_call, start_creating_call, call, run,
}

-- Whether a call asks to begin a creation.
abbrev pub begins : Call → Bool
begins start_creating_call = true
begins (transition_call from to) = from == idle && to == creating
begins _ = false

abbrev pub one_if : Bool → ℕ
one_if b = if b then 1 else 0

-- How many of the calls were told that they may create.
unfoldable pub grants : List Call → StateMachine → ℕ
grants [] sm = 0
grants (c ∷ cs) sm = one_if (begins c && (call c sm).1) + grants cs (call c sm).0

-- How many of the calls brought the machine back to idle.
unfoldable pub returns : List Call → StateMachine → ℕ
returns [] sm = 0
returns (c ∷ cs) sm =
    one_if (not (sm.state == idle) && (call c sm).0.state == idle) + returns cs (call c sm).0

grant_step :
    (c : Call) (sm : StateMachine)
    → one_if (begins c && (call c sm).1) + one_if ((call c sm).0.state == idle)
      ≤ one_if (not (sm.state == idle) && (call c sm).0.state == idle) + one_if (sm.state == idle)
unfolding call
grant_step c sm = ground arith

-- Over any interleaving of calls, forced ones included, the creations granted exceed the
-- returns to idle by at most one, and by none if the machine was not idle at first: while one
-- creation runs, no other begins.
pub grants-le-returns :
    (cs : List Call) (sm : StateMachine)
    → grants cs sm + one_if ((run cs sm).state == idle) ≤ returns cs sm + one_if (sm.state == idle)
unfolding grants returns run
grants-le-returns [] sm = omega arith
grants-le-returns (c ∷ cs) sm = omega (arith, grant_step c sm, grants-le-returns cs (call c sm).0)
