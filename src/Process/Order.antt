-- ===== src/Process/Order.antt =====
-- The transitions of internal/guest/vminit/process/state.go.
use mathlib.Core.Bool.{true≢false}
use spinbox.Common.{
  ◌≤◌, Bool, true, false, Option, none, some, List, [], ◌∷◌, ◌≡◌, ◌≢◌, ◌⊎◌, sym, ap, ◌∙◌, arith,
}
use spinbox.Process.{
  State, to_int, can_transition, Process, Error, invalid_transition, cannot, failed, Call, call,
  run, start_init, start_exec, delete_init, delete_exec, exit_init, exit_exec,
}

-- Every call leaves the state as it is or makes a transition of the table, also where an exit would
-- force the state.
pub call-can_transition :
    (c : Call) (p : Process)
    → let s = (call c p).0.current_state in
      (s ≡ p.current_state) ⊎ (can_transition p.current_state s ≡ true)
unfolding call
call-can_transition (start_init a) p = ground arith
call-can_transition (start_exec a) p = ground arith
call-can_transition (delete_init success) p = ground arith
call-can_transition delete_exec p = ground arith
call-can_transition (exit_init status now) p = ground arith
call-can_transition (exit_exec status now) p = ground arith

can_transition-lt : (s t : State) → can_transition s t ≡ true → to_int s ≤ to_int t
unfolding can_transition
can_transition-lt s t h = ground arith

-- No sequence of calls takes a process back: a stopped process does not run again, and a deleted
-- one stays deleted.
pub run-to_int :
    (cs : List Call) (p : Process) → to_int p.current_state ≤ to_int (run cs p).current_state
unfolding run
run-to_int [] p = omega arith
run-to_int (c ∷ cs) p =
    let q = (call c p).0 in
    ground (
      arith,
      call-can_transition c p,
      can_transition-lt p.current_state q.current_state,
      run-to_int cs q,
    )

abbrev is_refusal : Option Error → Bool
is_refusal none = false
is_refusal (some (invalid_transition s t)) = true
is_refusal (some (cannot s)) = false
is_refusal (some failed) = false

never_refused : (c : Call) (p : Process) → is_refusal (call c p).1 ≡ false
unfolding call
never_refused (start_init a) p = ground arith
never_refused (start_exec a) p = ground arith
never_refused (delete_init success) p = ground arith
never_refused delete_exec p = ground arith
never_refused (exit_init status now) p = ground arith
never_refused (exit_exec status now) p = ground arith

-- The table never refuses the transition that a call asks for.
pub call-invalid_transition :
    (c : Call) (p : Process) (s t : State) → (call c p).1 ≢ some (invalid_transition s t)
call-invalid_transition c p s t h = true≢false (sym (ap is_refusal h) ∙ never_refused c p)
