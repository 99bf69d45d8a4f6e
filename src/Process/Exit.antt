-- ===== src/Process/Exit.antt =====
-- The record of an exit in internal/guest/vminit/process: init.go, exec.go and state.go.
use spinbox.Common.{
  ℕ, Bool, true, false, Option, none, some, List, [], ◌∷◌, ◌≡◌, ◌≢◌, refl, arith, All,
}
use spinbox.Process.{
  State, created, running, stopped, deleted, Process, new_process, transition, start, set_exited,
  exec_start, record_exit, Attempt, Call, call, run, start_init, start_exec, delete_init,
  delete_exec, exit_init, exit_exec,
}

abbrev pub has_exited : Option ℕ → Bool
has_exited none = false
has_exited (some t) = true

abbrev pub is_live : State → Bool
is_live created = true
is_live running = true
is_live stopped = false
is_live deleted = false

-- Nothing has panicked, the channel is closed exactly if an exit is recorded, a created or running
-- process has none and a stopped one has.
abbrev pub IsRecorded : Process → Type 0
IsRecorded p =
    (p.panicked ≡ false)
    × (p.wait_closed ≡ has_exited p.exited)
    × (is_live p.current_state ≡ true → p.exited ≡ none)
    × (p.current_state ≡ stopped → p.exited ≢ none)

-- A call that no start of an exec makes in which the runtime fails to run the command.
abbrev pub IsExecuted : Call → Type 0
IsExecuted (start_init a) = Unit
IsExecuted (start_exec a) = a.executed ≡ true
IsExecuted (delete_init success) = Unit
IsExecuted delete_exec = Unit
IsExecuted (exit_init status now) = Unit
IsExecuted (exit_exec status now) = Unit

call-IsRecorded : (c : Call) (p : Process) → IsExecuted c → IsRecorded p → IsRecorded (call c p).0
unfolding call
call-IsRecorded (start_init a) p x h = ground arith
call-IsRecorded (start_exec a) p x h = ground arith
call-IsRecorded (delete_init success) p x h = ground arith
call-IsRecorded delete_exec p x h = ground arith
call-IsRecorded (exit_init status now) p x h = ground arith
call-IsRecorded (exit_exec status now) p x h = ground arith

-- As long as the runtime runs the commands of the execs that are started, no sequence of calls
-- closes a process's channel twice, and it is closed exactly when an exit is recorded.
pub run-IsRecorded :
    (cs : List Call) (p : Process) → All IsExecuted cs → IsRecorded p → IsRecorded (run cs p)
unfolding run
run-IsRecorded [] p x h = h
run-IsRecorded (c ∷ cs) p (x, xs) h = run-IsRecorded cs (call c p).0 xs (call-IsRecorded c p x h)

call-keeps :
    (c : Call) (p : Process)
    → is_live p.current_state ≡ false
    → let q = (call c p).0 in
      (q.status ≡ p.status) × (q.exited ≡ p.exited) × (is_live q.current_state ≡ false)
unfolding call
call-keeps (start_init a) p h = ground arith
call-keeps (start_exec a) p h = ground arith
call-keeps (delete_init success) p h = ground arith
call-keeps delete_exec p h = ground arith
call-keeps (exit_init status now) p h = ground arith
call-keeps (exit_exec status now) p h = ground arith

run-keeps :
    (cs : List Call) (p : Process)
    → is_live p.current_state ≡ false
    → ((run cs p).status ≡ p.status) × ((run cs p).exited ≡ p.exited)
unfolding run
run-keeps [] p h = (refl, refl)
run-keeps (c ∷ cs) p h = ground (arith, call-keeps c p h, run-keeps cs (call c p).0)

-- The first exit of a created or running process is the one that is kept: its status and its time
-- stay through all later calls.
pub run-set_exited :
    (cs : List Call) (status now : ℕ) (p : Process)
    → is_live p.current_state ≡ true
    → let q = run cs (set_exited status now p) in (q.status ≡ status) × (q.exited ≡ some now)
unfolding run call set_exited
run-set_exited cs status now p h = ground (arith, run-keeps cs (set_exited status now p))

-- An exec whose first start fails in the runtime and whose second start succeeds panics when it
-- exits: the failed start has closed the channel and left the machine in its first state.
pub retry_panics :
    (a b : Attempt) (pid status now : ℕ)
    → a.initialized ≡ true
    → a.prepared ≡ true
    → a.executed ≡ false
    → b.initialized ≡ true
    → b.prepared ≡ true
    → b.executed ≡ true
    → b.copied ≡ true
    → b.pid_read ≡ some pid
    → let p = run (start_exec a ∷ start_exec b ∷ []) (new_process 0) in
      (p.current_state ≡ running)
      × (p.panicked ≡ false)
      × ((run (exit_exec status now ∷ []) p).panicked ≡ true)
unfolding run call start exec_start new_process set_exited record_exit transition
retry_panics a b pid status now h₁ h₂ h₃ h₄ h₅ h₆ h₇ h₈ = ground arith
