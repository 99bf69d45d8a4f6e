-- ===== src/Process.antt =====
-- internal/guest/vminit/process: the state machines of state.go, and what their operations do to the
-- state of a process in init.go and exec.go. The OCI runtime, consoles and the kernel are the
-- answers that an operation gets. No value of `State` but the four constants is ever stored, so the
-- `default` cases are not reached.
pub mod Order
pub mod Exit
mod Tests
use spinbox.Common.{
  ℕ, Bool, true, false, not, ◌&&◌, ◌||◌, Option, none, some, List, [], ◌∷◌, ◌==◌ as nat_beq,
  if◌then◌else◌,
}

pub data State : Type 0 where
  created running stopped deleted : State

abbrev pub to_int : State → ℕ
to_int created = 0
to_int running = 1
to_int stopped = 2
to_int deleted = 3

infix 50 ◌==◌
abbrev pub ◌==◌ : State → State → Bool
s == t = nat_beq (to_int s) (to_int t)

abbrev pub valid_transitions : State → List State
valid_transitions created = running ∷ stopped ∷ deleted ∷ []
valid_transitions running = stopped ∷ []
valid_transitions stopped = deleted ∷ []
valid_transitions deleted = []

unfoldable pub any_is : State → List State → Bool
any_is to [] = false
any_is to (valid ∷ others) = valid == to || any_is to others

unfoldable pub can_transition : State → State → Bool
unfolding any_is
can_transition from to = any_is to (valid_transitions from)

-- An `Init` or an `execProcess` with its machine: `wait_closed` tells whether `waitBlock` has been
-- closed, `panicked` whether it was closed once more.
pub record Process : Type 0 where
  pub current_state : State
  pub pid : ℕ
  pub status : ℕ
  pub exited : Option ℕ
  pub wait_closed : Bool
  pub panicked : Bool

unfoldable pub new_process : ℕ → Process
new_process pid = record {
  current_state = created;
  pid = pid;
  status = 0;
  exited = none;
  wait_closed = false;
  panicked = false;
}

pub data Error : Type 0 where
  invalid_transition : State → State → Error
  cannot : State → Error
  failed : Error

unfoldable pub transition : State → Process → Process × Option Error
unfolding can_transition
transition to p =
    if can_transition p.current_state to
    then (record p { current_state = to }, none)
    else (p, some (invalid_transition p.current_state to))

abbrev pub close_wait : Process → Process
close_wait p =
    if p.wait_closed then record p { panicked = true } else record p { wait_closed = true }

-- What a start meets: the runtime is there, the I/O or the socket is set up, the runtime runs the
-- command, the I/O or the console is copied, and the PID file holds a PID.
pub record Attempt : Type 0 where
  pub initialized : Bool
  pub prepared : Bool
  pub executed : Bool
  pub copied : Bool
  pub pid_read : Option ℕ

-- `Init.start`.
unfoldable pub init_start : Attempt → Process → Process × Bool
init_start a p = (p, a.initialized && a.executed)

abbrev pub put_pid : Option ℕ → Process → Process × Bool
put_pid none p = (p, false)
put_pid (some pid) p = (record p { pid = pid }, true)

-- `execProcess.start`.
unfoldable pub exec_start : Attempt → Process → Process × Bool
exec_start a p =
    if not a.initialized || not a.prepared
    then (p, false)
    else if not a.executed
    then (close_wait p, false)
    else if not a.copied
    then (p, false)
    else put_pid a.pid_read p

-- `Init.setExited` and `execProcess.setExited`.
unfoldable pub record_exit : ℕ → ℕ → Process → Process
record_exit status now p = close_wait (record p { status = status; exited = some now })

abbrev pub then_transition : State → Process × Bool → Process × Option Error
then_transition to (p, true) = transition to p
then_transition to (p, false) = (p, some failed)

-- `Start`, with the action of the process.
unfoldable pub start : (Process → Process × Bool) → Process → Process × Option Error
unfolding transition
start action p = elim p.current_state [
  | created ↦ then_transition running (action p)
  | running ↦ (p, some (cannot running))
  | stopped ↦ (p, some (cannot stopped))
  | deleted ↦ (p, some (cannot deleted))
]

-- `Delete`; the flag tells whether the process's own `delete` succeeds.
unfoldable pub delete : Bool → Process → Process × Option Error
unfolding transition
delete success p = elim p.current_state [
  | created ↦ then_transition deleted (p, success)
  | running ↦ (p, some (cannot running))
  | stopped ↦ then_transition deleted (p, success)
  | deleted ↦ (p, some (cannot deleted))
]

abbrev pub error_unless : Bool → Option Error
error_unless success = if success then none else some failed

unfoldable pub kill : Bool → Process → Option Error
kill success p = if p.current_state == deleted then some (cannot deleted) else error_unless success

-- `execProcess.kill`: whether it succeeds.
unfoldable pub exec_kill : Bool → Process → Bool
exec_kill delivered p =
    if nat_beq p.pid 0 then false else elim p.exited [ none ↦ delivered | some t ↦ false ]

-- `Exec`, `Update` and `Resize` have the same cases.
unfoldable pub while_alive : Bool → Process → Option Error
while_alive success p = elim p.current_state [
  | created ↦ error_unless success
  | running ↦ error_unless success
  | stopped ↦ some (cannot stopped)
  | deleted ↦ some (cannot deleted)
]

abbrev pub or_force : Process × Option Error → Process
or_force (p, none) = p
or_force (p, some e) = record p { current_state = stopped }

unfoldable pub set_exited : ℕ → ℕ → Process → Process
unfolding record_exit transition
set_exited status now p = elim p.current_state [
  | created ↦ or_force (transition stopped (record_exit status now p))
  | running ↦ or_force (transition stopped (record_exit status now p))
  | stopped ↦ p
  | deleted ↦ p
]

-- `initStateMachine` and `execStateMachine` have the same cases and differ in the actions.
unfoldable pub init_machine_start : Attempt → Process → Process × Option Error
unfolding start init_start
init_machine_start a p = start (init_start a) p

unfoldable pub exec_machine_start : Attempt → Process → Process × Option Error
unfolding start exec_start
exec_machine_start a p = start (exec_start a) p

-- `execProcess.delete` does not fail.
unfoldable pub exec_machine_delete : Process → Process × Option Error
unfolding delete
exec_machine_delete p = delete true p

unfoldable pub exec_machine_kill : Bool → Process → Option Error
unfolding kill exec_kill
exec_machine_kill delivered p = kill (exec_kill delivered p) p

unfoldable pub exec_machine_set_exited : ℕ → ℕ → Process → Process
unfolding set_exited
exec_machine_set_exited status now p = set_exited status now p

-- The calls that change a process, of an init or of an exec.
pub data Call : Type 0 where
  start_init : Attempt → Call
  start_exec : Attempt → Call
  delete_init : Bool → Call
  delete_exec : Call
  exit_init : ℕ → ℕ → Call
  exit_exec : ℕ → ℕ → Call

unfoldable pub call : Call → Process → Process × Option Error
unfolding init_machine_start exec_machine_start delete exec_machine_delete set_exited
    exec_machine_set_exited
call (start_init a) p = init_machine_start a p
call (start_exec a) p = exec_machine_start a p
call (delete_init success) p = delete success p
call delete_exec p = exec_machine_delete p
call (exit_init status now) p = (set_exited status now p, none)
call (exit_exec status now) p = (exec_machine_set_exited status now p, none)

unfoldable pub run : List Call → Process → Process
unfolding call
run [] p = p
run (c ∷ cs) p = run cs (call c p).0
