-- ===== src/Shim/Stream.antt =====
-- The event stream from the guest, internal/shim/task/service.go: the loop of `startEventForwarder`,
-- `reconnectEventStream` and `waitForIOBeforeExit`. What the loop meets is a list of signals, and
-- what a try to reconnect meets is an attempt; durations are nanoseconds. `log` is what the loop
-- does, newest first.
pub mod Forwarding
pub mod Reconnect
use text.Mathlib.Text.{◌==◌ as str_eq}
use spinbox.Common.{
  ℕ, ◌+◌, ◌*◌, ◌/◌, ◌-◌, min, String, Bool, true, false, not, Option, none, some, List, [], ◌∷◌,
  ltb, if◌then◌else◌,
}
use spinbox.Shim.Service.{Service, get_io_forwarder}

abbrev pub millisecond : ℕ
millisecond = 1000000

abbrev pub initial_backoff : ℕ
initial_backoff = 50 * millisecond

abbrev pub max_backoff : ℕ
max_backoff = 500 * millisecond

abbrev pub event_stream_reconnect_timeout : ℕ
event_stream_reconnect_timeout = 2000 * millisecond

-- One round of the loop of `reconnectEventStream`: what the state machine says, the client that the
-- dial gives, whether it can stream, how long this took, and the jitter of the sleep after it.
pub record Attempt : Type 0 where
  pub intentional_shutdown : Bool
  pub dial : Option ℕ
  pub streams : Bool
  pub took : ℕ
  pub jitter : ℕ

pub data Reconnected : Type 0 where
  reconnected : ℕ → Reconnected
  aborted timed_out : Reconnected

-- `sleepWithJitter`: a fifth of the base less, and up to two fifths of jitter.
unfoldable pub sleep_with_jitter : ℕ → ℕ → ℕ
sleep_with_jitter base jitter = base - base / 5 + jitter

-- What follows a round in which the dial has answered: no stream, no client.
abbrev pub streamed : Option ℕ → Bool → Option Reconnected → Option Reconnected
streamed none streams next = next
streamed (some client) streams next = if streams then some (reconnected client) else next

unfoldable pub reconnect_loop : ℕ → ℕ → ℕ → List Attempt → Option Reconnected
unfolding sleep_with_jitter
reconnect_loop deadline backoff now [] = if ltb now deadline then none else some timed_out
reconnect_loop deadline backoff now (a ∷ attempts) =
    let next =
      reconnect_loop deadline (min (backoff * 2) max_backoff)
        (now + a.took + sleep_with_jitter backoff a.jitter) attempts in
    if not (ltb now deadline)
    then some timed_out
    else if a.intentional_shutdown
    then some aborted
    else streamed a.dial a.streams next

unfoldable pub reconnect_event_stream : ℕ → List Attempt → Option Reconnected
unfolding reconnect_loop
reconnect_event_stream now attempts =
    reconnect_loop (now + event_stream_reconnect_timeout) initial_backoff now attempts

-- The envelope of an event; of a `TaskExit` the container and the process.
pub record TaskExit : Type 0 where
  pub container_id : String
  pub id : String

pub record Envelope : Type 0 where
  pub number : ℕ
  pub task_exit : Option TaskExit

-- Whether the stream may come back: the end of the stream, a shutdown, or a connection that ttrpc
-- has closed.
pub data RecvError : Type 0 where
  eof shutdown_error ttrpc_closed other_error : RecvError

abbrev is_closed_stream : RecvError → Bool
is_closed_stream other_error = false
is_closed_stream _ = true

-- What the `select` of the loop picks. With an error comes what the state machine says then, and
-- what a reconnect would return.
pub data Signal : Type 0 where
  vm_exit : Signal
  received : Option Envelope → Signal
  failed : RecvError → Bool → Reconnected → Signal

pub data Act : Type 0 where
  waits_for_io : ℕ → Act
  sends : Envelope → Act
  reconnects : ℕ → Act
  asks_exit : String → Act

-- The exec of an exit; the init's is empty.
unfoldable pub exec_id_of : TaskExit → String
exec_id_of e = if not (str_eq e.id e.container_id) then e.id else ""

-- `waitForIOBeforeExit`: the forwarder that it waits for, at most 30 seconds.
unfoldable pub wait_for_io_before_exit : Service → Option TaskExit → List Act → List Act
unfolding exec_id_of get_io_forwarder
wait_for_io_before_exit s none log = log
wait_for_io_before_exit s (some e) log = elim (get_io_forwarder e.container_id (exec_id_of e) s) [
  | none ↦ log
  | some f ↦ waits_for_io f ∷ log
]

abbrev stream_ended : List Act → List Act × Bool
stream_ended log = (asks_exit "vm event stream closed" ∷ log, true)

abbrev after_reconnect : Reconnected → List Act → List Act × Bool
after_reconnect (reconnected client) log = (reconnects client ∷ log, false)
after_reconnect aborted log = stream_ended log
after_reconnect timed_out log = stream_ended log

-- A round of the loop; the second result is whether the loop returns.
unfoldable pub handle_signal : Service → Signal → List Act → List Act × Bool
unfolding wait_for_io_before_exit
handle_signal s vm_exit log = (asks_exit "vm process exit" ∷ log, true)
handle_signal s (received none) log = (log, false)
handle_signal s (received (some env)) log =
    (sends env ∷ wait_for_io_before_exit s env.task_exit log, false)
handle_signal s (failed e intentional r) log =
    if intentional
    then (log, true)
    else if is_closed_stream e
    then after_reconnect r log
    else stream_ended log

-- The loop over the signals, each with the service as it is then. The second result is whether it
-- has returned.
unfoldable pub forward_stream : List (Service × Signal) → List Act → List Act × Bool
unfolding handle_signal
forward_stream [] log = (log, false)
forward_stream ((s, x) ∷ xs) log =
    let (log', ends) = handle_signal s x log in
    let rest = forward_stream xs log' in if ends then (log', true) else rest
