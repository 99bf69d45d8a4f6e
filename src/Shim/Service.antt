-- ===== src/Shim/Service.antt =====
-- The state of `service` of internal/shim/task/service.go and what its handlers share. A VM, a
-- forwarder, a controller and the cleanup of a set of mounts are numbers; `effects` is what the
-- service has done to the world, newest first. The shutdown of a VM and the cleanup of mounts are
-- told apart by their outcome; of a forwarder and of the network it is the call that is noted. A container always has its I/O, as `finalizeCreate`
-- makes it: the tests for a nil `io` are left out. The events channel is Shim/Events, and the count
-- of RPCs in flight Shim/Rpc.
use text.Mathlib.Text.{◌==◌ as str_eq}
use mathlib.Core.Option
use spinbox.Common.{
  ℕ, String, Bool, false, ◌||◌, Option, none, some, List, [], ◌∷◌, map, if◌then◌else◌,
}
use spinbox.Common.Maps.{lookup, values}
use spinbox.Lifecycle.State.{StateMachine, new_state_machine, is_shutting_down}
use spinbox.Lifecycle.Vm.{Manager, VmError, new_manager}
use spinbox.Shim.Connection
use spinbox.Shim.Connection.{ConnectionManager, new_connection_manager, get_client}

pub data TaskError : Type 0 where
  failed_precondition already_exists not_found invalid_argument : String → TaskError
  not_implemented : TaskError
  client_error : Connection.DialError → TaskError
  vm_error : VmError → TaskError
  failed : ℕ → TaskError

pub data Result (A : Type 0) : Type 0 where
  ok : A → Result A
  err : TaskError → Result A

pub record ExecIo : Type 0 where
  pub stdin : String
  pub stdout : String
  pub stderr : String

pub record ProcessIoState : Type 0 where
  pub host : ExecIo
  pub terminal : Bool
  pub forwarder : ℕ

pub record TaskIo : Type 0 where
  pub init : ProcessIoState
  pub exec : List (String × ProcessIoState)

pub record Container : Type 0 where
  pub pid : ℕ
  pub io : TaskIo
  pub mount_cleanup : Option ℕ

-- The events that the service itself sends.
pub data Event : Type 0 where
  task_delete : String → ℕ → ℕ → Event
  task_paused task_resumed : String → Event

pub data Effect : Type 0 where
  vm_created vm_shut_down vm_paused vm_resumed : ℕ → Effect
  mounts_made mounts_cleaned : ℕ → Effect
  vm_not_shut_down mounts_not_cleaned : ℕ → Effect
  network_made network_released : String → Effect
  network_closed : Effect
  io_made io_started io_shut_down stdin_closed : ℕ → Effect
  cpu_started cpu_stopped memory_started memory_stopped : ℕ → Effect
  sends : Event → Effect
  asks_exit : String → Effect
  exits : Effect

pub record Service : Type 0 where
  pub state_machine : StateMachine
  pub container : Option Container
  pub container_id : String
  pub cpu_hotplug_controllers : List (String × ℕ)
  pub memory_hotplug_controllers : List (String × ℕ)
  pub vm_lifecycle : Manager ℕ
  pub conn_manager : ConnectionManager
  pub events_closed : Bool
  pub shutdown_requested : Bool
  pub exit_begun : Bool
  pub paused : Bool
  pub effects : List Effect

unfoldable pub new_task_service : Service
unfolding new_state_machine new_connection_manager
new_task_service = record {
  state_machine = new_state_machine;
  container = none;
  container_id = "";
  cpu_hotplug_controllers = [];
  memory_hotplug_controllers = [];
  vm_lifecycle = new_manager;
  conn_manager = new_connection_manager;
  events_closed = false;
  shutdown_requested = false;
  exit_begun = false;
  paused = false;
  effects = [];
}

abbrev pub note : Effect → Service → Service
note e s = record s { effects = e ∷ s.effects }

-- `send`, seen from a handler: an event is queued unless the channel is closed (Shim/Events has what
-- happens then).
unfoldable pub send_event : Event → Service → Service
send_event e s = if s.events_closed then s else note (sends e) s

-- `isShuttingDown`, with which `beginRPC` refuses.
unfoldable pub is_closing : Service → Bool
unfolding is_shutting_down
is_closing s = s.shutdown_requested || is_shutting_down s.state_machine

abbrev pub closing_error : TaskError
closing_error = failed_precondition "shim is shutting down"

-- A handler that `beginRPC(false)` admits.
abbrev pub admitted : {A : Type 0} → (Service → Service × Result A) → Service → Service × Result A
admitted f s = if is_closing s then (s, err closing_error) else f s

-- `getTaskClient`, with what a dial answers; then what follows with a client.
abbrev pub with_client_result :
    {A : Type 0} → Connection.Result → (Service → Service × Result A) → Service → Service × Result A
with_client_result (Connection.ok c) f s = f s
with_client_result (Connection.err e) f s = (s, err (client_error e))

unfoldable pub get_task_client : Option ℕ → Service → Service × Connection.Result
unfolding get_client
get_task_client dial s =
    let (m, r) = get_client (λ m. m) dial s.conn_manager in (record s { conn_manager = m }, r)

unfoldable pub with_task_client :
    {A : Type 0} → Option ℕ → (Service → Service × Result A) → Service → Service × Result A
unfolding get_task_client
with_task_client dial f s = let (s', r) = get_task_client dial s in with_client_result r f s'

-- `containerSnapshot`, the copies that a handler reads outside the lock.
pub record IoSnapshot : Type 0 where
  pub paths : ExecIo
  pub terminal : Bool

pub record ContainerSnapshot : Type 0 where
  pub id : String
  pub pid : ℕ
  pub init_io : IoSnapshot
  pub exec_io : List (String × IoSnapshot)

abbrev snapshot_exec : String × ProcessIoState → String × IoSnapshot
snapshot_exec (id, p) = (id, record { paths = p.host; terminal = false })

unfoldable pub snapshot_container_locked : Service → Option ContainerSnapshot
snapshot_container_locked s =
    Option.map
      (λ c. record {
        id = s.container_id;
        pid = c.pid;
        init_io = record { paths = c.io.init.host; terminal = c.io.init.terminal };
        exec_io = map snapshot_exec c.io.exec;
      })
      s.container

-- The forwarders of a container: the init's, then the execs'.
abbrev pub forwarders : Container → List ℕ
forwarders c = c.io.init.forwarder ∷ map (λ p. p.forwarder) (values c.io.exec)

-- The container, if it has this ID.
unfoldable pub container_with_id : String → Service → Option Container
container_with_id id s = if str_eq s.container_id id then s.container else none

abbrev forwarder_of : String → Container → Option ℕ
forwarder_of exec_id c =
    if str_eq exec_id ""
    then some c.io.init.forwarder
    else Option.map (λ p. p.forwarder) (lookup exec_id c.io.exec)

unfoldable pub get_io_forwarder : String → String → Service → Option ℕ
unfolding container_with_id lookup
get_io_forwarder container_id exec_id s = elim (container_with_id container_id s) [
  | none ↦ none
  | some c ↦ forwarder_of exec_id c
]
