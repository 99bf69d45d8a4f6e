-- ===== src/Shim/Teardown.antt =====
-- The end of a container in internal/shim/task/service.go: `shutdown`, `Delete`, `Shutdown` and
-- `requestShutdownAndExit`. A Go map is walked in any order; here it is the order of the list. An
-- error that is joined from several is the list of them. What the world answers is an `Outside`.
use text.Mathlib.Text.{◌==◌ as str_eq}
use spinbox.Common.{ℕ, String, Bool, true, Option, none, some, List, [], ◌∷◌, ◌++◌, if◌then◌else◌}
use spinbox.Common.Maps.{values}
use spinbox.Lifecycle.State.{shutting_down, set_intentional_shutdown, force_transition}
use spinbox.Lifecycle.Cleanup.{
  CleanupPhases, ShutdownResult, as_error, new_cleanup_orchestrator, execute,
}
use spinbox.Lifecycle.Vm
use spinbox.Shim.Connection
use spinbox.Shim.Service.{
  TaskError, Result, Container, Service, Effect, vm_shut_down, mounts_cleaned, vm_not_shut_down,
  mounts_not_cleaned, network_released, network_closed, io_shut_down, cpu_stopped, memory_stopped,
  asks_exit, exits, note, forwarders,
}

pub record DeleteResponse : Type 0 where
  pub pid : ℕ
  pub exit_status : ℕ

pub record DeleteRequest : Type 0 where
  pub id : String
  pub exec_id : String

-- What is answered to the calls of a handler.
pub record Outside : Type 0 where
  pub dial : Option ℕ
  pub shut_down_io : ℕ → Option TaskError
  pub close_client : Option TaskError
  pub shut_down_vm : ℕ → Option TaskError
  pub release_network : String → Option TaskError
  pub clean_mounts : ℕ → Option TaskError
  pub guest_delete : DeleteRequest → Result DeleteResponse

abbrev pub Errors : Type 0
Errors = List TaskError

abbrev error_list : Option TaskError → Errors
error_list none = []
error_list (some e) = e ∷ []

-- `errors.Join`.
abbrev join : Errors → Option Errors
join [] = none
join (e ∷ es) = some (e ∷ es)

abbrev single : Option TaskError → Option Errors
single e = join (error_list e)

abbrev pub note_all : (ℕ → Effect) → List ℕ → Service → Service
note_all f [] s = s
note_all f (n ∷ ns) s = note_all f ns (note (f n) s)

unfoldable pub stop_all_hotplug_controllers : Service → Service × Option Errors
unfolding values
stop_all_hotplug_controllers s =
    let cpu = values s.cpu_hotplug_controllers in
    let memory = values s.memory_hotplug_controllers in
    let s' : Service = record s { cpu_hotplug_controllers = []; memory_hotplug_controllers = [] } in
    (note_all memory_stopped memory (note_all cpu_stopped cpu s'), none)

-- Every forwarder is shut down, whatever the ones before it answer.
abbrev pub shutdown_forwarders : Outside → List ℕ → Service → Service × Errors
shutdown_forwarders o [] s = (s, [])
shutdown_forwarders o (f ∷ fs) s =
    let (s', es) = shutdown_forwarders o fs (note (io_shut_down f) s) in
    (s', error_list (o.shut_down_io f) ++ es)

abbrev pub container_forwarders : Option Container → List ℕ
container_forwarders none = []
container_forwarders (some c) = forwarders c

unfoldable pub shutdown_all_io : Outside → Service → Service × Option Errors
unfolding values
shutdown_all_io o s =
    let (s', es) = shutdown_forwarders o (container_forwarders s.container) s in (s', join es)

unfoldable pub extract_mount_cleanup : Service → Service × Option ℕ
extract_mount_cleanup s = elim s.container [
  | none ↦ (s, none)
  | some c ↦ (record s { container = some (record c { mount_cleanup = none }) }, c.mount_cleanup)
]

-- `closeEvents`: both channels, once.
unfoldable pub close_events : Service → Service
close_events s = record s { events_closed = true }

unfoldable pub close_connection : Outside → Service → Service × Option Errors
unfolding Connection.close
close_connection o s =
    let (m, closes) = Connection.close s.conn_manager in
    (record s { conn_manager = m }, if closes then single o.close_client else none)

-- A shutdown of the VM that answers an error has not released it.
abbrev shut_down_effect : ℕ → Option TaskError → Effect
shut_down_effect i none = vm_shut_down i
shut_down_effect i (some e) = vm_not_shut_down i

abbrev pub cleaned_effect : ℕ → Option TaskError → Effect
cleaned_effect m none = mounts_cleaned m
cleaned_effect m (some e) = mounts_not_cleaned m

-- `vmLifecycle.Shutdown`.
abbrev vm_stopped : Outside → Option ℕ → Service → Service × Option Errors
vm_stopped o none s = (s, none)
vm_stopped o (some i) s =
    (note (shut_down_effect i (o.shut_down_vm i)) s, single (o.shut_down_vm i))

unfoldable pub shutdown_vm : Outside → Service → Service × Option Errors
unfolding Vm.shutdown
shutdown_vm o s =
    let (m, i) = Vm.shutdown s.vm_lifecycle in vm_stopped o i (record s { vm_lifecycle = m })

unfoldable pub release_network_resources : Outside → String → Service → Service × Option Errors
release_network_resources o id s = (note (network_released id) s, single (o.release_network id))

unfoldable pub clean_up_mounts : Outside → Option ℕ → Service → Service × Option Errors
clean_up_mounts o cleanup s = elim cleanup [
  | none ↦ (s, none)
  | some m ↦ (note (cleaned_effect m (o.clean_mounts m)) s, single (o.clean_mounts m))
]

-- The phases of a shutdown; `cleanup` is what `extractMountCleanup` has taken.
unfoldable pub build_cleanup_phases : Outside → String → Option ℕ → CleanupPhases Service Errors
build_cleanup_phases o container_id cleanup = record {
  hotplug_stop = some stop_all_hotplug_controllers;
  io_shutdown = some (shutdown_all_io o);
  conn_close = some (close_connection o);
  vm_shutdown = some (shutdown_vm o);
  network_cleanup = some (λ s.
      if str_eq container_id "" then (s, none) else release_network_resources o container_id s);
  mount_cleanup = some (clean_up_mounts o cleanup);
  event_close = some (λ s. (close_events s, none));
}

-- `shutdown`, the callback of the shutdown service.
unfoldable pub shutdown : Outside → Service → Service × Option (ShutdownResult Errors)
unfolding force_transition extract_mount_cleanup build_cleanup_phases as_error
shutdown o s =
    let s₁ : Service = record s {
      shutdown_requested = true;
      state_machine = (force_transition shutting_down s.state_machine).0;
    } in
    let (s₂, cleanup) = extract_mount_cleanup s₁ in
    let (c, r, s₃) =
      execute (new_cleanup_orchestrator (build_cleanup_phases o s.container_id cleanup)) s₂ in
    (note network_closed s₃, as_error r)

-- `requestShutdownAndExit`, after its wait for RPCs (Shim/Rpc). `runs_callback` is whether the
-- shutdown service has run the callback before the time that it is given is over; without a service
-- the callback runs inline.
unfoldable pub request_shutdown_and_exit : Bool → Outside → Service → Service
unfolding force_transition shutdown
request_shutdown_and_exit runs_callback o s =
    let s' : Service = record s {
      exit_begun = true;
      shutdown_requested = true;
      state_machine = (force_transition shutting_down s.state_machine).0;
    } in
    if s.exit_begun
    then s
    else if runs_callback
    then note exits (shutdown o s').0
    else note exits s'

-- The `Shutdown` RPC: the exit is asked for, in a goroutine of its own.
unfoldable pub shutdown_rpc : Service → Service
unfolding set_intentional_shutdown
shutdown_rpc s =
    note (asks_exit "shutdown rpc")
      (record s { state_machine = set_intentional_shutdown true s.state_machine })
