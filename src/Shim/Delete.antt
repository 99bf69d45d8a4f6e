-- ===== src/Shim/Delete.antt =====
-- `Delete` of internal/shim/task/service.go with its cleanup.
pub mod Outcome
use text.Mathlib.Text.{◌==◌ as str_eq}
use spinbox.Common.{
  ℕ, String, Bool, true, false, not, Option, none, some, List, [], ◌∷◌, if◌then◌else◌,
}
use spinbox.Common.Maps.{lookup, remove, values}
use spinbox.Lifecycle.State.{
  ShimState, idle, creating, created, running, shutting_down, deleting, to_string,
  set_intentional_shutdown, try_start_deleting, mark_started,
}
use spinbox.Lifecycle.Cleanup.{
  CleanupPhases, new_cleanup_orchestrator, execute_partial, phase_vm_shutdown,
}
use spinbox.Shim.Service.{
  TaskError, failed_precondition, already_exists, Result, ok, err, Container, Service,
  ProcessIoState, task_delete, cpu_stopped, memory_stopped, send_event, asks_exit, note, admitted,
  closing_error, with_task_client, forwarders, container_with_id,
}
use spinbox.Shim.Teardown.{
  DeleteRequest, DeleteResponse, Outside, Errors, note_all, shutdown_forwarders, shutdown_vm,
  release_network_resources, clean_up_mounts,
}

pub record DeleteCleanup : Type 0 where
  pub io_forwarders : List ℕ
  pub cpu_controller : Option ℕ
  pub mem_controller : Option ℕ
  pub mount_cleanup : Option ℕ
  pub need_network_clean : Bool
  pub need_vm_shutdown : Bool

abbrev pub empty_cleanup : DeleteCleanup
empty_cleanup = record {
  io_forwarders = [];
  cpu_controller = none;
  mem_controller = none;
  mount_cleanup = none;
  need_network_clean = false;
  need_vm_shutdown = false;
}

-- An exec's forwarder leaves the table.
abbrev collect_exec_io :
    String → Container → Option ProcessIoState → Service → Service × DeleteCleanup
collect_exec_io exec_id c none s = (s, empty_cleanup)
collect_exec_io exec_id c (some p) s = (
  record s { container = some (record c { io = record c.io { exec = remove exec_id c.io.exec } }) },
  record empty_cleanup { io_forwarders = p.forwarder ∷ [] },
)

-- The part under `containerMu`, for the container if it has the request's ID.
abbrev collect_container : DeleteRequest → Option Container → Service → Service × DeleteCleanup
collect_container r none s = (s, empty_cleanup)
collect_container r (some c) s =
    if not (str_eq r.exec_id "")
    then collect_exec_io r.exec_id c (lookup r.exec_id c.io.exec) s
    else (
      record s { container = none; container_id = "" },
      record {
        io_forwarders = forwarders c;
        cpu_controller = none;
        mem_controller = none;
        mount_cleanup = c.mount_cleanup;
        need_network_clean = true;
        need_vm_shutdown = true;
      },
    )

unfoldable pub collect_delete_cleanup : DeleteRequest → Service → Service × DeleteCleanup
unfolding container_with_id lookup remove values
collect_delete_cleanup r s =
    let (s', cleanup) = collect_container r (container_with_id r.id s) s in
    if str_eq r.exec_id ""
    then (
      record s' {
        cpu_hotplug_controllers = remove r.id s'.cpu_hotplug_controllers;
        memory_hotplug_controllers = remove r.id s'.memory_hotplug_controllers;
      },
      record cleanup {
        cpu_controller = lookup r.id s'.cpu_hotplug_controllers;
        mem_controller = lookup r.id s'.memory_hotplug_controllers;
      },
    )
    else (s', cleanup)

abbrev pub to_list : Option ℕ → List ℕ
to_list none = []
to_list (some n) = n ∷ []

-- The phases of a deletion; those that are not given are nil.
unfoldable pub delete_phases :
    Outside → DeleteRequest → DeleteCleanup → CleanupPhases Service Errors
delete_phases o r cleanup = record {
  hotplug_stop = none;
  io_shutdown = none;
  conn_close = none;
  vm_shutdown = some (shutdown_vm o);
  network_cleanup = some (λ s.
      if not cleanup.need_network_clean then (s, none) else release_network_resources o r.id s);
  mount_cleanup = some (clean_up_mounts o cleanup.mount_cleanup);
  event_close = none;
}

unfoldable pub run_delete_cleanup : Outside → DeleteRequest → DeleteCleanup → Service → Service
unfolding delete_phases set_intentional_shutdown
run_delete_cleanup o r cleanup s =
    let (s₁, es) = shutdown_forwarders o cleanup.io_forwarders s in
    let s₂ =
      note_all memory_stopped (to_list cleanup.mem_controller)
        (note_all cpu_stopped (to_list cleanup.cpu_controller) s₁) in
    let s₃ : Service = record s₂ {
      state_machine = set_intentional_shutdown true s₂.state_machine;
    } in
    let (c, result, s₄) =
      execute_partial phase_vm_shutdown (new_cleanup_orchestrator (delete_phases o r cleanup)) s₃ in
    if cleanup.need_vm_shutdown then note (asks_exit "container deleted") s₄ else s₂

unfoldable pub cleanup_on_delete_failure : Service → Service
unfolding set_intentional_shutdown
cleanup_on_delete_failure s =
    note (asks_exit "delete failed")
      (record s { state_machine = set_intentional_shutdown true s.state_machine })

-- What a deletion that cannot start in a state returns.
unfoldable pub delete_refusal : ShimState → TaskError
delete_refusal creating =
    failed_precondition "cannot delete while container creation is in progress"
delete_refusal shutting_down = closing_error
delete_refusal deleting = already_exists "delete already in progress"
delete_refusal idle = failed_precondition "cannot delete in state: idle"
delete_refusal created = failed_precondition "cannot delete in state: created"
delete_refusal running = failed_precondition "cannot delete in state: running"

-- After the guest has answered.
unfoldable pub guest_deleted :
    Outside → DeleteRequest → Result DeleteResponse → Service → Service × Result DeleteResponse
unfolding send_event collect_delete_cleanup run_delete_cleanup cleanup_on_delete_failure
guest_deleted o r (err e) s =
    (if str_eq r.exec_id "" then cleanup_on_delete_failure s else s, err e)
guest_deleted o r (ok resp) s =
    let s' =
      if str_eq r.exec_id ""
      then send_event (task_delete r.id resp.pid resp.exit_status) s
      else s in
    let (s'', cleanup) = collect_delete_cleanup r s' in
    (run_delete_cleanup o r cleanup s'', ok resp)

unfoldable pub delete_in_guest : Outside → DeleteRequest → Service → Service × Result DeleteResponse
unfolding with_task_client guest_deleted
delete_in_guest o r s = with_task_client o.dial (guest_deleted o r (o.guest_delete r)) s

-- The body of `Delete`, behind `beginRPC`.
unfoldable pub delete_task : Outside → DeleteRequest → Service → Service × Result DeleteResponse
unfolding delete_in_guest try_start_deleting delete_refusal
delete_task o r s =
    let (sm, starts) = try_start_deleting s.state_machine in
    let s' : Service = record s { state_machine = sm } in
    if not (str_eq r.exec_id "")
    then delete_in_guest o r s
    else if starts
    then delete_in_guest o r s'
    else (s', err (delete_refusal sm.state))

unfoldable pub delete : Outside → DeleteRequest → Service → Service × Result DeleteResponse
unfolding delete_task
delete o r s = admitted (delete_task o r) s

-- `Start`: the guest's answer, and the state of the init.
abbrev guest_started : String → Result ℕ → Service → Service × Result ℕ
guest_started exec_id (err e) s = (s, err e)
guest_started exec_id (ok pid) s =
    if str_eq exec_id ""
    then (record s { state_machine = (mark_started s.state_machine).0 }, ok pid)
    else (s, ok pid)

unfoldable pub start : Option ℕ → Result ℕ → String → Service → Service × Result ℕ
unfolding with_task_client mark_started
start dial guest exec_id s = admitted (with_task_client dial (guest_started exec_id guest)) s
