-- ===== src/Shim/Tokens/Whole.antt =====
-- The tokens over whole calls of internal/shim/task: `shutdown`, `Delete`, `Create`, and any
-- sequence of them.
use text.Mathlib.Text.{◌==◌ as str_eq}
use spinbox.Common.{ℕ, ◌+◌, true, Option, none, ◌≡◌, refl, arith, String, if◌then◌else◌, not, ◌⊎◌}
use spinbox.Lifecycle.State.{
  try_start_deleting, set_intentional_shutdown, shutting_down, force_transition,
}
use spinbox.Lifecycle.Cleanup.{
  execute, execute_from, execute_loop, execute_phase, new_cleanup_orchestrator, execute_partial,
  start_index, index,
}
use spinbox.Shim.Service.{
  Service, Event, Result, ok, err, sends, task_delete, send_event, with_task_client,
  get_task_client, asks_exit, container_with_id, cpu_stopped, memory_stopped, network_closed,
}
use spinbox.Shim.Delete.{
  DeleteCleanup, collect_delete_cleanup, run_delete_cleanup, delete_phases, to_list, guest_deleted,
  cleanup_on_delete_failure, delete, delete_task, delete_in_guest,
}
use spinbox.Shim.Teardown.{
  note_all, shutdown_forwarders, DeleteRequest, DeleteResponse, Outside,
  stop_all_hotplug_controllers, shutdown_all_io, close_connection, shutdown_vm,
  release_network_resources, clean_up_mounts, close_events, extract_mount_cleanup, shutdown,
  build_cleanup_phases,
}
use spinbox.Shim.Tokens.{
  Token, vm_token, mount_token, held, IsSettled, IsOther, taken, note-IsSettled,
  shutdown_forwarders-IsSettled,
}
use spinbox.Shim.Tokens.Ends.{
  stop_all-IsSettled, shutdown_all_io-IsSettled, close_connection-IsSettled, shutdown_vm-IsSettled,
  release_network-IsSettled, clean_up_mounts-IsSettled, extract-taken, same-IsSettled,
  stop-IsSettled,
}

network_closed-IsOther : (t : Token) → IsOther t network_closed
network_closed-IsOther (vm_token i) = (refl, refl)
network_closed-IsOther (mount_token m) = (refl, refl)

pub shutdown-IsSettled : (t : Token) (o : Outside) (s : Service) → IsSettled t 0 s (shutdown o s).0
unfolding shutdown execute execute_from execute_loop execute_phase new_cleanup_orchestrator
    build_cleanup_phases close_events
shutdown-IsSettled t o s =
    let s₁ : Service = record s {
      shutdown_requested = true;
      state_machine = (force_transition shutting_down s.state_machine).0;
    } in
    let s₂ = (extract_mount_cleanup s₁).0 in
    let c = (extract_mount_cleanup s₁).1 in
    let s₃ = (stop_all_hotplug_controllers s₂).0 in
    let s₄ = (shutdown_all_io o s₃).0 in
    let s₅ = (close_connection o s₄).0 in
    let s₆ = (shutdown_vm o s₅).0 in
    let s₇ =
      (if str_eq s.container_id ""
        then (s₆, none)
        else release_network_resources o s.container_id s₆).0 in
    let s₈ = (clean_up_mounts o c s₇).0 in
    let s₉ = close_events s₈ in
    ground (
      arith,
      same-IsSettled t s s₁ refl refl refl,
      extract-taken t s₁,
      stop_all-IsSettled t s₂,
      shutdown_all_io-IsSettled t o s₃,
      close_connection-IsSettled t o s₄,
      shutdown_vm-IsSettled t o s₅,
      release_network-IsSettled t o s.container_id s₆,
      clean_up_mounts-IsSettled t o c s₇,
      same-IsSettled t s₈ s₉ refl refl refl,
      note-IsSettled t network_closed s₉ (network_closed-IsOther t),
    )

collect-taken :
    (t : Token) (r : DeleteRequest) (s : Service)
    → let (s', c) = collect_delete_cleanup r s in
      (s'.effects ≡ s.effects)
      × (held t s' + taken t c.mount_cleanup ≡ held t s)
      × ((c.need_vm_shutdown ≡ true) ⊎ (c.mount_cleanup ≡ none))
unfolding collect_delete_cleanup container_with_id held taken
collect-taken (vm_token i) r s = ground arith
collect-taken (mount_token m) r s = ground arith

taken-none : (t : Token) → taken t none ≡ 0
unfolding taken
taken-none (vm_token i) = refl
taken-none (mount_token m) = refl

pub asks-IsOther : (t : Token) (reason : String) → IsOther t (asks_exit reason)
asks-IsOther (vm_token i) reason = (refl, refl)
asks-IsOther (mount_token m) reason = (refl, refl)

run_delete_cleanup-IsSettled :
    (t : Token) (o : Outside) (r : DeleteRequest) (c : DeleteCleanup) (s : Service)
    → (c.need_vm_shutdown ≡ true) ⊎ (c.mount_cleanup ≡ none)
    → IsSettled t (taken t c.mount_cleanup) s (run_delete_cleanup o r c s)
unfolding run_delete_cleanup execute_partial start_index index execute_from execute_loop
    execute_phase new_cleanup_orchestrator delete_phases
run_delete_cleanup-IsSettled t o r c s h =
    let s₁ = (shutdown_forwarders o c.io_forwarders s).0 in
    let s₂ =
      note_all memory_stopped (to_list c.mem_controller)
        (note_all cpu_stopped (to_list c.cpu_controller) s₁) in
    let s₃ : Service = record s₂ {
      state_machine = set_intentional_shutdown true s₂.state_machine;
    } in
    let s₄ = (shutdown_vm o s₃).0 in
    let s₅ =
      (if not c.need_network_clean then (s₄, none) else release_network_resources o r.id s₄).0 in
    let s₆ = (clean_up_mounts o c.mount_cleanup s₅).0 in
    ground (
      arith,
      shutdown_forwarders-IsSettled t o c.io_forwarders s,
      stop-IsSettled t (to_list c.cpu_controller) (to_list c.mem_controller) s₁,
      same-IsSettled t s₂ s₃ refl refl refl,
      shutdown_vm-IsSettled t o s₃,
      release_network-IsSettled t o r.id s₄,
      clean_up_mounts-IsSettled t o c.mount_cleanup s₅,
      note-IsSettled t (asks_exit "container deleted") s₆ (asks-IsOther t "container deleted"),
      taken-none t,
    )

sends-IsOther : (t : Token) (e : Event) → IsOther t (sends e)
sends-IsOther (vm_token i) e = (refl, refl)
sends-IsOther (mount_token m) e = (refl, refl)

guest_deleted-IsSettled :
    (t : Token) (o : Outside) (r : DeleteRequest) (a : Result DeleteResponse) (s : Service)
    → IsSettled t 0 s (guest_deleted o r a s).0
unfolding guest_deleted cleanup_on_delete_failure send_event
guest_deleted-IsSettled t o r (err e) s =
    let s' : Service = record s { state_machine = set_intentional_shutdown true s.state_machine } in
    ground (
      arith,
      same-IsSettled t s s' refl refl refl,
      note-IsSettled t (asks_exit "delete failed") s' (asks-IsOther t "delete failed"),
    )
guest_deleted-IsSettled t o r (ok resp) s =
    let e = task_delete r.id resp.pid resp.exit_status in
    let s₁ = if str_eq r.exec_id "" then send_event e s else s in
    let (s₂, c) = collect_delete_cleanup r s₁ in
    let collected = collect-taken t r s₁ in
    ground (
      arith,
      note-IsSettled t (sends e) s (sends-IsOther t e),
      collected,
      run_delete_cleanup-IsSettled t o r c s₂ collected.2,
    )

with_task_client-IsSettled :
    {A : Type 0} (t : Token) (dial : Option ℕ) (f : Service → Service × Result A) (s : Service)
    → ((s' : Service) → IsSettled t 0 s' (f s').0)
    → IsSettled t 0 s (with_task_client dial f s).0
unfolding with_task_client get_task_client
with_task_client-IsSettled t dial f s h =
    let (s', r) = get_task_client dial s in
    ground (arith, same-IsSettled t s s' refl refl refl, h s')

pub delete-IsSettled :
    (t : Token) (o : Outside) (r : DeleteRequest) (s : Service) → IsSettled t 0 s (delete o r s).0
unfolding delete delete_task delete_in_guest
delete-IsSettled t o r s =
    let s' : Service = record s { state_machine = (try_start_deleting s.state_machine).0 } in
    let f = guest_deleted o r (o.guest_delete r) in
    let settled = guest_deleted-IsSettled t o r (o.guest_delete r) in
    ground (
      arith,
      same-IsSettled t s s' refl refl refl,
      with_task_client-IsSettled t o.dial f s settled,
      with_task_client-IsSettled t o.dial f s' settled,
    )
