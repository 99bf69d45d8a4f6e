-- ===== src/Shim/Pause.antt =====
-- `Pause` and `Resume` of internal/shim/task/service.go. Besides the service there is the guest: its
-- filesystems, frozen or not, and its virtual CPUs, stopped or not. What QEMU and the guest answer
-- are arguments. A call that ends with an error may have been executed all the same, as after a
-- timeout: whether it was is an answer too. A guest whose CPUs are stopped does not answer: the call
-- ends with the error of its context.
pub mod Agreement
use spinbox.Common.{ℕ, String, Bool, true, false, not, Option, none, some, if◌then◌else◌}
use spinbox.Lifecycle.Vm
use spinbox.Shim.Connection
use spinbox.Shim.Service.{
  TaskError, vm_error, client_error, failed, Result, ok, err, Service, vm_paused, vm_resumed,
  task_paused, task_resumed, note, send_event, is_closing, closing_error, get_task_client,
}

pub record Guest : Type 0 where
  pub is_frozen : Bool
  pub is_stopped : Bool

pub record World : Type 0 where
  pub service : Service
  pub guest : Guest

-- Answers to a pause or a resume; a rollback dials and thaws on its own.
pub record PauseCalls : Type 0 where
  pub dial : Option ℕ
  pub freeze : Option TaskError
  pub vm_pause : Option TaskError
  pub vm_resume : Option TaskError
  pub thaw : Option TaskError
  -- Whether the call has had its effect although it ended with an error.
  pub freeze_took : Bool
  pub pause_took : Bool
  pub resume_took : Bool
  pub thaw_took : Bool

abbrev freeze_if : Bool → Bool → World → World
freeze_if took b w = if took then record w { guest = record w.guest { is_frozen = b } } else w

abbrev set_frozen : Bool → Bool → Option TaskError → World → World × Option TaskError
set_frozen took b none w = (freeze_if true b w, none)
set_frozen took b (some e) w = (freeze_if took b w, some e)

abbrev ask_guest :
    Bool → Bool → Option TaskError → Connection.Result → World → World × Option TaskError
ask_guest took b e (Connection.ok c) w =
    if w.guest.is_stopped then (w, some (failed 0)) else set_frozen took b e w
ask_guest took b e (Connection.err d) w = (w, some (client_error d))

unfoldable pub freeze_guest_filesystems :
    Bool → Option ℕ → Option TaskError → World → World × Option TaskError
unfolding get_task_client
freeze_guest_filesystems took dial e w =
    let (s, c) = get_task_client dial w.service in
    ask_guest took true e c (record w { service = s })

unfoldable pub thaw_guest_filesystems :
    Bool → Option ℕ → Option TaskError → World → World × Option TaskError
unfolding get_task_client
thaw_guest_filesystems took dial e w =
    let (s, c) = get_task_client dial w.service in
    ask_guest took false e c (record w { service = s })

abbrev run_service : (Service → Service) → World → World
run_service f w = record w { service = f w.service }

abbrev stop_cpus : Bool → World → World
stop_cpus b w = record w { guest = record w.guest { is_stopped = b } }

-- QEMU has answered to the stop: the freeze is rolled back if it failed.
unfoldable pub vm_paused_answer :
    PauseCalls → String → ℕ → Option TaskError → World → World × Option TaskError
unfolding thaw_guest_filesystems send_event
vm_paused_answer o id i (some e) w = (
  (thaw_guest_filesystems o.thaw_took o.dial o.thaw
      (if o.pause_took then stop_cpus true w else w)).0,
  some e,
)
vm_paused_answer o id i none w = (
  run_service (λ s. send_event (task_paused id) (record (note (vm_paused i) s) { paused = true }))
      (stop_cpus true w),
  none,
)

abbrev frozen_answer : PauseCalls → String → ℕ → World × Option TaskError → World × Option TaskError
frozen_answer o id i (w, some e) = (w, some e)
frozen_answer o id i (w, none) = vm_paused_answer o id i o.vm_pause w

abbrev pause_vm : PauseCalls → String → Vm.Result ℕ → World → World × Option TaskError
pause_vm o id (Vm.err e) w = (w, some (vm_error e))
pause_vm o id (Vm.ok i) w =
    frozen_answer o id i (freeze_guest_filesystems o.freeze_took o.dial o.freeze w)

unfoldable pub pause : PauseCalls → String → World → World × Option TaskError
unfolding Vm.current_instance freeze_guest_filesystems vm_paused_answer
pause o id w =
    if is_closing w.service
    then (w, some closing_error)
    else pause_vm o id (Vm.current_instance w.service.vm_lifecycle) w

abbrev thawed_answer : String → World × Option TaskError → World × Option TaskError
thawed_answer id (w, some e) = (w, some e)
thawed_answer id (w, none) = (run_service (send_event (task_resumed id)) w, none)

-- QEMU has answered to the continuation: the thaw needs a guest that runs.
unfoldable pub vm_resumed_answer :
    PauseCalls → String → ℕ → Option TaskError → World → World × Option TaskError
unfolding thaw_guest_filesystems send_event
vm_resumed_answer o id i (some e) w = (if o.resume_took then stop_cpus false w else w, some e)
vm_resumed_answer o id i none w = thawed_answer id (
    thaw_guest_filesystems o.thaw_took o.dial o.thaw
      (run_service (λ s. record (note (vm_resumed i) s) { paused = false }) (stop_cpus false w)))

abbrev resume_vm : PauseCalls → String → Vm.Result ℕ → World → World × Option TaskError
resume_vm o id (Vm.err e) w = (w, some (vm_error e))
resume_vm o id (Vm.ok i) w = vm_resumed_answer o id i o.vm_resume w

unfoldable pub resume : PauseCalls → String → World → World × Option TaskError
unfolding Vm.current_instance vm_resumed_answer
resume o id w =
    if is_closing w.service
    then (w, some closing_error)
    else resume_vm o id (Vm.current_instance w.service.vm_lifecycle) w
