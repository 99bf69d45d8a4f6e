-- ===== src/Shim/Pause/Agreement.antt =====
-- The flag of a pause and the guest, over any sequence of `Pause` and `Resume` of
-- internal/shim/task/service.go.
use spinbox.Common.{String, true, false, List, [], ◌∷◌, ◌≡◌, All, arith}
use spinbox.Lifecycle.Vm
use spinbox.Shim.Service.{get_task_client}
use spinbox.Shim.Service.{send_event}
use spinbox.Shim.Pause.{
  World, PauseCalls, pause, resume, freeze_guest_filesystems, thaw_guest_filesystems,
  vm_paused_answer, vm_resumed_answer,
}

pub data Call : Type 0 where
  pause_call resume_call : PauseCalls → String → Call

unfoldable pub call : Call → World → World
unfolding pause resume
call (pause_call o id) w = (pause o id w).0
call (resume_call o id) w = (resume o id w).0

unfoldable pub run : List Call → World → World
unfolding call
run [] w = w
run (c ∷ cs) w = run cs (call c w)

-- The CPUs are stopped only with the filesystems frozen.
abbrev pub IsFrozenFirst : World → Type 0
IsFrozenFirst w = w.guest.is_stopped ≡ true → w.guest.is_frozen ≡ true

-- The service says that it is paused exactly when the CPUs are stopped.
abbrev pub IsAgreed : World → Type 0
IsAgreed w = w.service.paused ≡ w.guest.is_stopped

-- QEMU has not executed a stop or a continuation that it reports as failed.
abbrev pub IsDefinite : Call → Type 0
IsDefinite (pause_call o id) = o.pause_took ≡ false
IsDefinite (resume_call o id) = o.resume_took ≡ false

call-IsAgreed : (c : Call) (w : World) → IsDefinite c → IsAgreed w → IsAgreed (call c w)
unfolding call pause resume freeze_guest_filesystems thaw_guest_filesystems vm_paused_answer
    vm_resumed_answer get_task_client send_event Vm.current_instance
call-IsAgreed (pause_call o id) w d h = ground arith
call-IsAgreed (resume_call o id) w d h = ground arith

-- Over any sequence of pauses and resumes, one after the other, in which QEMU executes no stop and no
-- continuation that it reports as failed: the service counts as paused exactly when the CPUs are
-- stopped, if it did so at first.
pub run-IsAgreed :
    (cs : List Call) (w : World) → All IsDefinite cs → IsAgreed w → IsAgreed (run cs w)
unfolding run
run-IsAgreed [] w d h = h
run-IsAgreed (c ∷ cs) w d h = run-IsAgreed cs (call c w) d.1 (call-IsAgreed c w d.0 h)
