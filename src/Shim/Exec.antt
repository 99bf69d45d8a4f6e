-- ===== src/Shim/Exec.antt =====
-- `Exec` and `CloseIO` of internal/shim/task/service.go: the I/O of the execs of a container. While
-- the guest makes the exec other handlers run: what they do to the service is a parameter.
pub mod Rollback
use text.Mathlib.Text.{◌==◌ as str_eq}
use spinbox.Common.{ℕ, String, Bool, true, false, Option, none, some, List, [], ◌∷◌, if◌then◌else◌}
use spinbox.Common.Maps.{lookup, insert, remove}
use spinbox.Lifecycle.Vm
use spinbox.Shim.Service.{
  TaskError, not_found, vm_error, Result, ok, err, ExecIo, ProcessIoState, Container, Service,
  io_made, io_started, io_shut_down, stdin_closed, note, admitted, with_task_client,
  container_with_id,
}

pub record ExecProcessRequest : Type 0 where
  pub id : String
  pub exec_id : String
  pub host : ExecIo

-- What is answered to the calls of `Exec`, and what other goroutines do while the guest works.
pub record ExecCalls : Type 0 where
  pub dial : Option ℕ
  pub forward_io : Result ℕ
  pub meanwhile : Service → Service
  pub guest_exec : Option TaskError

abbrev pub with_exec_io : List (String × ProcessIoState) → Container → Service → Service
with_exec_io exec c s = record s {
  container = some (record c { io = record c.io { exec = exec } });
}

unfoldable pub store_exec_io : ExecProcessRequest → ℕ → Container → Service → Service
unfolding insert
store_exec_io r f c s =
    let p : ProcessIoState = record { host = r.host; terminal = false; forwarder = f } in
    with_exec_io (insert r.exec_id p c.io.exec) c s

abbrev pub drop_exec_io : String → Container → Option ProcessIoState → Service → Service
drop_exec_io exec_id c none s = s
drop_exec_io exec_id c (some p) s =
    with_exec_io (remove exec_id c.io.exec) c (note (io_shut_down p.forwarder) s)

-- The I/O that is stored under the exec's ID, if its container is still there.
unfoldable pub undo_exec_io : ExecProcessRequest → Service → Service
unfolding container_with_id lookup remove
undo_exec_io r s = elim (container_with_id r.id s) [
  | none ↦ s
  | some c ↦ drop_exec_io r.exec_id c (lookup r.exec_id c.io.exec) s
]

abbrev pub guest_answered : ExecProcessRequest → ℕ → Option TaskError → Service → Service × Result ℕ
guest_answered r f (some e) s = (undo_exec_io r s, err e)
guest_answered r f none s = (note (io_started f) s, ok f)

abbrev pub exec_in_container :
    ExecCalls → ExecProcessRequest → ℕ → Option Container → Service → Service × Result ℕ
exec_in_container o r f none s = (note (io_shut_down f) s, err (not_found "container not found"))
exec_in_container o r f (some c) s =
    guest_answered r f o.guest_exec (o.meanwhile (store_exec_io r f c s))

abbrev pub exec_forwarded : ExecCalls → ExecProcessRequest → Result ℕ → Service → Service × Result ℕ
exec_forwarded o r (err e) s = (s, err e)
exec_forwarded o r (ok f) s =
    let s' = note (io_made f) s in exec_in_container o r f (container_with_id r.id s') s'

abbrev pub exec_on_vm : ExecCalls → ExecProcessRequest → Vm.Result ℕ → Service → Service × Result ℕ
exec_on_vm o r (Vm.err e) s = (s, err (vm_error e))
exec_on_vm o r (Vm.ok i) s = exec_forwarded o r o.forward_io s

-- The result is the forwarder that has been started.
unfoldable pub exec : ExecCalls → ExecProcessRequest → Service → Service × Result ℕ
unfolding with_task_client Vm.current_instance container_with_id store_exec_io undo_exec_io
exec o r s =
    admitted
      (with_task_client o.dial (λ s'. exec_on_vm o r (Vm.current_instance s'.vm_lifecycle) s')) s

abbrev close_forwarder_stdin : Option ProcessIoState → Service → Service
close_forwarder_stdin none s = s
close_forwarder_stdin (some p) s = note (stdin_closed p.forwarder) s

-- The host's part of `CloseIO`; the guest is asked next.
unfoldable pub close_stdin : String → String → Service → Service
unfolding container_with_id lookup
close_stdin id exec_id s = elim (container_with_id id s) [
  | none ↦ s
  | some c ↦
      if str_eq exec_id ""
      then note (stdin_closed c.io.init.forwarder) s
      else close_forwarder_stdin (lookup exec_id c.io.exec) s
]

-- The answer of the guest is passed on.
unfoldable pub close_io :
    Option ℕ → Result ℕ → Bool → String → String → Service → Service × Result ℕ
unfolding with_task_client close_stdin
close_io dial guest stdin id exec_id s =
    admitted
      (λ s₁.
        with_task_client dial (λ s₂. (s₂, guest)) (if stdin then close_stdin id exec_id s₁ else s₁))
      s
