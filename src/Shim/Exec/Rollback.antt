-- ===== src/Shim/Exec/Rollback.antt =====
-- What `Exec` of internal/shim/task/service.go leaves behind when the guest refuses.
use text.Mathlib.Text.{◌==◌ as str_eq}
use spinbox.Common.{
  ℕ, String, Bool, true, false, Option, none, some, ◌∷◌, ◌≡◌, refl, arith, sym, ap, ◌∙◌, ◌⊎◌, inl,
  inr, if◌then◌else◌,
}
use spinbox.Common.Maps.{
  lookup, remove, lookup-insert, remove-insert, remove-absent, lookup-remove, str_eq_refl,
}
use spinbox.Lifecycle.Vm
use spinbox.Shim.Connection
use spinbox.Shim.Connection.{ConnectionManager, get_client}
use spinbox.Shim.Service.{
  TaskError, Result, ok, err, ProcessIoState, Container, Service, io_made, io_shut_down, note,
  container_with_id, with_task_client, get_task_client, get_io_forwarder, with_client_result,
  is_closing, closing_error,
}
use spinbox.Shim.Exec.{
  ExecProcessRequest, ExecCalls, store_exec_io, undo_exec_io, exec, exec_on_vm, exec_forwarded,
  exec_in_container, guest_answered,
}

-- Storing the I/O of an exec and undoing it.
undo-store :
    (r : ExecProcessRequest) (f : ℕ) (c : Container) (s : Service)
    → s.container ≡ some c
    → str_eq s.container_id r.id ≡ true
    → let s' = undo_exec_io r (store_exec_io r f c s) in
      (s'.effects ≡ io_shut_down f ∷ s.effects)
      × (s'.container ≡ some (record c { io = record c.io { exec = remove r.exec_id c.io.exec } }))
unfolding undo_exec_io store_exec_io container_with_id
undo-store r f c s h e =
    let p : ProcessIoState = record { host = r.host; terminal = false; forwarder = f } in
    ground (arith, lookup-insert r.exec_id p c.io.exec, remove-insert r.exec_id p c.io.exec)

-- What is left of the service by a call that has ended with an error: the container as it was, and
-- either nothing has been done, or one forwarder has been made and then shut down.
abbrev pub IsUndone : Service → Service → Type 0
IsUndone s s' =
    (s'.container ≡ s.container)
    × ((s'.effects ≡ s.effects) ⊎ ((f : ℕ) × (s'.effects ≡ io_shut_down f ∷ io_made f ∷ s.effects)))

-- The same from the point where a forwarder is there.
abbrev IsShutDown : ℕ → Service → Service → Type 0
IsShutDown f s s' = (s'.container ≡ s.container) × (s'.effects ≡ io_shut_down f ∷ s.effects)

answered-IsShutDown :
    (r : ExecProcessRequest) (c : Container) (f : ℕ) (s : Service) (e : TaskError)
    (a : Option TaskError)
    → s.container ≡ some c
    → str_eq s.container_id r.id ≡ true
    → lookup r.exec_id c.io.exec ≡ none
    → (guest_answered r f a (store_exec_io r f c s)).1 ≡ err e
    → IsShutDown f s (guest_answered r f a (store_exec_io r f c s)).0
answered-IsShutDown r c f s e none h i l x = absurd (ground arith)
answered-IsShutDown r c f s e (some e') h i l x =
    let undone = undo-store r f c s h i in
    (
      undone.1
          ∙ ap (λ m. some (record c { io = record c.io { exec = m } }))
              (remove-absent r.exec_id c.io.exec l)
          ∙ sym h,
      undone.0,
    )

-- The same calls when no other handler runs meanwhile.
abbrev pub alone : ExecCalls → ExecCalls
alone o = record o { meanwhile = λ s. s }

-- The ID is one that no exec of the container has.
abbrev pub IsNew : String → Service → Type 0
IsNew exec_id s = (c : Container) → s.container ≡ some c → lookup exec_id c.io.exec ≡ none

with_id-container :
    (id : String) (s : Service) (c : Container)
    → container_with_id id s ≡ some c
    → (s.container ≡ some c) × (str_eq s.container_id id ≡ true)
unfolding container_with_id
with_id-container id s c h = ground arith

in_container-IsShutDown :
    (o : ExecCalls) (r : ExecProcessRequest) (f : ℕ) (s : Service) (e : TaskError)
    (k : Option Container)
    → IsNew r.exec_id s
    → container_with_id r.id s ≡ k
    → (exec_in_container (alone o) r f k s).1 ≡ err e
    → IsShutDown f s (exec_in_container (alone o) r f k s).0
in_container-IsShutDown o r f s e none l h x = (refl, refl)
in_container-IsShutDown o r f s e (some c) l h x =
    let (h₁, i) = with_id-container r.id s c h in
    answered-IsShutDown r c f s e o.guest_exec h₁ i (l c h₁) x

forwarded-IsUndone :
    (o : ExecCalls) (r : ExecProcessRequest) (s : Service) (e : TaskError) (w : Result ℕ)
    → IsNew r.exec_id s
    → (exec_forwarded (alone o) r w s).1 ≡ err e
    → IsUndone s (exec_forwarded (alone o) r w s).0
forwarded-IsUndone o r s e (err e') l x = (refl, inl refl)
forwarded-IsUndone o r s e (ok f) l x =
    let s' = note (io_made f) s in
    let (c, d) = in_container-IsShutDown o r f s' e (container_with_id r.id s') l refl x in
    (c, inr (f, d))

on_vm-IsUndone :
    (o : ExecCalls) (r : ExecProcessRequest) (i : Vm.Result ℕ) (s : Service) (e : TaskError)
    → IsNew r.exec_id s
    → (exec_on_vm (alone o) r i s).1 ≡ err e
    → IsUndone s (exec_on_vm (alone o) r i s).0
on_vm-IsUndone o r (Vm.err e') s e l x = (refl, inl refl)
on_vm-IsUndone o r (Vm.ok i) s e l x = forwarded-IsUndone o r s e o.forward_io l x

client-IsUndone :
    (o : ExecCalls) (r : ExecProcessRequest) (s : Service) (m : ConnectionManager) (e : TaskError)
    (c : Connection.Result)
    → IsNew r.exec_id s
    → let f : Service → Service × Result ℕ =
        λ s'. exec_on_vm (alone o) r (Vm.current_instance s'.vm_lifecycle) s' in
      let s' : Service = record s { conn_manager = m } in
      (with_client_result c f s').1 ≡ err e → IsUndone s (with_client_result c f s').0
client-IsUndone o r s m e (Connection.err d) l x = (refl, inl refl)
client-IsUndone o r s m e (Connection.ok c) l x =
    let s' : Service = record s { conn_manager = m } in
    on_vm-IsUndone o r (Vm.current_instance s.vm_lifecycle) s' e l x

choice-IsUndone :
    (s : Service) (e : TaskError) (b : Bool) (y : Service × Result ℕ)
    → (y.1 ≡ err e → IsUndone s y.0)
    → (if b then (s, err closing_error) else y).1 ≡ err e
    → IsUndone s (if b then (s, err closing_error) else y).0
choice-IsUndone s e true y h x = (refl, inl refl)
choice-IsUndone s e false y h x = h x

-- An exec under a new ID that ends with an error, for whatever reason, while no other handler
-- runs, leaves the container as it was; and either it made no forwarder and did nothing, or it made
-- one forwarder and then shut this one down, once.
pub exec-IsUndone :
    (o : ExecCalls) (r : ExecProcessRequest) (s : Service) (e : TaskError)
    → IsNew r.exec_id s
    → (exec (alone o) r s).1 ≡ err e
    → IsUndone s (exec (alone o) r s).0
unfolding exec with_task_client get_task_client
exec-IsUndone o r s e l x =
    let (m, c) = get_client (λ m. m) o.dial s.conn_manager in
    let f : Service → Service × Result ℕ =
      λ s'. exec_on_vm (alone o) r (Vm.current_instance s'.vm_lifecycle) s' in
    let s' : Service = record s { conn_manager = m } in
    choice-IsUndone s e (is_closing s) (with_client_result c f s') (client-IsUndone o r s m e c l) x

-- What the call of an exec under an ID that a running exec has, while no other handler runs, does
-- when the guest refuses it: the forwarder of the running exec is forgotten without being shut
-- down, so that its exit is passed on without waiting for its output.
pub exec-replaced :
    (o : ExecCalls) (r : ExecProcessRequest) (s : Service) (c : Container) (f g i client : ℕ)
    (e : TaskError)
    → is_closing s ≡ false
    → s.conn_manager.client ≡ some client
    → s.conn_manager.closed ≡ false
    → s.vm_lifecycle.instance_of ≡ some i
    → s.container ≡ some c
    → s.container_id ≡ r.id
    → o.forward_io ≡ ok f
    → o.guest_exec ≡ some e
    → str_eq r.exec_id "" ≡ false
    → get_io_forwarder r.id r.exec_id s ≡ some g
    → let s' = (exec (alone o) r s).0 in
      (s'.effects ≡ io_shut_down f ∷ io_made f ∷ s.effects)
      × (get_io_forwarder r.id r.exec_id s' ≡ none)
unfolding exec with_task_client get_task_client get_client get_io_forwarder container_with_id
    Vm.current_instance
exec-replaced o r s c f g i client e n k d v h j w a b l =
    let s' : Service =
      note (io_made f)
        (record s { conn_manager = (get_client (λ m. m) o.dial s.conn_manager).0 }) in
    ground (arith, undo-store r f c s', lookup-remove r.exec_id c.io.exec, str_eq_refl r.id)
