-- ===== src/Shim/Tokens/Creation.antt =====
-- The tokens over `Create` of internal/shim/task/create.go, its rollback included.
use spinbox.Common.{ℕ, ◌+◌, Option, none, some, List, [], ◌∷◌, ◌≡◌, refl, arith}
use spinbox.Lifecycle.Vm
use spinbox.Shim.Service.{
  TaskError, Result, ok, err, Service, io_started, cpu_started, memory_started,
}
use spinbox.Shim.Create.{
  CreateTaskRequest, Setup, CleanupStep, clean_mounts, release_network, run_step, rollback,
  CreateState, Phase, validate_create_request, setup_vm_instance, start_vm, create_task_in_vm,
  finalize_create, fail_creation, create_task, create, creation_failed, after_validation,
  after_setup, after_start, after_task,
}
use spinbox.Shim.Tokens.{
  Token, vm_token, mount_token, made, ended, held, IsKept, IsSettled, IsOther, taken,
}
use spinbox.Shim.Tokens.Ends.{same-IsSettled}

-- What the steps of a rollback will give back.
unfoldable pub owed : Token → List CleanupStep → ℕ
unfolding taken
owed t [] = 0
owed t (clean_mounts c e ∷ cs) = taken t c + owed t cs
owed t (release_network id ∷ cs) = owed t cs

run_step-IsSettled :
    (t : Token) (c : CleanupStep) (s : Service) → IsSettled t (owed t (c ∷ [])) s (run_step c s)
unfolding run_step owed taken made ended held
run_step-IsSettled (vm_token i) (clean_mounts none e) s = ground arith
run_step-IsSettled (vm_token i) (clean_mounts (some m) none) s = ground arith
run_step-IsSettled (vm_token i) (clean_mounts (some m) (some e)) s = ground arith
run_step-IsSettled (mount_token k) (clean_mounts none e) s = ground arith
run_step-IsSettled (mount_token k) (clean_mounts (some m) none) s = ground arith
run_step-IsSettled (mount_token k) (clean_mounts (some m) (some e)) s = ground arith
run_step-IsSettled (vm_token k) (release_network id) s = ground arith
run_step-IsSettled (mount_token k) (release_network id) s = ground arith

owed-cons :
    (t : Token) (c : CleanupStep) (cs : List CleanupStep)
    → owed t (c ∷ cs) ≡ owed t (c ∷ []) + owed t cs
unfolding owed
owed-cons t (clean_mounts c e) cs = omega arith
owed-cons t (release_network id) cs = omega arith

rollback-IsSettled :
    (t : Token) (cs : List CleanupStep) (s : Service) → IsSettled t (owed t cs) s (rollback cs s)
unfolding rollback owed
rollback-IsSettled t [] s = (refl, omega arith)
rollback-IsSettled t (c ∷ cs) s =
    ground
      (arith, rollback-IsSettled t cs s, run_step-IsSettled t c (rollback cs s), owed-cons t c cs)

-- The tokens in a creation: one may be in the hands of the creation, for the rollback and for the
-- container that is stored at the end; and no container is stored yet.
abbrev pub IsHeldBy : Token → CreateState → Service → Type 0
IsHeldBy t state s =
    (made t s.effects ≡ ended t s.effects + held t s + owed t state.cleanup)
    × (owed t state.cleanup ≡ taken t state.mount_cleanup)
    × (s.container ≡ none)

-- An error of `NewInstance` leaves no nil pointer in the manager.
abbrev pub LeavesNothing : Vm.NewInstance ℕ → Type 0
LeavesNothing (Vm.instance_made i) = Unit {0}
LeavesNothing (Vm.not_made left e) = left ≡ none

setup-IsHeldBy :
    (t : Token) (o : Setup) (r : CreateTaskRequest) (s : Service)
    → IsKept t s
    → s.container ≡ none
    → s.vm_lifecycle.instance_of ≡ none
    → LeavesNothing o.new_instance
    → let (s', state, e) = setup_vm_instance o r s in IsHeldBy t state s'
unfolding setup_vm_instance Vm.create_vm owed taken made ended held
setup-IsHeldBy (vm_token i) o r s h c v n = ground arith
setup-IsHeldBy (mount_token m) o r s h c v n = ground arith

forwarder-IsOther : (t : Token) (f : ℕ) → IsOther t (io_started f)
forwarder-IsOther (vm_token i) f = (refl, refl)
forwarder-IsOther (mount_token m) f = (refl, refl)

controllers-IsOther : (t : Token) (c : ℕ) → IsOther t (cpu_started c) × IsOther t (memory_started c)
controllers-IsOther (vm_token i) c = ((refl, refl), (refl, refl))
controllers-IsOther (mount_token m) c = ((refl, refl), (refl, refl))

start_vm-IsHeldBy :
    (t : Token) (o : Setup) (state : CreateState) (s : Service)
    → IsHeldBy t state s
    → IsHeldBy t state (start_vm o s).0
unfolding start_vm held
start_vm-IsHeldBy (vm_token i) o state s h = ground arith
start_vm-IsHeldBy (mount_token m) o state s h = ground arith

create_task_in_vm-IsHeldBy :
    (t : Token) (o : Setup) (state : CreateState) (s : Service)
    → IsHeldBy t state s
    → IsHeldBy t state (create_task_in_vm o s).0
unfolding create_task_in_vm held made ended
create_task_in_vm-IsHeldBy (vm_token i) o state s h = ground arith
create_task_in_vm-IsHeldBy (mount_token m) o state s h = ground arith

finalize_create-IsKept :
    (t : Token) (o : Setup) (r : CreateTaskRequest) (state : CreateState) (p : ℕ × ℕ) (s : Service)
    → IsHeldBy t state s
    → IsKept t (finalize_create o r state p s)
unfolding finalize_create held made ended taken
finalize_create-IsKept (vm_token i) o r state p s h = ground arith
finalize_create-IsKept (mount_token m) o r state p s h = ground arith

fail_creation-IsKept :
    (t : Token) (state : CreateState) (e : TaskError) (s : Service)
    → IsHeldBy t state s
    → IsKept t (fail_creation state.cleanup e s).0
unfolding fail_creation
fail_creation-IsKept t state e s h =
    let s' = rollback state.cleanup s in
    ground (
      arith,
      rollback-IsSettled t state.cleanup s,
      same-IsSettled t s' (creation_failed s') refl refl refl,
    )

state-IsKept :
    (t : Token) (s s' : Service)
    → s'.effects ≡ s.effects
    → s'.container ≡ s.container
    → s'.vm_lifecycle ≡ s.vm_lifecycle
    → IsKept t s
    → IsKept t s'
state-IsKept t s s' e c v h = ground (arith, same-IsSettled t s s' e c v)

after_task-IsKept :
    (t : Token) (o : Setup) (r : CreateTaskRequest) (state : CreateState)
    (x : Service × Result (ℕ × ℕ))
    → IsHeldBy t state x.0
    → IsKept t (after_task o r state x).0
after_task-IsKept t o r state (s, err e) h = fail_creation-IsKept t state e s h
after_task-IsKept t o r state (s, ok p) h =
    state-IsKept t (finalize_create o r state p s) (after_task o r state (s, ok p)).0 refl refl refl
      (finalize_create-IsKept t o r state p s h)

after_start-IsKept :
    (t : Token) (o : Setup) (r : CreateTaskRequest) (state : CreateState)
    (x : Service × Option TaskError)
    → IsHeldBy t state x.0
    → IsKept t (after_start o r state x).0
after_start-IsKept t o r state (s, some e) h = fail_creation-IsKept t state e s h
after_start-IsKept t o r state (s, none) h =
    after_task-IsKept t o r state (create_task_in_vm o s) (create_task_in_vm-IsHeldBy t o state s h)

after_setup-IsKept :
    (t : Token) (o : Setup) (r : CreateTaskRequest) (x : Phase)
    → IsHeldBy t x.1 x.0
    → IsKept t (after_setup o r x).0
after_setup-IsKept t o r (s, state, some e) h = fail_creation-IsKept t state e s h
after_setup-IsKept t o r (s, state, none) h =
    after_start-IsKept t o r state (start_vm o s) (start_vm-IsHeldBy t o state s h)

-- A creation is let through only if there is neither a VM nor a container.
validate-empty :
    (t : Token) (r : CreateTaskRequest) (s : Service)
    → IsKept t s
    → let (s', e) = validate_create_request r s in
      IsKept t s' × (e ≡ none → (s'.container ≡ none) × (s'.vm_lifecycle.instance_of ≡ none))
unfolding validate_create_request held
validate-empty (vm_token i) r s h = ground arith
validate-empty (mount_token m) r s h = ground arith

after_validation-IsKept :
    (t : Token) (o : Setup) (r : CreateTaskRequest) (x : Service × Option TaskError)
    → IsKept t x.0 × (x.1 ≡ none → (x.0.container ≡ none) × (x.0.vm_lifecycle.instance_of ≡ none))
    → LeavesNothing o.new_instance
    → IsKept t (after_validation o r x).0
after_validation-IsKept t o r (s, some e) (h, f) n = h
after_validation-IsKept t o r (s, none) (h, f) n =
    let empty = f refl in
    after_setup-IsKept t o r (setup_vm_instance o r s) (setup-IsHeldBy t o r s h empty.0 empty.1 n)

pub create-IsKept :
    (t : Token) (o : Setup) (r : CreateTaskRequest) (s : Service)
    → LeavesNothing o.new_instance
    → IsKept t s
    → IsKept t (create o r s).0
unfolding create create_task
create-IsKept t o r s n h =
    let valid = validate-empty t r s h in
    let done = after_validation-IsKept t o r (validate_create_request r s) valid n in
    ground (arith, done)
