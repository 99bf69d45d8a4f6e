-- ===== src/Shim/Create/Failure.antt =====
-- What a creation of internal/shim/task/create.go leaves behind when it fails.
use spinbox.Common.{ℕ, String, Option, none, some, List, [], ◌∷◌, ◌≡◌, ◌≢◌, refl, arith}
use spinbox.Lifecycle.State.{
  idle, creating, created, compare_and_swap, try_start_creating, mark_creation_failed, mark_created,
  swap_or_error,
}
use spinbox.Shim.Service.{TaskError, Result, ok, err, Service}
use spinbox.Shim.Create.{
  CreateTaskRequest, Setup, CleanupStep, clean_mounts, release_network, run_step, rollback,
  CreateState, Phase, validate_create_request, setup_vm_instance, start_vm, create_task_in_vm,
  finalize_create, fail_creation, create_task, create, after_validation, after_setup, after_start,
  after_task,
}

-- Before a creation starts in earnest: nothing is there but the VM that it has made.
abbrev pub IsUnfinished : Service → Service → Type 0
IsUnfinished s s' =
    (s'.state_machine.state ≡ creating)
    × (s'.container ≡ s.container)
    × (s'.shutdown_requested ≡ s.shutdown_requested)

setup-IsUnfinished :
    (o : Setup) (r : CreateTaskRequest) (s₀ s : Service)
    → IsUnfinished s₀ s
    → IsUnfinished s₀ (setup_vm_instance o r s).0
unfolding setup_vm_instance
setup-IsUnfinished o r s₀ s h = ground arith

start-IsUnfinished :
    (o : Setup) (s₀ s : Service) → IsUnfinished s₀ s → IsUnfinished s₀ (start_vm o s).0
unfolding start_vm
start-IsUnfinished o s₀ s h = ground arith

task-IsUnfinished :
    (o : Setup) (s₀ s : Service) → IsUnfinished s₀ s → IsUnfinished s₀ (create_task_in_vm o s).0
unfolding create_task_in_vm
task-IsUnfinished o s₀ s h = ground arith

rollback-IsUnfinished :
    (cs : List CleanupStep) (s₀ s : Service) → IsUnfinished s₀ s → IsUnfinished s₀ (rollback cs s)
unfolding rollback run_step
rollback-IsUnfinished [] s₀ s h = h
rollback-IsUnfinished (clean_mounts none e ∷ cs) s₀ s h = rollback-IsUnfinished cs s₀ s h
rollback-IsUnfinished (clean_mounts (some m) e ∷ cs) s₀ s h = rollback-IsUnfinished cs s₀ s h
rollback-IsUnfinished (release_network id ∷ cs) s₀ s h = rollback-IsUnfinished cs s₀ s h

-- How a creation ends, from the state that it was called in.
abbrev pub IsEnded : Service → String → Service × Result ℕ → Type 0
IsEnded s₀ id (s, err e) = (s.state_machine.state ≡ idle) × (s.container ≡ s₀.container)
IsEnded s₀ id (s, ok pid) =
    (s.state_machine.state ≡ created) × (s.container_id ≡ id) × (s.container ≢ none)

fail-IsEnded :
    (s₀ : Service) (id : String) (cs : List CleanupStep) (e : TaskError) (s : Service)
    → IsUnfinished s₀ s
    → IsEnded s₀ id (fail_creation cs e s)
unfolding fail_creation mark_creation_failed swap_or_error compare_and_swap
fail-IsEnded s₀ id cs e s h = ground (arith, rollback-IsUnfinished cs s₀ s h)

after_task-IsEnded :
    (o : Setup) (r : CreateTaskRequest) (state : CreateState) (s₀ : Service)
    (x : Service × Result (ℕ × ℕ))
    → IsUnfinished s₀ x.0
    → IsEnded s₀ r.id (after_task o r state x)
unfolding finalize_create mark_created swap_or_error compare_and_swap
after_task-IsEnded o r state s₀ (s, err e) h = fail-IsEnded s₀ r.id state.cleanup e s h
after_task-IsEnded o r state s₀ (s, ok p) h = ground arith

after_start-IsEnded :
    (o : Setup) (r : CreateTaskRequest) (state : CreateState) (s₀ : Service)
    (x : Service × Option TaskError)
    → IsUnfinished s₀ x.0
    → IsEnded s₀ r.id (after_start o r state x)
after_start-IsEnded o r state s₀ (s, some e) h = fail-IsEnded s₀ r.id state.cleanup e s h
after_start-IsEnded o r state s₀ (s, none) h =
    after_task-IsEnded o r state s₀ (create_task_in_vm o s) (task-IsUnfinished o s₀ s h)

after_setup-IsEnded :
    (o : Setup) (r : CreateTaskRequest) (s₀ : Service) (x : Phase)
    → IsUnfinished s₀ x.0
    → IsEnded s₀ r.id (after_setup o r x)
after_setup-IsEnded o r s₀ (s, state, some e) h = fail-IsEnded s₀ r.id state.cleanup e s h
after_setup-IsEnded o r s₀ (s, state, none) h =
    after_start-IsEnded o r state s₀ (start_vm o s) (start-IsUnfinished o s₀ s h)

after_validation-IsEnded :
    (o : Setup) (r : CreateTaskRequest) (s₀ : Service) (x : Service × Option TaskError)
    → (x.1 ≢ none → (x.0.state_machine.state ≡ idle) × (x.0.container ≡ s₀.container))
    → (x.1 ≡ none → IsUnfinished s₀ x.0)
    → IsEnded s₀ r.id (after_validation o r x)
after_validation-IsEnded o r s₀ (s, some e) h k = h (ground arith)
after_validation-IsEnded o r s₀ (s, none) h k =
    after_setup-IsEnded o r s₀ (setup_vm_instance o r s) (setup-IsUnfinished o r s₀ s (k refl))

validate-IsUnfinished :
    (r : CreateTaskRequest) (s : Service)
    → s.state_machine.state ≡ idle
    → let (s', e) = validate_create_request r s in
      (e ≢ none → (s'.state_machine.state ≡ idle) × (s'.container ≡ s.container))
      × (e ≡ none → IsUnfinished s s')
unfolding validate_create_request try_start_creating mark_creation_failed swap_or_error
    compare_and_swap
validate-IsUnfinished r s h = ground arith

-- A creation that is called in the idle state, while nothing else changes the service, ends in one
-- of two ways, whatever is answered to its calls: with an error, and then the state is idle again and no container has been stored; or with
-- a PID, and then the state is created and a container is stored under the ID of the request.
pub create-IsEnded :
    (o : Setup) (r : CreateTaskRequest) (s : Service)
    → s.state_machine.state ≡ idle
    → IsEnded s r.id (create o r s)
unfolding create create_task
create-IsEnded o r s h =
    let valid = validate-IsUnfinished r s h in
    let ended = after_validation-IsEnded o r s (validate_create_request r s) valid.0 valid.1 in
    ground (arith, ended)
