-- ===== src/Shim/Create.antt =====
-- `Create` of internal/shim/task/create.go: validation, setup of the VM with its mounts and network,
-- its start, the task in the guest, and the rollback. What the packages around it answer is a
-- `Setup`; labels, extras disks, boot options and the restore of a template only feed those
-- packages, and their errors are `setup_extras` and `configure`.
pub mod Failure
use text.Mathlib.Text.{◌==◌ as str_eq}
use spinbox.Common.{
  ℕ, String, Bool, true, false, not, ◌||◌, ◌&&◌, Option, none, some, List, [], ◌∷◌, ◌++◌, ◌==◌,
  if◌then◌else◌,
}
use spinbox.Common.Maps.{insert}
use spinbox.Common.Text.{codes}
use spinbox.Lifecycle.State.{
  ShimState, idle, creating, created, running, shutting_down, deleting, set_intentional_shutdown,
  try_start_creating, mark_created, mark_creation_failed,
}
use spinbox.Lifecycle.Vm
use spinbox.Shim.Teardown.{cleaned_effect}
use spinbox.Shim.Service.{
  TaskError, failed_precondition, already_exists, invalid_argument, not_implemented, vm_error,
  Result, ok, err, ExecIo, ProcessIoState, TaskIo, Container, Service, Effect, vm_created,
  mounts_made, network_made, network_released, io_made, io_started, io_shut_down, cpu_started,
  memory_started, note, admitted, closing_error,
}

pub record CreateTaskRequest : Type 0 where
  pub id : String
  pub checkpoint : String
  pub parent_checkpoint : String
  pub host : ExecIo
  pub terminal : Bool

-- What is answered to the calls of `Create`.
pub record Setup : Type 0 where
  pub check_kvm : Option TaskError
  pub load_bundle : Option TaskError
  pub makes_directory : Bool
  pub new_instance : Vm.NewInstance ℕ
  -- The cleanup of the mounts, which may be nil.
  pub setup_mounts : Result (Option ℕ)
  pub clean_up_mounts : Option TaskError
  pub setup_network : Option TaskError
  pub setup_extras : Option TaskError
  pub start_instance : Option TaskError
  pub vm_client : Option TaskError
  pub configure : Option TaskError
  pub restored : Bool
  pub start_event_forwarder : Option TaskError
  pub dial : Option TaskError
  pub bundle_files : Option TaskError
  pub guest_bundle : Option TaskError
  pub forward_io : Result ℕ
  pub guest_create : Result ℕ
  pub start_cpu_hotplug : Option ℕ
  pub start_memory_hotplug : Option ℕ

-- The steps of `createCleanup`, with what the cleanup of the mounts answers; `rollback` takes the last first.
pub data CleanupStep : Type 0 where
  clean_mounts : Option ℕ → Option TaskError → CleanupStep
  release_network : String → CleanupStep

unfoldable pub run_step : CleanupStep → Service → Service
run_step (clean_mounts none e) s = s
run_step (clean_mounts (some m) e) s = note (cleaned_effect m e) s
run_step (release_network id) s = note (network_released id) s

-- The list is in the order of `add`; every step runs whatever those after it have answered.
unfoldable pub rollback : List CleanupStep → Service → Service
unfolding run_step
rollback [] s = s
rollback (c ∷ cs) s = run_step c (rollback cs s)

-- `createState`, the parts that outlive a phase.
pub record CreateState : Type 0 where
  pub vm_instance : Option ℕ
  pub mount_cleanup : Option ℕ
  pub cleanup : List CleanupStep
  pub io_forwarder : Option ℕ

abbrev pub new_create_state : CreateState
new_create_state = record {
  vm_instance = none;
  mount_cleanup = none;
  cleanup = [];
  io_forwarder = none;
}

-- A phase: the new state, and the error that ends the creation.
abbrev pub Phase : Type 0
Phase = Service × CreateState × Option TaskError

-- `return err` if there is an error, and else the rest.
abbrev pub unless : Option TaskError → Service × CreateState → Phase → Phase
unless none (s, state) next = next
unless (some e) (s, state) next = (s, state, some e)

-- `strings.ContainsAny(id, "/\\")`.
unfoldable pub has_separator : List ℕ → Bool
has_separator [] = false
has_separator (c ∷ cs) = let rest = has_separator cs in c == 47 || c == 92 || rest

-- Why a creation cannot start in a state.
unfoldable pub create_refusal : ShimState → TaskError
create_refusal deleting =
    already_exists "shim is deleting container; requires fresh shim per container"
create_refusal shutting_down = closing_error
create_refusal _ = already_exists "container creation already in progress"

abbrev pub creation_failed : Service → Service
creation_failed s = record s { state_machine = (mark_creation_failed s.state_machine).0 }

abbrev is_some : {A : Type 0} → Option A → Bool
is_some none = false
is_some (some a) = true

unfoldable pub validate_create_request : CreateTaskRequest → Service → Service × Option TaskError
unfolding try_start_creating mark_creation_failed create_refusal has_separator codes
validate_create_request r s =
    let (sm, starts) = try_start_creating s.state_machine in
    let s' : Service = record s { state_machine = sm } in
    if not (str_eq r.checkpoint "") || not (str_eq r.parent_checkpoint "")
    then (s, some not_implemented)
    else if not starts
    then (s', some (create_refusal sm.state))
    else if is_some s'.vm_lifecycle.instance_of || is_some s'.container
    then (
      creation_failed s',
      some (already_exists "shim already running a container; requires fresh shim per container"),
    )
    else if has_separator (codes r.id)
    then (
      creation_failed s',
      some (invalid_argument "container ID contains invalid path separators"),
    )
    else (s', none)

-- The rest of `setupVMInstance`, once the mounts are there.
abbrev pub mounts_set_up : Setup → CreateTaskRequest → Option ℕ → Service → CreateState → Phase
mounts_set_up o r cleanup s state =
    let state₁ : CreateState = record state {
      mount_cleanup = cleanup;
      cleanup = state.cleanup ++ (clean_mounts cleanup o.clean_up_mounts ∷ []);
    } in
    let state₂ : CreateState = record state₁ {
      cleanup = state₁.cleanup ++ (release_network r.id ∷ []);
    } in
    unless o.setup_network (s, state₁) (note (network_made r.id) s, state₂, o.setup_extras)

abbrev pub setup_mounts_in :
    Setup → CreateTaskRequest → Result (Option ℕ) → Service → CreateState → Phase
setup_mounts_in o r (err e) s state = (s, state, some e)
setup_mounts_in o r (ok none) s state = mounts_set_up o r none s state
setup_mounts_in o r (ok (some m)) s state =
    mounts_set_up o r (some m) (note (mounts_made m) s) state

-- Once `CreateVM` has returned.
abbrev pub vm_set_up : Setup → CreateTaskRequest → Vm.Result ℕ → Service → Phase
vm_set_up o r (Vm.err e) s = (s, new_create_state, some (vm_error e))
vm_set_up o r (Vm.ok i) s =
    setup_mounts_in o r o.setup_mounts (note (vm_created i) s)
      (record new_create_state { vm_instance = some i })

unfoldable pub setup_vm_instance : Setup → CreateTaskRequest → Service → Phase
unfolding Vm.create_vm
setup_vm_instance o r s =
    let (m, i) = Vm.create_vm o.makes_directory o.new_instance s.vm_lifecycle in
    unless o.check_kvm (s, new_create_state)
      (unless o.load_bundle (s, new_create_state) (vm_set_up o r i (record s { vm_lifecycle = m })))

-- The first error there is.
abbrev pub first_error : Option TaskError → Option TaskError → Option TaskError
first_error none e = e
first_error (some e) e' = some e

-- A guest that has booted may refuse to be configured; one that was restored may not.
unfoldable pub start_vm : Setup → Service → Service × Option TaskError
unfolding set_intentional_shutdown
start_vm o s = elim o.start_instance [
  | some e ↦ (s, some e)
  | none ↦ (
    record s { state_machine = set_intentional_shutdown false s.state_machine },
    first_error o.vm_client
        (first_error (if o.restored then o.configure else none) o.start_event_forwarder),
  )
]

abbrev pub guest_created : ℕ → Result ℕ → Service → Service × Result (ℕ × ℕ)
guest_created f (err e) s = (note (io_shut_down f) s, err e)
guest_created f (ok pid) s = (note (io_started f) s, ok (pid, f))

abbrev pub io_forwarded : Setup → Result ℕ → Service → Service × Result (ℕ × ℕ)
io_forwarded o (err e) s = (s, err e)
io_forwarded o (ok f) s = guest_created f o.guest_create (note (io_made f) s)

-- The PID of the task and the forwarder of its I/O.
unfoldable pub create_task_in_vm : Setup → Service → Service × Result (ℕ × ℕ)
create_task_in_vm o s = elim (first_error o.dial (first_error o.bundle_files o.guest_bundle)) [
  | some e ↦ (s, err e)
  | none ↦ io_forwarded o o.forward_io s
]

abbrev pub store_cpu_controller : String → Option ℕ → Service → Service
store_cpu_controller id none s = s
store_cpu_controller id (some c) s =
    note (cpu_started c)
      (record s { cpu_hotplug_controllers = insert id c s.cpu_hotplug_controllers })

abbrev pub store_memory_controller : String → Option ℕ → Service → Service
store_memory_controller id none s = s
store_memory_controller id (some c) s =
    note (memory_started c)
      (record s { memory_hotplug_controllers = insert id c s.memory_hotplug_controllers })

unfoldable pub finalize_create : Setup → CreateTaskRequest → CreateState → ℕ × ℕ → Service → Service
unfolding insert
finalize_create o r state (pid, f) s =
    let io : TaskIo = record {
      init = record { host = r.host; terminal = r.terminal; forwarder = f };
      exec = [];
    } in
    let c : Container = record { pid = pid; io = io; mount_cleanup = state.mount_cleanup } in
    store_memory_controller r.id o.start_memory_hotplug (
      store_cpu_controller r.id o.start_cpu_hotplug
        (record s { container = some c; container_id = r.id }))

-- A failure: the rollback, and then the deferred return to idle.
unfoldable pub fail_creation : List CleanupStep → TaskError → Service → Service × Result ℕ
unfolding rollback mark_creation_failed
fail_creation cleanup e s = (creation_failed (rollback cleanup s), err e)

abbrev pub after_task :
    Setup → CreateTaskRequest → CreateState → Service × Result (ℕ × ℕ) → Service × Result ℕ
after_task o r state (s, err e) = fail_creation state.cleanup e s
after_task o r state (s, ok (pid, f)) =
    let s' = finalize_create o r state (pid, f) s in
    (record s' { state_machine = (mark_created s'.state_machine).0 }, ok pid)

abbrev pub after_start :
    Setup → CreateTaskRequest → CreateState → Service × Option TaskError → Service × Result ℕ
after_start o r state (s, some e) = fail_creation state.cleanup e s
after_start o r state (s, none) = after_task o r state (create_task_in_vm o s)

abbrev pub after_setup : Setup → CreateTaskRequest → Phase → Service × Result ℕ
after_setup o r (s, state, some e) = fail_creation state.cleanup e s
after_setup o r (s, state, none) = after_start o r state (start_vm o s)

abbrev pub after_validation :
    Setup → CreateTaskRequest → Service × Option TaskError → Service × Result ℕ
after_validation o r (s, some e) = (s, err e)
after_validation o r (s, none) = after_setup o r (setup_vm_instance o r s)

-- The body of `Create`, behind `beginRPC`.
unfoldable pub create_task : Setup → CreateTaskRequest → Service → Service × Result ℕ
unfolding validate_create_request setup_vm_instance start_vm create_task_in_vm finalize_create
    fail_creation mark_created
create_task o r s = after_validation o r (validate_create_request r s)

unfoldable pub create : Setup → CreateTaskRequest → Service → Service × Result ℕ
unfolding create_task
create o r s = admitted (create_task o r) s
