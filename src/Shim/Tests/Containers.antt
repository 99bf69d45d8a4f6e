-- ===== src/Shim/Tests/Containers.antt =====
-- Runs of the handlers of the shim's task service (internal/shim/task): the life of a container.
use spinbox.Common.{true, false, Option, none, some, List, [], ◌∷◌, ◌≡◌, ◌≢◌, refl, arith, inr}
use spinbox.Lifecycle.State.{is_created_not_started, running}
use spinbox.Lifecycle.Vm
use spinbox.Shim.Service.{
  failed, ok, err, ExecIo, Container, Service, new_task_service, io_made, io_shut_down,
  get_io_forwarder, is_closing,
}
use spinbox.Shim.Create.{Setup, CreateTaskRequest, create}
use spinbox.Shim.Create.Failure.{IsEnded, create-IsEnded}
use spinbox.Shim.Teardown.{DeleteResponse, Outside}
use spinbox.Shim.Delete.{delete}
use spinbox.Shim.Delete.Outcome.{AllRefused, delete-no_client}
use spinbox.Shim.Exec.{ExecCalls, ExecProcessRequest, exec}
use spinbox.Shim.Exec.Rollback.{alone, IsUndone, exec-IsUndone, exec-replaced}
use spinbox.Shim.Pause.{World, PauseCalls}
use spinbox.Shim.Pause.Agreement
use spinbox.Shim.Pause.Agreement.{pause_call, resume_call, IsAgreed, run-IsAgreed}
use spinbox.Shim.Query.{StateCalls, running_status, state}
use spinbox.Shim.Query.Answers.{state-host_paths}
use spinbox.Shim.Tokens.{mount_token, made, given_back, given_up, held, IsConserved}
use spinbox.Shim.Tokens.Runs
use spinbox.Shim.Tokens.Runs.{
  create_call, delete_call, shutdown_call, shutdown_rpc_call, run-IsConserved,
}

abbrev paths : ExecIo
paths = record { stdin = "in"; stdout = "out"; stderr = "err" }

abbrev request : CreateTaskRequest
request = record {
  id = "web";
  checkpoint = "";
  parent_checkpoint = "";
  host = paths;
  terminal = false;
}

-- Everything works.
abbrev setup : Setup
setup = record {
  check_kvm = none;
  load_bundle = none;
  makes_directory = true;
  new_instance = Vm.instance_made 3;
  setup_mounts = ok (some 4);
  clean_up_mounts = none;
  setup_network = none;
  setup_extras = none;
  start_instance = none;
  vm_client = none;
  configure = none;
  restored = false;
  start_event_forwarder = none;
  dial = none;
  bundle_files = none;
  guest_bundle = none;
  forward_io = ok 5;
  guest_create = ok 100;
  start_cpu_hotplug = some 6;
  start_memory_hotplug = none;
}

abbrev outside : Outside
outside = record {
  dial = some 9;
  shut_down_io = λ f. none;
  close_client = none;
  shut_down_vm = λ i. some (failed 1);
  release_network = λ id. none;
  clean_mounts = λ m. none;
  guest_delete = λ r. ok (record { pid = 100; exit_status = 0 });
}

abbrev life : List Runs.Call
life =
    create_call (record setup { setup_network = some (failed 2) }) request
    ∷ create_call setup request
    ∷ delete_call outside (record { id = "web"; exec_id = "" })
    ∷ shutdown_rpc_call
    ∷ shutdown_call outside
    ∷ []

new_task_service-IsConserved : IsConserved (mount_token 4) new_task_service
unfolding new_task_service made given_back held given_up
new_task_service-IsConserved = refl

run-IsConserved_example : IsConserved (mount_token 4) (Runs.run life new_task_service)
run-IsConserved_example =
    run-IsConserved (mount_token 4) life new_task_service (ground arith)
      new_task_service-IsConserved

create-IsEnded_example : IsEnded new_task_service "web" (create setup request new_task_service)
unfolding new_task_service
create-IsEnded_example = create-IsEnded setup request new_task_service refl

abbrev left_behind : Service
left_behind = (create (record setup { setup_mounts = err (failed 2) }) request new_task_service).0

abbrev service : Service
service = (create setup request new_task_service).0

abbrev container_or : Container → Option Container → Container
container_or c none = c
container_or c (some d) = d

abbrev no_container : Container
no_container = record {
  pid = 0;
  io = record { init = record { host = paths; terminal = false; forwarder = 0 }; exec = [] };
  mount_cleanup = none;
}

abbrev the_container : Service → Container
the_container s = container_or no_container s.container

abbrev exec_request : ExecProcessRequest
exec_request = record { id = "web"; exec_id = "sh"; host = paths }

abbrev exec_calls : ExecCalls
exec_calls = record {
  dial = some 9;
  forward_io = ok 20;
  meanwhile = λ s. s;
  guest_exec = some (failed 3);
}

exec-IsUndone_example : IsUndone service (exec (alone exec_calls) exec_request service).0
unfolding create new_task_service exec is_closing
exec-IsUndone_example =
    exec-IsUndone exec_calls exec_request service (failed 3) (λ c h. ground arith) refl

-- The exec `sh` runs, with forwarder 19.
abbrev with_exec : Service
with_exec =
    (exec (record exec_calls { forward_io = ok 19; guest_exec = none }) exec_request service).0

exec-replaced_example :
    let s' = (exec (alone exec_calls) exec_request with_exec).0 in
    (s'.effects ≡ io_shut_down 20 ∷ io_made 20 ∷ with_exec.effects)
    × (get_io_forwarder "web" "sh" s' ≡ none)
unfolding create new_task_service exec is_closing get_io_forwarder
exec-replaced_example =
    exec-replaced exec_calls exec_request with_exec (the_container with_exec) 20 19 3 9 (failed 3)
      refl refl refl refl refl refl refl refl refl refl

delete-no_client_example :
    let r = delete (record outside { dial = none }) (record { id = "web"; exec_id = "" }) service in
    ((d : DeleteResponse) → r.1 ≢ ok d)
    × (r.0.effects ≡ service.effects)
    × (r.0.container ≡ service.container)
    × AllRefused ((outside, "web") ∷ (outside, "db") ∷ []) r.0
unfolding create new_task_service is_closing
delete-no_client_example =
    delete-no_client (record outside { dial = none }) ((outside, "web") ∷ (outside, "db") ∷ [])
      "web" service refl (inr refl) refl refl

abbrev world : World
world = record { service = service; guest = record { is_frozen = false; is_stopped = false } }

abbrev pause_calls : PauseCalls
pause_calls = record {
  dial = some 9;
  freeze = none;
  freeze_took = false;
  pause_took = false;
  resume_took = false;
  thaw_took = false;
  vm_pause = none;
  vm_resume = none;
  thaw = none;
}

run-IsAgreed_example :
    IsAgreed
      (Agreement.run (pause_call pause_calls "web" ∷ resume_call pause_calls "web" ∷ []) world)
unfolding create new_task_service is_closing
run-IsAgreed_example =
    run-IsAgreed (pause_call pause_calls "web" ∷ resume_call pause_calls "web" ∷ []) world
      (refl, (refl, tt)) refl

-- A stop that QEMU executes and reports as failed.
abbrev late_pause : PauseCalls
late_pause = record pause_calls { vm_pause = some (failed 4); pause_took = true }

-- After it the CPUs are stopped, and the service does not count as paused.
late_pause-differs :
    let w = Agreement.run (pause_call late_pause "web" ∷ []) world in
    (w.guest.is_stopped ≡ true) × (w.service.paused ≡ false)
unfolding Agreement.run create new_task_service is_closing
late_pause-differs = ground arith

abbrev refused_pause : PauseCalls
refused_pause = record pause_calls { vm_pause = some (failed 4) }

abbrev state_calls : StateCalls
state_calls = record {
  dial = some 9;
  guest_state = ok (record {
    status = running_status;
    pid = 100;
    paths = record { stdin = "rpcio://in"; stdout = ""; stderr = "" };
    terminal = true;
  });
  meanwhile = λ s. s;
}

abbrev running_service : Service
running_service = record service {
  state_machine = record service.state_machine { state = running };
}

state-host_paths_example : (paths ≡ paths) × (false ≡ false)
unfolding create new_task_service is_closing state is_created_not_started
state-host_paths_example =
    state-host_paths state_calls running_service (the_container running_service)
      (record { status = running_status; pid = 100; paths = paths; terminal = false }) refl refl
