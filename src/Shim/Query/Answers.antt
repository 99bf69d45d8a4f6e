-- ===== src/Shim/Query/Answers.antt =====
-- What `State` of internal/shim/task/service.go answers, on every branch.
use spinbox.Common.{true, false, some, ◌≡◌, arith, if◌then◌else◌}
use spinbox.Lifecycle.State.{is_created_not_started}
use spinbox.Shim.Service.{
  ok, Container, Service, is_closing, snapshot_container_locked, with_task_client, get_task_client,
}
use spinbox.Shim.Query.{
  created_status, paused_status, StateResponse, StateCalls, with_host_paths, ask_guest, state,
}

-- While the VM is paused, and before the task is started, the state of the task is answered without
-- the guest: whatever it would answer, with the cached PID and the host's paths; nothing changes.
pub state-short_circuit :
    (o : StateCalls) (s : Service) (c : Container)
    → is_closing s ≡ false
    → s.container ≡ some c
    → (if is_created_not_started s.state_machine then true else s.paused) ≡ true
    → state o "" s ≡ (
      s,
      ok (record {
        status = if is_created_not_started s.state_machine then created_status else paused_status;
        pid = c.pid;
        paths = c.io.init.host;
        terminal = c.io.init.terminal;
      }),
    )
unfolding state snapshot_container_locked
state-short_circuit o s c n h p = ground arith

-- Every answer for the task while there is a container has the host's paths of the container that
-- is there when `State` returns, whatever paths the guest has given and whatever happened meanwhile.
pub state-host_paths :
    (o : StateCalls) (s : Service) (c : Container) (st : StateResponse)
    → (state o "" s).1 ≡ ok st
    → (state o "" s).0.container ≡ some c
    → (st.paths ≡ c.io.init.host) × (st.terminal ≡ c.io.init.terminal)
unfolding state snapshot_container_locked ask_guest with_task_client get_task_client with_host_paths
state-host_paths o s c st r h = ground arith
