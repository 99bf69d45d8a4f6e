-- ===== src/Shim/Query.antt =====
-- `State` and `Connect` of internal/shim/task/service.go, which change nothing but the cached
-- connection. What the guest answers is an argument; what other handlers do while it answers is a
-- parameter of `state`.
pub mod Answers
use text.Mathlib.Text.{◌==◌ as str_eq}
use mathlib.Core.Option
use spinbox.Common.{
  ℕ, String, Bool, true, false, not, ◌&&◌, Option, none, some, List, [], ◌∷◌, ◌==◌, if◌then◌else◌,
}
use spinbox.Common.Maps.{lookup}
use spinbox.Lifecycle.State.{is_created_not_started}
use spinbox.Shim.Service.{
  TaskError, Result, ok, err, ExecIo, IoSnapshot, ContainerSnapshot, Service, admitted,
  with_task_client, snapshot_container_locked,
}

pub data Status : Type 0 where
  unknown created_status running_status stopped_status paused_status : Status

pub record StateResponse : Type 0 where
  pub status : Status
  pub pid : ℕ
  pub paths : ExecIo
  pub terminal : Bool

-- The guest's answer, and what else happens while it is asked.
pub record StateCalls : Type 0 where
  pub dial : Option ℕ
  pub guest_state : Result StateResponse
  pub meanwhile : Service → Service

-- A state that is known without the guest.
abbrev pub short_circuit : Status → ContainerSnapshot → StateResponse
short_circuit status snap = record {
  status = status;
  pid = snap.pid;
  paths = snap.init_io.paths;
  terminal = snap.init_io.terminal;
}

abbrev exec_paths : Option IoSnapshot → StateResponse → StateResponse
exec_paths none st = st
exec_paths (some io) st = record st { paths = io.paths }

-- The guest's paths are replaced by the host's.
unfoldable pub with_host_paths : String → Option ContainerSnapshot → StateResponse → StateResponse
unfolding lookup
with_host_paths exec_id snap st = elim snap [
  | none ↦ st
  | some c ↦
      if str_eq exec_id ""
      then record st { paths = c.init_io.paths; terminal = c.init_io.terminal }
      else exec_paths (lookup exec_id c.exec_io) st
]

abbrev guest_answer :
    StateCalls → String → Result StateResponse → Service → Service × Result StateResponse
guest_answer o exec_id (err e) s = (o.meanwhile s, err e)
guest_answer o exec_id (ok st) s =
    let s' = o.meanwhile s in (s', ok (with_host_paths exec_id (snapshot_container_locked s') st))

unfoldable pub ask_guest : StateCalls → String → Service → Service × Result StateResponse
unfolding with_task_client with_host_paths snapshot_container_locked
ask_guest o exec_id s = with_task_client o.dial (guest_answer o exec_id o.guest_state) s

abbrev state_of :
    StateCalls → String → Option ContainerSnapshot → Service → Service × Result StateResponse
state_of o exec_id none s = ask_guest o exec_id s
state_of o exec_id (some snap) s =
    if str_eq exec_id "" && is_created_not_started s.state_machine
    then (s, ok (short_circuit created_status snap))
    else if str_eq exec_id "" && s.paused
    then (s, ok (short_circuit paused_status snap))
    else ask_guest o exec_id s

unfoldable pub state : StateCalls → String → Service → Service × Result StateResponse
unfolding snapshot_container_locked ask_guest
state o exec_id s = admitted (λ s'. state_of o exec_id (snapshot_container_locked s') s') s

abbrev connect_pid : String → Option ContainerSnapshot → ℕ
connect_pid id none = 0
connect_pid id (some snap) = if str_eq snap.id id then snap.pid else 0

-- The PID of the task: the cached one, unless it is 0 or of another container.
unfoldable pub connect : Option ℕ → Result ℕ → String → Service → Service × Result ℕ
unfolding with_task_client snapshot_container_locked
connect dial guest id s =
    admitted
      (λ s'.
        let pid = connect_pid id (snapshot_container_locked s') in
        if not (pid == 0) then (s', ok pid) else with_task_client dial (λ s''. (s'', guest)) s')
      s
