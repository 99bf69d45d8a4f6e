-- ===== src/Qemu.antt =====
-- `Instance` of internal/host/vm/qemu: its state machine, `AddDisk` and `AddTAPNIC` (devices.go),
-- `Start` with its rollback (start.go) and `Shutdown` with its phases (shutdown.go). A handle is
-- open or nil; the process is there or not, and whether it still runs is `alive`. What QEMU, the guest
-- and the kernel answer are arguments, and which case of a wait comes first is one of them. The
-- compare-and-swap lets one goroutine into `Start` or `Shutdown`.
pub mod Release
mod Tests
use spinbox.Common.{
  ℕ, suc, String, Bool, true, false, not, ◌&&◌, ◌||◌, Option, none, some, List, [], ◌∷◌, ◌++◌, map,
  length, ltb, ◌==◌ as nat_beq, if◌then◌else◌,
}

pub data VmState : Type 0 where
  new starting running shut : VmState

abbrev to_int : VmState → ℕ
to_int new = 0
to_int starting = 1
to_int running = 2
to_int shut = 3

infix 50 ◌==◌
abbrev pub ◌==◌ : VmState → VmState → Bool
s == t = nat_beq (to_int s) (to_int t)

pub record DiskConfig : Type 0 where
  pub id : String
  pub path : String
  pub readonly : Bool

-- `released` is the sequence of the leases that have been released, newest first.
pub record Instance : Type 0 where
  pub state : VmState
  pub guest_cid : ℕ
  pub cid_lease : Option ℕ
  pub released : List ℕ
  pub disks : List DiskConfig
  pub tap_files : List Bool
  pub has_state_dir : Bool
  pub client : Bool
  pub vsock_conn : Bool
  pub qmp_client : Bool
  pub console_file : Bool
  pub console_fifo : Bool
  pub cmd : Bool
  pub alive : Bool
  pub monitors : Bool
  pub paused : Bool

pub data VmError : Type 0 where
  wrong_state : VmState → VmError
  start_failed : ℕ → VmError
  kill_failed no_exit : VmError

-- `newInstance`, with the lease that the allocator gives.
unfoldable pub new_instance : ℕ → Instance
new_instance cid = record {
  state = new;
  guest_cid = cid;
  cid_lease = some cid;
  released = [];
  disks = [];
  tap_files = [];
  has_state_dir = true;
  client = false;
  vsock_conn = false;
  qmp_client = false;
  console_file = false;
  console_fifo = false;
  cmd = false;
  alive = false;
  monitors = false;
  paused = false;
}

unfoldable pub compare_and_swap_state : VmState → VmState → Instance → Instance × Bool
compare_and_swap_state from to q =
    if q.state == from then (record q { state = to }, true) else (q, false)

unfoldable pub add_disk : DiskConfig → Instance → Instance × Bool
add_disk d q =
    if not (q.state == new) then (q, false) else (record q { disks = q.disks ++ (d ∷ []) }, true)

unfoldable pub add_tap_nic : Instance → Instance × Bool
add_tap_nic q =
    if not (q.state == new)
    then (q, false)
    else (record q { tap_files = q.tap_files ++ (false ∷ []) }, true)

unfoldable pub close_tap_files_locked : Instance → Instance
close_tap_files_locked q = record q { tap_files = map (λ f. false) q.tap_files }

-- `cidLease.Release`, once, and the field is nil afterwards.
unfoldable pub release_lease : Instance → Instance
release_lease q = elim q.cid_lease [
  | none ↦ q
  | some l ↦ record q { cid_lease = none; released = l ∷ q.released }
]

-- The QEMU process is killed, if there is one.
abbrev kill_process : Instance → Instance
kill_process q = if q.cmd then record q { alive = false } else q

unfoldable pub rollback_start : Instance → Instance
unfolding close_tap_files_locked release_lease
rollback_start q =
    let q₁ : Instance = record q {
      state = new;
      vsock_conn = false;
      client = false;
      qmp_client = false;
      console_file = false;
    } in
    record (release_lease (close_tap_files_locked q₁)) { has_state_dir = false }

-- The answers to the steps of `Start`, an error as its number.
pub record StartCalls : Type 0 where
  pub validate : Option ℕ
  pub console : Option ℕ
  pub open_taps : Option ℕ
  pub spec : Option ℕ
  pub process : Option ℕ
  pub qmp : Option ℕ
  pub restores : Bool
  pub load_template : Option ℕ
  pub vsock : Option ℕ

abbrev Starting : Type 0
Starting = Instance × Option ℕ

abbrev step : Option ℕ → (Instance → Instance) → (Instance → Instance) → Starting → Starting
step e on_error on_success (q, some e') = (q, some e')
step (some e) on_error on_success (q, none) = (on_error q, some e)
step none on_error on_success (q, none) = (on_success q, none)

-- The steps between the console and the last line: a NIC that cannot be opened closes the others, a
-- process that does not start closes them as well, and a QEMU that does not answer is killed.
unfoldable pub start_steps : StartCalls → Instance → Starting
unfolding close_tap_files_locked
start_steps o q =
    step o.vsock kill_process (λ q. record q { vsock_conn = true; client = true })
      (step (if o.restores then o.load_template else none) (λ q. q)
        (λ q. record q { monitors = true })
        (step o.qmp kill_process (λ q. record q { qmp_client = true })
          (step o.process close_tap_files_locked (λ q. record q { cmd = true; alive = true })
            (step o.spec (λ q. q) (λ q. q)
              (step o.open_taps close_tap_files_locked
                (λ q. record q { tap_files = map (λ f. true) q.tap_files }) (q, none))))))

abbrev pub started : Starting → Instance × Option VmError
started (q, some e) = (rollback_start q, some (start_failed e))
started (q, none) = (record q { state = running }, none)

abbrev pub with_console : StartCalls → Option ℕ → Instance → Instance × Option VmError
with_console o (some e) q = (record q { state = new }, some (start_failed e))
with_console o none q =
    started (start_steps o (record q { console_file = true; console_fifo = true }))

-- `setupConsoleFIFO` makes its FIFO in the state directory and does not make that directory.
abbrev pub console_answer : StartCalls → Instance → Option ℕ
console_answer o q = if q.has_state_dir then o.console else some 0

abbrev pub validated : StartCalls → Option ℕ → Instance → Instance × Option VmError
validated o (some e) q = (record q { state = new }, some (start_failed e))
validated o none q = with_console o (console_answer o q) q

unfoldable pub start : StartCalls → Instance → Instance × Option VmError
unfolding compare_and_swap_state rollback_start start_steps
start o q =
    let (q', swapped) = compare_and_swap_state new starting q in
    if not swapped then (q', some (wrong_state q'.state)) else validated o o.validate q'

-- What happens in the waits of `Shutdown`: whether the process exits while the guest may power off,
-- whether the quit command is sent and works in time, whether the signal can be sent, and whether
-- the process exits after it.
pub record ShutdownCalls : Type 0 where
  pub exits_early : Bool
  pub quit_sent : Bool
  pub exits_after_quit : Bool
  pub kill_sent : Bool
  pub exits_after_kill : Bool

unfoldable pub cleanup_after_failed_kill : Instance → Instance
unfolding close_tap_files_locked
cleanup_after_failed_kill q = close_tap_files_locked (record q { qmp_client = false })

abbrev forget : Instance → Instance
forget q = record q { cmd = false }

abbrev process_gone : Instance → Instance × Option VmError
process_gone q = (forget (record q { alive = false }), none)

abbrev kill_phase : ShutdownCalls → Instance → Instance × Option VmError
kill_phase o q =
    if not o.kill_sent
    then (cleanup_after_failed_kill (forget q), some kill_failed)
    else if o.exits_after_kill
    then process_gone q
    else (cleanup_after_failed_kill (forget q), some no_exit)

unfoldable pub stop_qemu_process : ShutdownCalls → Instance → Instance × Option VmError
unfolding cleanup_after_failed_kill
stop_qemu_process o q =
    if not q.cmd
    then (q, none)
    else if o.exits_early || (q.qmp_client && o.quit_sent && o.exits_after_quit)
    then process_gone q
    else kill_phase o q

unfoldable pub close_client_connections : Instance → Instance
close_client_connections q = record q { client = false; vsock_conn = false; console_fifo = false }

unfoldable pub cleanup_resources : Instance → Instance
unfolding close_tap_files_locked release_lease
cleanup_resources q =
    let q₁ : Instance = record q { qmp_client = false; console_file = false } in
    record (release_lease (close_tap_files_locked q₁)) { has_state_dir = false }

abbrev pub stopped : Instance × Option VmError → Instance × Option VmError
stopped (q, some e) = (q, some e)
stopped (q, none) = (cleanup_resources q, none)

-- The requests to the guest before the process is stopped change nothing here.
unfoldable pub shutdown : ShutdownCalls → Instance → Instance × Option VmError
unfolding compare_and_swap_state close_client_connections stop_qemu_process cleanup_resources
shutdown o q =
    let (q', swapped) = compare_and_swap_state running shut q in
    if not swapped
    then (q', none)
    else stopped (stop_qemu_process o (close_client_connections (record q' { monitors = false })))
