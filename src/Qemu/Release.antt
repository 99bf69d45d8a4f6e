-- ===== src/Qemu/Release.antt =====
-- What an instance of internal/host/vm/qemu holds at the end of `Start` and `Shutdown`.
use spinbox.Common.{
  ℕ, Bool, true, false, Option, none, some, List, [], ◌∷◌, ◌≡◌, ◌≢◌, arith, ap, sym, ◌∙◌, not, ◌⊎◌,
  All, if◌then◌else◌,
}
use spinbox.Qemu.{
  new, starting, shut, Instance, VmError, start_failed, add_disk, add_tap_nic,
  compare_and_swap_state, close_tap_files_locked, release_lease, rollback_start, StartCalls, start,
  start_steps, started, stopped, with_console, console_answer, validated, wrong_state, ◌==◌,
  ShutdownCalls, shutdown, stop_qemu_process, close_client_connections, cleanup_resources,
  cleanup_after_failed_kill, DiskConfig,
}

pub data Call : Type 0 where
  add_disk_call : DiskConfig → Call
  add_tap_call : Call
  start_call : StartCalls → Call
  shutdown_call : ShutdownCalls → Call

unfoldable pub call : Call → Instance → Instance
unfolding add_disk add_tap_nic start shutdown
call (add_disk_call d) q = (add_disk d q).0
call add_tap_call q = (add_tap_nic q).0
call (start_call o) q = (start o q).0
call (shutdown_call o) q = (shutdown o q).0

unfoldable pub run : List Call → Instance → Instance
unfolding call
run [] q = q
run (c ∷ cs) q = run cs (call c q)

-- The lease of this CID is either held, and was never released, or was released once.
abbrev pub IsLeasedOnce : ℕ → Instance → Type 0
IsLeasedOnce cid q =
    ((q.cid_lease ≡ some cid) × (q.released ≡ []))
    ⊎ ((q.cid_lease ≡ none) × (q.released ≡ cid ∷ []))

-- The lease and what was released are the same.
abbrev IsSame : Instance → Instance → Type 0
IsSame q q' = (q'.cid_lease ≡ q.cid_lease) × (q'.released ≡ q.released)

start_steps-IsSame : (o : StartCalls) (q : Instance) → IsSame q (start_steps o q).0
unfolding start_steps close_tap_files_locked
start_steps-IsSame o q = ground arith

stop-IsSame : (o : ShutdownCalls) (q : Instance) → IsSame q (stop_qemu_process o q).0
unfolding stop_qemu_process cleanup_after_failed_kill close_tap_files_locked
stop-IsSame o q = ground arith

same-IsLeasedOnce :
    (cid : ℕ) (q q' : Instance) → IsSame q q' → IsLeasedOnce cid q → IsLeasedOnce cid q'
same-IsLeasedOnce cid q q' s h = ground arith

rollback-IsLeasedOnce :
    (cid : ℕ) (q : Instance) → IsLeasedOnce cid q → IsLeasedOnce cid (rollback_start q)
unfolding rollback_start release_lease close_tap_files_locked
rollback-IsLeasedOnce cid q h = ground arith

started-IsLeasedOnce :
    (cid : ℕ) (x : Instance × Option ℕ) → IsLeasedOnce cid x.0 → IsLeasedOnce cid (started x).0
started-IsLeasedOnce cid (q, some e) h = rollback-IsLeasedOnce cid q h
started-IsLeasedOnce cid (q, none) h = h

with_console-IsLeasedOnce :
    (cid : ℕ) (o : StartCalls) (e : Option ℕ) (q : Instance)
    → IsLeasedOnce cid q
    → IsLeasedOnce cid (with_console o e q).0
with_console-IsLeasedOnce cid o (some e) q h = h
with_console-IsLeasedOnce cid o none q h =
    let q' : Instance = record q { console_file = true; console_fifo = true } in
    started-IsLeasedOnce cid (start_steps o q')
      (same-IsLeasedOnce cid q' (start_steps o q').0 (start_steps-IsSame o q') h)

validated-IsLeasedOnce :
    (cid : ℕ) (o : StartCalls) (e : Option ℕ) (q : Instance)
    → IsLeasedOnce cid q
    → IsLeasedOnce cid (validated o e q).0
validated-IsLeasedOnce cid o (some e) q h = h
validated-IsLeasedOnce cid o none q h = with_console-IsLeasedOnce cid o (console_answer o q) q h

-- The two outcomes of the compare-and-swap of `Start`.
choice-IsLeasedOnce :
    (cid : ℕ) (b : Bool) (o : StartCalls) (q : Instance)
    → IsLeasedOnce cid q
    → IsLeasedOnce cid (validated o o.validate (record q { state = starting })).0
    → let x : Instance × Bool = if b then (record q { state = starting }, true) else (q, false) in
      let y : Instance × Option VmError =
        if not x.1 then (x.0, some (wrong_state x.0.state)) else validated o o.validate x.0 in
      IsLeasedOnce cid y.0
choice-IsLeasedOnce cid true o q h v = v
choice-IsLeasedOnce cid false o q h v = h

start-IsLeasedOnce :
    (cid : ℕ) (o : StartCalls) (q : Instance) → IsLeasedOnce cid q → IsLeasedOnce cid (start o q).0
unfolding start compare_and_swap_state
start-IsLeasedOnce cid o q h =
    choice-IsLeasedOnce cid (q.state == new) o q h
      (validated-IsLeasedOnce cid o o.validate (record q { state = starting }) h)

cleanup-IsLeasedOnce :
    (cid : ℕ) (x : Instance × Option VmError)
    → IsLeasedOnce cid x.0
    → IsLeasedOnce cid (stopped x).0
unfolding cleanup_resources release_lease close_tap_files_locked
cleanup-IsLeasedOnce cid (q, some e) h = h
cleanup-IsLeasedOnce cid (q, none) h = ground arith

call-IsLeasedOnce :
    (cid : ℕ) (c : Call) (q : Instance) → IsLeasedOnce cid q → IsLeasedOnce cid (call c q)
unfolding call shutdown add_disk add_tap_nic compare_and_swap_state close_client_connections
call-IsLeasedOnce cid (add_disk_call d) q h = ground arith
call-IsLeasedOnce cid add_tap_call q h = ground arith
call-IsLeasedOnce cid (start_call o) q h = start-IsLeasedOnce cid o q h
call-IsLeasedOnce cid (shutdown_call o) q h =
    let q' : Instance = close_client_connections (record q { state = shut; monitors = false }) in
    let same = same-IsLeasedOnce cid q' (stop_qemu_process o q').0 (stop-IsSame o q') h in
    let done = cleanup-IsLeasedOnce cid (stop_qemu_process o q') same in ground (arith, done)

-- Over any sequence of calls on a new instance, whatever QEMU, the guest and the kernel answer: the
-- lease of its CID is held and was never released, or it was released exactly once.
pub run-IsLeasedOnce :
    (cid : ℕ) (cs : List Call) (q : Instance) → IsLeasedOnce cid q → IsLeasedOnce cid (run cs q)
unfolding run
run-IsLeasedOnce cid [] q h = h
run-IsLeasedOnce cid (c ∷ cs) q h = run-IsLeasedOnce cid cs (call c q) (call-IsLeasedOnce cid c q h)

-- No handle, file or lease is left.
abbrev pub IsReleased : Instance → Type 0
IsReleased q =
    (q.cid_lease ≡ none)
    × (q.has_state_dir ≡ false)
    × (q.client ≡ false)
    × (q.vsock_conn ≡ false)
    × (q.qmp_client ≡ false)
    × (q.console_file ≡ false)
    × (q.console_fifo ≡ false)
    × (q.cmd ≡ false)
    × All (λ f. f ≡ false) q.tap_files

abbrev pub all_well : StartCalls
all_well = record {
  validate = none;
  console = none;
  open_taps = none;
  spec = none;
  process = none;
  qmp = none;
  restores = false;
  load_template = none;
  vsock = none;
}

started-failed :
    (x : Instance × Option ℕ) (e : ℕ)
    → (started x).1 ≡ some (start_failed e)
    → let q = (started x).0 in (q.state ≡ new) × (q.cid_lease ≡ none) × (q.has_state_dir ≡ false)
unfolding rollback_start release_lease close_tap_files_locked
started-failed (q, some f) e h = ground arith
started-failed (q, none) e h = absurd (ground arith)

start-is_started :
    (o : StartCalls) (q : Instance)
    → q.state ≡ new
    → q.has_state_dir ≡ true
    → o.validate ≡ none
    → o.console ≡ none
    → let q' : Instance = record q { state = starting; console_file = true; console_fifo = true } in
      start o q ≡ started (start_steps o q')
unfolding start compare_and_swap_state
start-is_started o q n d v c = ground arith

-- Each start of a sequence, one after the other, fails, and none leaves a process behind that was not
-- there before.
unfoldable pub AllFail : List StartCalls → Instance → Type 0
unfolding start
AllFail [] q = Unit {0}
AllFail (o ∷ os) q =
    ((start o q).1 ≢ none) × ((start o q).0.alive ≡ q.alive) × AllFail os (start o q).0

start-no_directory :
    (o : StartCalls) (q : Instance)
    → q.state ≡ new
    → q.has_state_dir ≡ false
    → let (q', e) = start o q in
      (q'.state ≡ new) × (q'.has_state_dir ≡ false) × (q'.alive ≡ q.alive) × (e ≢ none)
unfolding start compare_and_swap_state
start-no_directory o q n d = ground arith

no_directory-AllFail :
    (os : List StartCalls) (q : Instance) → q.state ≡ new → q.has_state_dir ≡ false → AllFail os q
unfolding AllFail
no_directory-AllFail [] q n d = tt
no_directory-AllFail (o ∷ os) q n d =
    let (n', d', a, e) = start-no_directory o q n d in
    (e, a, no_directory-AllFail os (start o q).0 n' d')

-- After a start that failed past the console the instance is new again, so that a start is let in;
-- but its lease and its state directory are gone, and the console needs that directory: every later
-- start fails, whatever else is answered.
pub start-not_again :
    (o : StartCalls) (q : Instance) (e : ℕ) (os : List StartCalls)
    → q.state ≡ new
    → q.has_state_dir ≡ true
    → o.validate ≡ none
    → o.console ≡ none
    → (start o q).1 ≡ some (start_failed e)
    → let q' = (start o q).0 in
      (q'.state ≡ new) × (q'.cid_lease ≡ none) × (q'.has_state_dir ≡ false) × AllFail os q'
start-not_again o q e os n d v c h =
    let q₁ : Instance = record q { state = starting; console_file = true; console_fifo = true } in
    let same = start-is_started o q n d v c in
    let (s, l, f) = started-failed (start_steps o q₁) e (ap (λ x. x.1) (sym same) ∙ h) in
    let s' = ap (λ x. x.0.state) same ∙ s in
    let f' = ap (λ x. x.0.has_state_dir) same ∙ f in
    (s', ap (λ x. x.0.cid_lease) same ∙ l, f', no_directory-AllFail os (start o q).0 s' f')
