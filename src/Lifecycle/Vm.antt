-- ===== src/Lifecycle/Vm.antt =====
-- `Manager` of internal/shim/lifecycle/vm.go: one VM for a manager, and the dial with retries. What
-- `qemu.NewInstance`, `Instance.DialClient` and `Instance.Shutdown` answer are arguments; durations
-- are nanoseconds.
pub mod Retry
mod Tests
use spinbox.Common.{
  ℕ, ◌+◌, ◌*◌, min, Bool, true, false, not, ◌||◌, Option, none, some, List, [], ◌∷◌, ltb,
  if◌then◌else◌,
}

-- The errors that the manager returns or looks at.
pub data VmError : Type 0 where
  already_exists failed_precondition unavailable : VmError
  econnrefused econnreset enodev epipe ttrpc_closed : VmError
  other : VmError

pub data Result (A : Type 0) : Type 0 where
  ok : A → Result A
  err : VmError → Result A

unfoldable pub is_transient_vsock_error : VmError → Bool
is_transient_vsock_error failed_precondition = true
is_transient_vsock_error unavailable = true
is_transient_vsock_error econnrefused = true
is_transient_vsock_error econnreset = true
is_transient_vsock_error enodev = true
is_transient_vsock_error epipe = true
is_transient_vsock_error ttrpc_closed = true
is_transient_vsock_error already_exists = false
is_transient_vsock_error other = false

abbrev pub millisecond : ℕ
millisecond = 1000000

abbrev pub vsock_retry_initial_backoff : ℕ
vsock_retry_initial_backoff = 20 * millisecond

abbrev pub vsock_retry_max_backoff : ℕ
vsock_retry_max_backoff = 500 * millisecond

pub record Manager (I : Type 0) : Type 0 where
  pub instance_of : Option I

-- What an attempt to dial meets: the manager, the answer of its instance, how long it takes, and
-- how much longer than asked the sleep after it is.
pub record Attempt (I C : Type 0) : Type 0 where
  pub manager : Manager I
  pub dial : I → Result C
  pub took : ℕ
  pub late : ℕ

abbrev pub new_manager : {I : Type 0} → Manager I
new_manager = record { instance_of = none }

-- What `qemu.NewInstance` returns. An error of `findQemu` or of the directory comes with a nil
-- interface. One of `newInstance` comes with its nil pointer, which is not equal to nil once it is a
-- `vm.Instance`: this value is the `some` of `not_made`. What is called on it later panics,
-- which is not modelled.
pub data NewInstance (I : Type 0) : Type 0 where
  instance_made : I → NewInstance I
  not_made : Option I → VmError → NewInstance I

-- Both results are assigned before the error is looked at.
abbrev pub created : {I : Type 0} → Manager I → NewInstance I → Manager I × Result I
created m (instance_made i) = (record { instance_of = some i }, ok i)
created m (not_made left e) = (record { instance_of = left }, err e)

-- Whether the state directory can be made, and what `qemu.NewInstance` returns.
unfoldable pub create_vm : {I : Type 0} → Bool → NewInstance I → Manager I → Manager I × Result I
create_vm makes_directory r m = elim m.instance_of [
  | some i ↦ (m, err already_exists)
  | none ↦ if makes_directory then created m r else (m, err other)
]

unfoldable pub current_instance : {I : Type 0} → Manager I → Result I
current_instance m = elim m.instance_of [ none ↦ err failed_precondition | some i ↦ ok i ]

unfoldable pub dial_client : {I C : Type 0} → (I → Result C) → Manager I → Result C
dial_client dial m = elim m.instance_of [ none ↦ err failed_precondition | some i ↦ dial i ]

-- The instance to shut down, if there is one.
unfoldable pub shutdown : {I : Type 0} → Manager I → Manager I × Option I
shutdown m = (record { instance_of = none }, m.instance_of)

-- What follows an attempt that has ended at `now`.
abbrev pub dialed : {C : Type 0} → ℕ → ℕ → Result C → Option (Result C) → Option (Result C)
dialed deadline now (ok c) next = some (ok c)
dialed deadline now (err e) next =
    if not (is_transient_vsock_error e) || ltb deadline now then some (err e) else next

-- The loop of `DialClientWithRetry` over the attempts that there is time for.
unfoldable pub dial_loop : {I C : Type 0} → ℕ → ℕ → ℕ → List (Attempt I C) → Option (Result C)
unfolding dial_client is_transient_vsock_error
dial_loop deadline backoff now [] = none
dial_loop deadline backoff now (a ∷ attempts) =
    dialed deadline (now + a.took) (dial_client a.dial a.manager) (
      dial_loop deadline (min (backoff * 2) vsock_retry_max_backoff)
        (now + a.took + backoff + a.late) attempts)

unfoldable pub dial_client_with_retry :
    {I C : Type 0} → ℕ → ℕ → List (Attempt I C) → Option (Result C)
unfolding dial_loop
dial_client_with_retry max_wait now attempts =
    dial_loop (now + max_wait) vsock_retry_initial_backoff now attempts
