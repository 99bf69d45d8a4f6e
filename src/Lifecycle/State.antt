-- ===== src/Lifecycle/State.antt =====
-- internal/shim/lifecycle/state.go: the shim's state machine. Each method is one atomic
-- operation (a load, a store, a swap or a compare-and-swap), except `TryStartDeleting`, which makes
-- two, and `Transition`, which reads the state once more to report an error. `error` is `Option`.
pub mod Diagram
pub mod Exclusion
pub mod Deletion
mod Tests
use spinbox.Common.{
  ℕ, String, Bool, true, false, ◌||◌, Option, none, some, List, [], ◌∷◌, ◌==◌ as nat_beq,
  if◌then◌else◌,
}

pub data ShimState : Type 0 where
  idle creating created running shutting_down deleting : ShimState

-- The `iota` values.
abbrev pub to_int : ShimState → ℕ
to_int idle = 0
to_int creating = 1
to_int created = 2
to_int running = 3
to_int shutting_down = 4
to_int deleting = 5

infix 50 ◌==◌
abbrev pub ◌==◌ : ShimState → ShimState → Bool
s == t = nat_beq (to_int s) (to_int t)

unfoldable pub to_string : ShimState → String
to_string idle = "idle"
to_string creating = "creating"
to_string created = "created"
to_string running = "running"
to_string shutting_down = "shutting_down"
to_string deleting = "deleting"

pub record StateTransitionError : Type 0 where
  pub from : String
  pub to : String
  pub current : String

pub record StateMachine : Type 0 where
  pub state : ShimState
  pub intentional_shutdown : Bool

unfoldable pub new_state_machine : StateMachine
new_state_machine = record { state = idle; intentional_shutdown = false }

unfoldable pub is_intentional_shutdown : StateMachine → Bool
is_intentional_shutdown sm = sm.intentional_shutdown

unfoldable pub set_intentional_shutdown : Bool → StateMachine → StateMachine
set_intentional_shutdown v sm = record sm { intentional_shutdown = v }

-- `atomic.Int32.CompareAndSwap`: the swap happens only if the state is the expected one.
unfoldable pub compare_and_swap : ShimState → ShimState → StateMachine → StateMachine × Bool
compare_and_swap from to sm =
    if sm.state == from then (record sm { state = to }, true) else (sm, false)

unfoldable pub new_state_transition_error :
    ShimState → ShimState → StateMachine → StateTransitionError
unfolding to_string
new_state_transition_error from to sm = record {
  from = to_string from;
  to = to_string to;
  current = to_string sm.state;
}

unfoldable pub is_valid_switch : ShimState → ShimState → Bool
is_valid_switch idle to = to == creating
is_valid_switch creating to = to == created || to == idle
is_valid_switch created to = to == running || to == shutting_down
is_valid_switch running to = to == deleting || to == shutting_down
is_valid_switch deleting to = to == shutting_down
is_valid_switch shutting_down to = false

unfoldable pub is_valid_transition : ShimState → ShimState → Bool
unfolding is_valid_switch
is_valid_transition from to = if to == shutting_down then true else is_valid_switch from to

-- The compare-and-swap that `Transition` and the `Mark` methods turn into an error if it fails.
unfoldable pub swap_or_error :
    ShimState → ShimState → StateMachine → StateMachine × Option StateTransitionError
unfolding compare_and_swap
swap_or_error from to sm =
    let (sm', swapped) = compare_and_swap from to sm in
    if swapped then (sm', none) else (sm', some (new_state_transition_error from to sm'))

unfoldable pub transition :
    ShimState → ShimState → StateMachine → StateMachine × Option StateTransitionError
unfolding is_valid_transition swap_or_error
transition from to sm =
    if is_valid_transition from to
    then swap_or_error from to sm
    else (sm, some (new_state_transition_error from to sm))

unfoldable pub force_transition : ShimState → StateMachine → StateMachine × ShimState
force_transition to sm = (record sm { state = to }, sm.state)

unfoldable pub try_start_creating : StateMachine → StateMachine × Bool
unfolding compare_and_swap
try_start_creating sm = compare_and_swap idle creating sm

-- `other` is what other goroutines do to the machine between the two compare-and-swaps.
unfoldable pub try_start_deleting_during :
    (StateMachine → StateMachine) → StateMachine → StateMachine × Bool
unfolding compare_and_swap
try_start_deleting_during other sm =
    let (sm', swapped) = compare_and_swap running deleting sm in
    if swapped then (sm', true) else compare_and_swap created deleting (other sm')

unfoldable pub try_start_deleting : StateMachine → StateMachine × Bool
unfolding try_start_deleting_during
try_start_deleting = try_start_deleting_during (λ sm. sm)

unfoldable pub mark_created : StateMachine → StateMachine × Option StateTransitionError
unfolding swap_or_error
mark_created sm = swap_or_error creating created sm

unfoldable pub mark_started : StateMachine → StateMachine × Option StateTransitionError
unfolding swap_or_error
mark_started sm = swap_or_error created running sm

unfoldable pub mark_creation_failed : StateMachine → StateMachine × Option StateTransitionError
unfolding swap_or_error
mark_creation_failed sm = swap_or_error creating idle sm

unfoldable pub is_shutting_down : StateMachine → Bool
is_shutting_down sm = sm.state == shutting_down

unfoldable pub is_created_not_started : StateMachine → Bool
is_created_not_started sm = sm.state == created

unfoldable pub can_accept_requests : StateMachine → Bool
can_accept_requests sm = sm.state == running || sm.state == creating || sm.state == created

-- A call of one of the methods, whole.
pub data Call : Type 0 where
  transition_call : ShimState → ShimState → Call
  force_call : ShimState → Call
  set_intentional_call : Bool → Call
  start_creating_call start_deleting_call mark_created_call mark_started_call : Call
  mark_creation_failed_call : Call

abbrev is_nil {ℓ} : {A : Type ℓ} → Option A → Bool
is_nil none = true
is_nil (some e) = false

-- Every call but the forced one, which skips the transition rules.
abbrev pub IsUnforced : Call → Type 0
IsUnforced (force_call to) = ⊥
IsUnforced _ = Unit {0}

-- The machine after a call, and whether the call succeeded.
unfoldable pub call : Call → StateMachine → StateMachine × Bool
unfolding transition force_transition set_intentional_shutdown try_start_creating try_start_deleting
    mark_created mark_started mark_creation_failed
call (transition_call from to) sm = let (sm', e) = transition from to sm in (sm', is_nil e)
call (force_call to) sm = let (sm', old) = force_transition to sm in (sm', true)
call (set_intentional_call v) sm = (set_intentional_shutdown v sm, true)
call start_creating_call sm = try_start_creating sm
call start_deleting_call sm = try_start_deleting sm
call mark_created_call sm = let (sm', e) = mark_created sm in (sm', is_nil e)
call mark_started_call sm = let (sm', e) = mark_started sm in (sm', is_nil e)
call mark_creation_failed_call sm = let (sm', e) = mark_creation_failed sm in (sm', is_nil e)

-- Any interleaving of calls by any goroutines.
unfoldable pub run : List Call → StateMachine → StateMachine
run [] sm = sm
run (c ∷ cs) sm = run cs (call c sm).0
