-- ===== src/Lifecycle/State/Deletion.antt =====
-- `TryStartDeleting` of internal/shim/lifecycle/state.go, alone and with another goroutine
-- between its two compare-and-swaps.
use spinbox.Common.{true, false, ◌≡◌, ◌≢◌, ◌↔◌, ◌⊎◌, arith}
use spinbox.Lifecycle.State.{
  created, running, deleting, StateMachine, try_start_deleting, try_start_deleting_during,
  mark_started,
}

-- Undisturbed, it succeeds exactly in the states created and running; then the machine is
-- deleting and nothing else of it has changed.
pub try_start_deleting_iff :
    (sm : StateMachine)
    → (((try_start_deleting sm).1 ≡ true) ↔ ((sm.state ≡ created) ⊎ (sm.state ≡ running)))
      × ((try_start_deleting sm).1 ≡ true
          → (try_start_deleting sm).0 ≡ record sm { state = deleting })
      × ((try_start_deleting sm).1 ≡ false → (try_start_deleting sm).0 ≡ sm)
unfolding try_start_deleting
try_start_deleting_iff sm = ground arith

-- Whatever other goroutines do in between, a failure means that the machine was not running at
-- the first compare-and-swap and not created at the second, and a success leaves it deleting.
pub try_start_deleting_during_lem :
    (other : StateMachine → StateMachine) (sm : StateMachine)
    → ((try_start_deleting_during other sm).1 ≡ false
        → (sm.state ≢ running) × ((other sm).state ≢ created))
      × ((try_start_deleting_during other sm).1 ≡ true
          → (try_start_deleting_during other sm).0.state ≡ deleting)
unfolding try_start_deleting_during
try_start_deleting_during_lem other sm = ground arith

-- A container that is started between the two compare-and-swaps is refused, though the machine
-- was in a state that can be deleted all the time: created before, running after.
pub try_start_deleting-mark_started :
    (sm : StateMachine)
    → sm.state ≡ created
    → ((try_start_deleting_during (λ m. (mark_started m).0) sm).1 ≡ false)
      × ((try_start_deleting_during (λ m. (mark_started m).0) sm).0.state ≡ running)
unfolding try_start_deleting_during mark_started
try_start_deleting-mark_started sm e = ground arith
