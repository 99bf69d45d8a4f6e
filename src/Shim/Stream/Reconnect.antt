-- ===== src/Shim/Stream/Reconnect.antt =====
-- When `reconnectEventStream` of internal/shim/task/service.go ends.
use spinbox.Common.{
  ℕ, ◌+◌, ◌*◌, ◌≤◌, ◌<◌, min, none, some, List, [], ◌∷◌, length, ◌≡◌, arith, Option-cases, inl, inr,
}
use spinbox.Shim.Stream.{
  millisecond, initial_backoff, max_backoff, event_stream_reconnect_timeout, Attempt, Reconnected,
  reconnect_loop, reconnect_event_stream, sleep_with_jitter,
}

-- A loop that is still running has made few attempts, since it sleeps for 40 ms at least.
reconnect_loop-none :
    (deadline backoff now : ℕ) (attempts : List Attempt)
    → initial_backoff ≤ backoff
    → reconnect_loop deadline backoff now attempts ≡ none
    → now + length attempts * (40 * millisecond) < deadline
unfolding reconnect_loop sleep_with_jitter
reconnect_loop-none deadline backoff now [] b h = ground arith
reconnect_loop-none deadline backoff now (a ∷ attempts) b h =
    let next = min (backoff * 2) max_backoff in
    let later = now + a.took + sleep_with_jitter backoff a.jitter in
    ground (arith, reconnect_loop-none deadline next later attempts)

-- The reconnect ends within fifty rounds, with a client or without, whatever the rounds meet and
-- however long they take.
pub reconnect_event_stream-returns :
    (now : ℕ) (attempts : List Attempt)
    → length attempts ≡ 50
    → (r : Reconnected) × (reconnect_event_stream now attempts ≡ some r)
unfolding reconnect_event_stream
reconnect_event_stream-returns now attempts h =
    let deadline = now + event_stream_reconnect_timeout in
    elim (Option-cases (reconnect_loop deadline initial_backoff now attempts)) [
      | inl e ↦
          absurd (
            omega
              (arith, reconnect_loop-none deadline initial_backoff now attempts (omega arith) e))
      | inr r ↦ r
    ]
