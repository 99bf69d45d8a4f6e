-- ===== src/Lifecycle/Vm/Retry.antt =====
-- When `DialClientWithRetry` of internal/shim/lifecycle/vm.go ends.
use spinbox.Common.{
  ℕ, ◌+◌, ◌*◌, ◌≤◌, ◌<◌, min, Option, none, some, List, [], ◌∷◌, length, ◌≡◌, refl, arith,
  Option-cases, inl, inr, ◌⊎◌,
}
use spinbox.Lifecycle.Vm.{
  Result, ok, err, vsock_retry_initial_backoff, vsock_retry_max_backoff, Attempt, dialed,
  dial_client, dial_loop, dial_client_with_retry,
}

dialed-none :
    {C : Type 0} (deadline now : ℕ) (r : Result C) (next : Option (Result C))
    → dialed deadline now r next ≡ none
    → (next ≡ none) × (now ≤ deadline)
dialed-none deadline now (ok c) next h = absurd (ground arith)
dialed-none deadline now (err e) next h = ground arith

module _ {I C : Type 0} where
  -- A loop that is still running has made few attempts, since it sleeps after each.
  dial_loop-none :
      (deadline backoff now : ℕ) (attempts : List (Attempt I C))
      → vsock_retry_initial_backoff ≤ backoff
      → dial_loop deadline backoff now attempts ≡ none
      → (attempts ≡ [])
        ⊎ (now + length attempts * vsock_retry_initial_backoff
            ≤ deadline + vsock_retry_initial_backoff)
  unfolding dial_loop
  dial_loop-none deadline backoff now [] b h = inl refl
  dial_loop-none deadline backoff now (a ∷ attempts) b h =
      let next = min (backoff * 2) vsock_retry_max_backoff in
      let later = now + a.took + backoff + a.late in
      let still =
        dialed-none deadline (now + a.took) (dial_client a.dial a.manager)
          (dial_loop deadline next later attempts) h in
      let rest = dial_loop-none deadline next later attempts (omega arith) still.0 in
      ground (arith, rest, still)

  -- Given more attempts than the time that it may wait has initial backoffs, and one, the dial
  -- returns a client or an error within them, whatever they meet and however long they take.
  pub dial_client_with_retry-returns :
      (max_wait now : ℕ) (attempts : List (Attempt I C))
      → max_wait + vsock_retry_initial_backoff < length attempts * vsock_retry_initial_backoff
      → (r : Result C) × (dial_client_with_retry max_wait now attempts ≡ some r)
  unfolding dial_client_with_retry
  dial_client_with_retry-returns max_wait now attempts h =
      elim (Option-cases (dial_loop (now + max_wait) vsock_retry_initial_backoff now attempts)) [
        | inl e ↦
            let few =
              dial_loop-none (now + max_wait) vsock_retry_initial_backoff now attempts (omega arith)
                e in
            absurd (ground arith)
        | inr r ↦ r
      ]
