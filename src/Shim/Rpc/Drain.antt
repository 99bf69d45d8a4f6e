-- ===== src/Shim/Rpc/Drain.antt =====
-- The counter of RPCs in flight of internal/shim/task/service.go, and the wait for it, over any
-- interleaving.
use spinbox.Common.{
  ℕ, zero, suc, ◌+◌, ◌≤◌, Bool, true, false, not, ◌&&◌, List, [], ◌∷◌, ◌≡◌, arith, if◌then◌else◌,
}
use spinbox.Shim.Rpc.{
  Phase, rechecking, running, Rpc, Gate, advance, advance_nth, request_shutdown, poll_inflight,
  time_out, is_refused, is_closing, Step, arrive, advance_step, request_step, poll_step,
  time_out_step, Threads, step, run,
}

-- Whether an RPC in this phase is counted.
abbrev pub is_counted : Phase → Bool
is_counted rechecking = true
is_counted running = true
is_counted _ = false

abbrev pub is_running : Phase → Bool
is_running running = true
is_running _ = false

unfoldable pub counted : List Rpc → ℕ
counted [] = 0
counted (r ∷ rs) = (if is_counted r.phase then 1 else 0) + counted rs

-- How many RPCs run that a shutdown does not allow.
unfoldable pub handlers : List Rpc → ℕ
handlers [] = 0
handlers (r ∷ rs) =
    (if is_running r.phase && not r.allow_during_shutdown then 1 else 0) + handlers rs

-- The counter is right; and after the shutdown has seen it at zero no handler runs.
abbrev pub IsCounted : Threads → Type 0
IsCounted (rs, g) =
    (g.inflight ≡ counted rs)
    × (g.drained ≡ true → (g.shutdown_requested ≡ true) × (handlers rs ≡ 0))

-- One RPC's step keeps the sum of the counter and the others, and starts no handler in a shutdown.
advance_nth-counted :
    (n k : ℕ) (rs : List Rpc) (g : Gate)
    → g.inflight ≡ k + counted rs
    → let (rs', g') = advance_nth n rs g in
      (g'.inflight ≡ k + counted rs')
      × (g'.shutdown_requested ≡ g.shutdown_requested)
      × (g'.drained ≡ g.drained)
      × (g.shutdown_requested ≡ true → handlers rs' ≤ handlers rs)
unfolding advance_nth advance is_refused is_closing counted handlers
advance_nth-counted n k [] g h = ground arith
advance_nth-counted zero k (r ∷ rs) g h = ground arith
advance_nth-counted (suc n) k (r ∷ rs) g h =
    ground (arith, advance_nth-counted n (k + (if is_counted r.phase then 1 else 0)) rs g)

handlers-le-counted : (rs : List Rpc) → handlers rs ≤ counted rs
unfolding handlers counted
handlers-le-counted [] = omega arith
handlers-le-counted (r ∷ rs) = ground (arith, handlers-le-counted rs)

step-IsCounted : (x : Step) (t : Threads) → IsCounted t → IsCounted (step x t)
unfolding step request_shutdown poll_inflight time_out counted handlers
step-IsCounted (arrive allow) (rs, g) (c, d) = ground arith
step-IsCounted (advance_step n) (rs, g) (c, d) =
    ground (arith, advance_nth-counted n 0 rs g (omega arith))
step-IsCounted request_step (rs, g) (c, d) = ground arith
step-IsCounted poll_step (rs, g) (c, d) = ground (arith, handlers-le-counted rs)
step-IsCounted time_out_step (rs, g) (c, d) = ground arith

-- Over any interleaving of any number of RPCs with the shutdown: the counter is the number of RPCs
-- that `beginRPC` has counted and that have not ended, and once the shutdown has seen it at zero no
-- RPC runs that a shutdown does not allow, for ever after.
pub run-IsCounted : (xs : List Step) (t : Threads) → IsCounted t → IsCounted (run xs t)
unfolding run
run-IsCounted [] t e = e
run-IsCounted (x ∷ xs) t e = run-IsCounted xs (step x t) (step-IsCounted x t e)
