-- ===== src/Supervisor/Restarts.antt =====
-- Runs of the loop of internal/guest/vminit/supervisor/monitor.go: crashes, failed starts and `Stop`.
use spinbox.Common.{
  ℕ, zero, suc, ◌≢◌, ◌+◌, ◌*◌, ◌≤◌, ◌<◌, true, false, none, some, List, [], ◌∷◌, ◌++◌, ◌≡◌, refl,
  arith, length, All,
}
use spinbox.Supervisor.{
  second, max_restarts, restart_window, new_monitor, calculate_backoff, stop, Round, gave_up,
  returned, Running, wait_backoff, round, run, next,
}

round-bound :
    (r : Round) (s : Running)
    → s.monitor.restarts ≤ max_restarts
    → (round r s).0.monitor.restarts ≤ max_restarts
unfolding round
round-bound r s h = ground arith

-- The number of restarts in a window never exceeds the maximum, whatever happens in the rounds.
pub run-bound :
    (rs : List Round) (s : Running)
    → s.monitor.restarts ≤ max_restarts
    → (run rs s).0.monitor.restarts ≤ max_restarts
unfolding run
run-bound [] s h = h
run-bound (r ∷ rs) s h = let b = round-bound r s h in ground (arith, b, run-bound rs (round r s).0)

-- A round in which the supervisor starts and crashes within `limit`, the time that the wait is late
-- included, and nobody stops it.
abbrev pub IsCrash : ℕ → Round → Type 0
IsCrash limit r =
    (r.launch ≢ none)
    × (r.lasted + r.late ≤ limit)
    × (r.stop_called ≡ false)
    × (r.cancelled ≡ false)
    × (r.stop_in_backoff ≡ false)
    × (r.backoff_cancelled ≡ false)

-- How long so many rounds take at most, the backoffs between them included.
unfoldable pub budget : ℕ → ℕ → ℕ → ℕ
budget limit zero restarts = 0
budget limit (suc n) restarts =
    limit + calculate_backoff (suc restarts) + budget limit n (suc restarts)

round-crash :
    (limit n : ℕ) (r : Round) (s : Running)
    → IsCrash limit r
    → s.monitor.stopped ≡ false
    → s.monitor.restarts < max_restarts
    → s.monitor.window_start ≤ s.now
    → s.now + budget limit (suc n) s.monitor.restarts ≤ s.monitor.window_start + restart_window
    → let (s', o) = round r s in
      (o ≡ none)
      × (s'.monitor.restarts ≡ suc s.monitor.restarts)
      × (s'.monitor.window_start ≡ s.monitor.window_start)
      × (s'.monitor.stopped ≡ false)
      × (s.now ≤ s'.now)
      × (s'.now + budget limit n (suc s.monitor.restarts) ≤ s.monitor.window_start + restart_window)
unfolding round budget
round-crash limit n r s (l, t, a, b, c, d) st h w e = ground arith

-- The rounds of a crash loop that fit in the window are all counted and started, as many as the
-- maximum allows.
run-crash :
    (limit : ℕ) (rs : List Round) (s : Running)
    → All (IsCrash limit) rs
    → s.monitor.stopped ≡ false
    → s.monitor.restarts + length rs ≤ max_restarts
    → s.monitor.window_start ≤ s.now
    → s.now + budget limit (length rs) s.monitor.restarts ≤ s.monitor.window_start + restart_window
    → let (s', o) = run rs s in
      (o ≡ none)
      × (s'.monitor.restarts ≡ s.monitor.restarts + length rs)
      × (s'.monitor.window_start ≡ s.monitor.window_start)
      × (s'.now ≤ s.monitor.window_start + restart_window)
unfolding run
run-crash limit [] s a st h w e = ground arith
run-crash limit (r ∷ rs) s (a, others) st h w e =
    let c = round-crash limit (length rs) r s a st in
    ground (arith, c, run-crash limit rs (round r s).0 others)

run-append : (xs ys : List Round) (s : Running) → run (xs ++ ys) s ≡ next (run xs s) (run ys)
unfolding run
run-append [] ys s = refl
run-append (x ∷ xs) ys s = ground (arith, run-append xs ys (round x s).0)

-- From a new monitor, ten rounds of a crash loop, of at most nine seconds each, all start the
-- supervisor, and the next round gives up.
pub run-gave_up :
    (now : ℕ) (rs : List Round) (r : Round)
    → All (IsCrash (9 * second)) rs
    → length rs ≡ max_restarts
    → let s : Running = record { monitor = new_monitor now; now = now } in
      ((run rs s).1 ≡ none) × ((run (rs ++ r ∷ []) s).1 ≡ some gave_up)
unfolding run round new_monitor budget
run-gave_up now rs r a h =
    let s : Running = record { monitor = new_monitor now; now = now } in
    let fits : budget (9 * second) max_restarts 0 ≤ restart_window = omega arith in
    ground (arith, run-crash (9 * second) rs s, run-append rs (r ∷ []) s)

-- A round in which the supervisor cannot be started and nobody ends the wait.
abbrev pub IsFailedStart : Round → Type 0
IsFailedStart r = (r.launch ≡ none) × (r.backoff_cancelled ≡ false)

-- A supervisor that cannot be started is tried again for ever: no such round is counted as a
-- restart, so the loop gives up after none of them.
pub run-failed_starts :
    (rs : List Round) (s : Running)
    → All IsFailedStart rs
    → s.monitor.restarts < max_restarts
    → let (s', o) = run rs s in (o ≡ none) × (s'.monitor.restarts ≤ s.monitor.restarts)
unfolding run round wait_backoff stop
run-failed_starts [] s a h = ground arith
run-failed_starts (r ∷ rs) s (a, others) h =
    ground (arith, a, run-failed_starts rs (round r s).0 others)

-- After a call of `stop` between two processes the loop starts the supervisor once more, without a
-- signal to it, and returns only when it has exited.
pub round-stopped :
    (r : Round) (pid : ℕ) (s : Running)
    → s.monitor.stopped ≡ true
    → s.monitor.restarts < max_restarts
    → r.launch ≡ some pid
    → r.stop_called ≡ false
    → let (s', o) = round r s in
      (s'.monitor.cmd ≡ some pid)
      × (s'.monitor.signalled ≡ s.monitor.signalled)
      × (s'.now ≡ s.now + r.lasted)
      × (o ≡ some returned)
unfolding round
round-stopped r pid s t h l c = ground arith
