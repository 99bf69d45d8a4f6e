-- ===== src/Supervisor/Backoff.antt =====
-- The delays of internal/guest/vminit/supervisor/monitor.go.
use spinbox.Common.{ℕ, zero, suc, ◌*◌, ◌^◌, ◌≤◌, min, ◌≡◌, arith}
use spinbox.Supervisor.{initial_backoff, max_backoff, double, calculate_backoff}

pow-suc : (n b : ℕ) → 2 ^ suc n * b ≡ 2 ^ n * (b * 2)
pow-suc n b = grind arith

le-pow : (n b : ℕ) → b ≤ 2 ^ n * b
le-pow zero b = omega arith
le-pow (suc n) b = omega (arith, le-pow n b, pow-suc n b)

double-min : (n b : ℕ) → min max_backoff (double n b) ≡ min max_backoff (2 ^ n * b)
unfolding double
double-min zero b = omega arith
double-min (suc n) b = ground (arith, double-min n (b * 2), pow-suc n b, le-pow (suc n) b)

-- The backoff is a second doubled as often as there were restarts, up to half a minute, also where
-- the number of restarts is large.
pub calculate_backoff-pow :
    (n : ℕ) → calculate_backoff n ≡ min max_backoff (2 ^ n * initial_backoff)
unfolding calculate_backoff
calculate_backoff-pow n = ground (arith, double-min n initial_backoff)
