-- ===== src/Supervisor.antt =====
-- internal/guest/vminit/supervisor/monitor.go: the supervisor process is started again after a crash,
-- with a backoff, until there were too many restarts. Times and durations are nanoseconds; the
-- process, the context and the callers of `Stop` are the rounds of the loop.
pub mod Backoff
pub mod Restarts
mod Tests
use spinbox.Common.{
  ℕ, zero, suc, ◌+◌, ◌-◌, ◌*◌, Bool, true, false, not, Option, none, some, List, [], ◌∷◌, ◌++◌, ltb,
  if◌then◌else◌,
}

abbrev pub second : ℕ
second = 1000000000

abbrev pub max_restarts : ℕ
max_restarts = 10

abbrev pub restart_window : ℕ
restart_window = 5 * 60 * second

abbrev pub initial_backoff : ℕ
initial_backoff = 1 * second

abbrev pub max_backoff : ℕ
max_backoff = 30 * second

-- `cmd` is the PID of the command that it holds; `signalled` are the PIDs that got a SIGTERM.
pub record Monitor : Type 0 where
  pub cmd : Option ℕ
  pub pid : ℕ
  pub restarts : ℕ
  pub window_start : ℕ
  pub last_start : Option ℕ
  pub stopped : Bool
  pub signalled : List ℕ

unfoldable pub new_monitor : ℕ → Monitor
new_monitor now = record {
  cmd = none;
  pid = 0;
  restarts = 0;
  window_start = now;
  last_start = none;
  stopped = false;
  signalled = [];
}

-- The reset that `shouldGiveUp` and `recordRestart` begin with.
abbrev pub roll : ℕ → Monitor → Monitor
roll now m =
    if ltb restart_window (now - m.window_start)
    then record m { restarts = 0; window_start = now }
    else m

unfoldable pub should_give_up : ℕ → Monitor → Monitor × Bool
should_give_up now m = let m' = roll now m in (m', not (ltb m'.restarts max_restarts))

unfoldable pub record_restart : ℕ → Monitor → Monitor
record_restart now m = let m' = roll now m in record m' { restarts = m'.restarts + 1 }

-- The loop of `calculateBackoff`: the first number is how many rounds are left.
unfoldable pub double : ℕ → ℕ → ℕ
double zero backoff = backoff
double (suc n) backoff =
    let rest = double n (backoff * 2) in if ltb backoff max_backoff then rest else backoff

-- No restarts leave the loop without a round, which is the early return.
unfoldable pub calculate_backoff : ℕ → ℕ
unfolding double
calculate_backoff restarts =
    let backoff = double restarts initial_backoff in
    if ltb max_backoff backoff then max_backoff else backoff

unfoldable pub start : ℕ → ℕ → Monitor → Monitor
start now pid m = record m { cmd = some pid; pid = pid; last_start = some now }

abbrev pub signal : Option ℕ → List ℕ → List ℕ
signal none pids = pids
signal (some pid) pids = pids ++ pid ∷ []

unfoldable pub stop : Monitor → Monitor
stop m = record m { stopped = true; signalled = signal m.cmd m.signalled }

abbrev pub uptime : Option ℕ → ℕ → ℕ
uptime none now = 0
uptime (some t) now = now - t

unfoldable pub status : ℕ → Monitor → ℕ × ℕ × ℕ
status now m = (m.pid, m.restarts, uptime m.last_start now)

-- What happens around one round of `Run`: the PID of the supervisor if it starts, how long it
-- lasts, whether `Stop` is called meanwhile, whether the context is done when it has exited, how
-- much longer than the backoff the wait takes, whether `Stop` is called in it, and whether the
-- context ends it.
pub record Round : Type 0 where
  pub launch : Option ℕ
  pub lasted : ℕ
  pub stop_called : Bool
  pub cancelled : Bool
  pub late : ℕ
  pub stop_in_backoff : Bool
  pub backoff_cancelled : Bool

pub data Outcome : Type 0 where
  gave_up : Outcome
  returned : Outcome

-- The monitor and the time.
pub record Running : Type 0 where
  pub monitor : Monitor
  pub now : ℕ

abbrev pub stop_if : Bool → Monitor → Monitor
stop_if called m = if called then stop m else m

unfoldable pub wait_backoff : Round → Running → Running × Option Outcome
unfolding calculate_backoff stop
wait_backoff r s = (
  record {
    monitor = stop_if r.stop_in_backoff s.monitor;
    now = s.now + calculate_backoff s.monitor.restarts + r.late;
  },
  (if r.backoff_cancelled then some returned else none),
)

abbrev pub exited : Round → ℕ → Monitor → Running × Option Outcome
exited r now m =
    if m.stopped
    then (record { monitor = m; now = now }, some returned)
    else if r.cancelled
    then (record { monitor = m; now = now }, some returned)
    else wait_backoff r (record { monitor = record_restart now m; now = now })

abbrev pub launched : Round → Option ℕ → Running → Running × Option Outcome
launched r none s = wait_backoff r s
launched r (some pid) s =
    exited r (s.now + r.lasted) (stop_if r.stop_called (start s.now pid s.monitor))

-- One round of the loop of `Run`.
unfoldable pub round : Round → Running → Running × Option Outcome
unfolding should_give_up start stop record_restart wait_backoff
round r s =
    let (m, give_up) = should_give_up s.now s.monitor in
    let s' : Running = record s { monitor = m } in
    if give_up then (s', some gave_up) else launched r r.launch s'

abbrev pub next :
    Running × Option Outcome → (Running → Running × Option Outcome) → Running × Option Outcome
next (s, none) k = k s
next (s, some o) k = (s, some o)

-- `Run` over the rounds that there is time for: no outcome means that it goes on.
unfoldable pub run : List Round → Running → Running × Option Outcome
unfolding round
run [] s = (s, none)
run (r ∷ rs) s = next (round r s) (run rs)
