-- ===== src/Shim/Rpc.antt =====
-- How the RPCs of internal/shim/task/service.go are counted, and how a shutdown waits for them. An
-- RPC is a thread with a program counter: the steps of `beginRPC`, each one access of an atomic
-- variable, then the handler, then the deferred `done`. `inflight` stops at 0 here.
pub mod Drain
use spinbox.Common.{
  ℕ, zero, suc, ◌+◌, ◌-◌, Bool, true, false, not, ◌&&◌, ◌||◌, List, [], ◌∷◌, ◌==◌, if◌then◌else◌,
}
use spinbox.Lifecycle.State.{
  StateMachine, is_shutting_down, force_transition, shutting_down, new_state_machine,
}

pub data Phase : Type 0 where
  checking adding rechecking running refused returned : Phase

pub record Rpc : Type 0 where
  pub allow_during_shutdown : Bool
  pub phase : Phase

-- The fields that `beginRPC` and the shutdown share. `drained` is whether the shutdown has seen no
-- RPC in flight, and `has_waited` whether its wait is over, which a timeout can end too.
pub record Gate : Type 0 where
  pub shutdown_requested : Bool
  pub state_machine : StateMachine
  pub inflight : ℕ
  pub drained : Bool
  pub has_waited : Bool

unfoldable pub new_gate : Gate
unfolding new_state_machine
new_gate = record {
  shutdown_requested = false;
  state_machine = new_state_machine;
  inflight = 0;
  drained = false;
  has_waited = false;
}

-- `isShuttingDown`.
unfoldable pub is_closing : Gate → Bool
unfolding is_shutting_down
is_closing g = g.shutdown_requested || is_shutting_down g.state_machine

-- `!allowDuringShutdown && s.isShuttingDown()`.
unfoldable pub is_refused : Rpc → Gate → Bool
unfolding is_closing
is_refused r g = not r.allow_during_shutdown && is_closing g

-- The next step of a thread in a phase.
abbrev pub advance_in : Phase → Rpc → Gate → Rpc × Gate
advance_in checking r g =
    if is_refused r g then (record r { phase = refused }, g) else (record r { phase = adding }, g)
advance_in adding r g = (record r { phase = rechecking }, record g { inflight = g.inflight + 1 })
advance_in rechecking r g =
    if is_refused r g
    then (record r { phase = refused }, record g { inflight = g.inflight - 1 })
    else (record r { phase = running }, g)
advance_in running r g = (record r { phase = returned }, record g { inflight = g.inflight - 1 })
advance_in refused r g = (r, g)
advance_in returned r g = (r, g)

unfoldable pub advance : Rpc → Gate → Rpc × Gate
unfolding is_refused
advance r g = advance_in r.phase r g

-- The start of `requestShutdownAndExit`, which runs once.
unfoldable pub request_shutdown : Gate → Gate
unfolding force_transition
request_shutdown g = record g {
  shutdown_requested = true;
  state_machine = (force_transition shutting_down g.state_machine).0;
}

-- A look at the counter in the wait that follows.
unfoldable pub poll_inflight : Gate → Gate
poll_inflight g =
    if g.shutdown_requested && g.inflight == 0
    then record g { drained = true; has_waited = true }
    else g

unfoldable pub time_out : Gate → Gate
time_out g = if g.shutdown_requested then record g { has_waited = true } else g

-- The n-th RPC makes a step.
unfoldable pub advance_nth : ℕ → List Rpc → Gate → List Rpc × Gate
unfolding advance
advance_nth n [] g = ([], g)
advance_nth zero (r ∷ rs) g = let (r', g') = advance r g in (r' ∷ rs, g')
advance_nth (suc n) (r ∷ rs) g = let (rs', g') = advance_nth n rs g in (r ∷ rs', g')

pub data Step : Type 0 where
  arrive : Bool → Step
  advance_step : ℕ → Step
  request_step poll_step time_out_step : Step

-- The RPCs, newest first, and the gate.
abbrev pub Threads : Type 0
Threads = List Rpc × Gate

unfoldable pub step : Step → Threads → Threads
unfolding advance_nth request_shutdown poll_inflight time_out
step (arrive allow) (rs, g) = (record { allow_during_shutdown = allow; phase = checking } ∷ rs, g)
step (advance_step n) (rs, g) = advance_nth n rs g
step request_step (rs, g) = (rs, request_shutdown g)
step poll_step (rs, g) = (rs, poll_inflight g)
step time_out_step (rs, g) = (rs, time_out g)

-- Any interleaving of the RPCs and the shutdown.
unfoldable pub run : List Step → Threads → Threads
unfolding step
run [] t = t
run (x ∷ xs) t = run xs (step x t)
