-- ===== src/Hotplug/Monitor.antt =====
-- internal/shim/hotplug/monitor.go. The scaler is an interface over a world `W` and errors `E`.
-- Times are readings of the monotonic clock and durations in one unit; the zero time is `none`.
-- A stability that is zero or negative in the source is 0, and so is such a duration.
pub mod Invariant
pub mod Rate
pub mod Pace
pub mod Lifecycle
mod Tests
use spinbox.Common.{
  ℕ, ◌+◌, ◌-◌, Bool, true, false, not, Option, none, some, List, [], ◌∷◌, ltb, leb, if◌then◌else◌,
}

pub data ScaleDirection : Type 0 where
  scale_none scale_up scale_down : ScaleDirection

pub record MonitorConfig : Type 0 where
  pub scale_up_cooldown : ℕ
  pub scale_down_cooldown : ℕ
  pub scale_up_stability : ℕ
  pub scale_down_stability : ℕ
  pub enable_scale_down : Bool

pub data Evaluation (E : Type 0) : Type 0 where
  direction : ScaleDirection → Evaluation E
  failed : E → Evaluation E

-- The interface that the controllers implement. An error is `some e`.
pub record ResourceScaler (W E : Type 0) : Type 0 where
  pub evaluate_scaling : W → W × Evaluation E
  pub do_scale_up : W → W × Option E
  pub do_scale_down : W → W × Option E

pub record Monitor : Type 0 where
  pub consecutive_high_usage : ℕ
  pub consecutive_low_usage : ℕ
  pub last_scale_up : Option ℕ
  pub last_scale_down : Option ℕ

unfoldable pub new_monitor : Monitor
new_monitor = record {
  consecutive_high_usage = 0;
  consecutive_low_usage = 0;
  last_scale_up = none;
  last_scale_down = none;
}

-- `canScaleUp` and `canScaleDown`: whether the cooldown has elapsed at the time `now`.
unfoldable pub has_elapsed : ℕ → Option ℕ → ℕ → Bool
has_elapsed cooldown none now = true
has_elapsed cooldown (some last) now = leb cooldown (now - last)

-- A round: the clock when the cooldown is checked, and when the scaling has returned.
pub record Tick : Type 0 where
  pub now : ℕ
  pub after : ℕ

-- What follows a call of `ScaleUp` or `ScaleDown`: only a success is recorded.
abbrev pub scaled_up : {W E : Type 0} → ℕ → Monitor → W × Option E → Monitor × W × Option E
scaled_up after m (w, some e) = (m, w, some e)
scaled_up after m (w, none) =
    (record m { last_scale_up = some after; consecutive_high_usage = 0 }, w, none)

abbrev pub scaled_down : {W E : Type 0} → ℕ → Monitor → W × Option E → Monitor × W × Option E
scaled_down after m (w, some e) = (m, w, some e)
scaled_down after m (w, none) =
    (record m { last_scale_down = some after; consecutive_low_usage = 0 }, w, none)

module _ {W E : Type 0} (config : MonitorConfig) (scaler : ResourceScaler W E) where
  unfoldable pub handle_scale_up : Tick → Monitor → W → Monitor × W × Option E
  unfolding has_elapsed
  handle_scale_up t m w =
      if not (has_elapsed config.scale_up_cooldown m.last_scale_up t.now)
      then (m, w, none)
      else let high = m.consecutive_high_usage + 1 in
        let m' = record m { consecutive_high_usage = high; consecutive_low_usage = 0 } in
        if ltb high config.scale_up_stability
        then (m', w, none)
        else scaled_up t.after m' (scaler.do_scale_up w)

  unfoldable pub handle_scale_down : Tick → Monitor → W → Monitor × W × Option E
  unfolding has_elapsed
  handle_scale_down t m w =
      if not (has_elapsed config.scale_down_cooldown m.last_scale_down t.now)
      then (m, w, none)
      else let low = m.consecutive_low_usage + 1 in
        let m' = record m { consecutive_low_usage = low; consecutive_high_usage = 0 } in
        if ltb low config.scale_down_stability
        then (m', w, none)
        else scaled_down t.after m' (scaler.do_scale_down w)

  -- The `switch` of `checkAndAdjust`.
  unfoldable pub adjust : Evaluation E → Tick → Monitor → W → Monitor × W × Option E
  unfolding handle_scale_up handle_scale_down
  adjust (failed e) t m w = (m, w, some e)
  adjust (direction scale_up) t m w = handle_scale_up t m w
  adjust (direction scale_down) t m w =
      if config.enable_scale_down
      then handle_scale_down t m w
      else (record m { consecutive_low_usage = 0 }, w, none)
  adjust (direction scale_none) t m w =
      (record m { consecutive_high_usage = 0; consecutive_low_usage = 0 }, w, none)

  unfoldable pub check_and_adjust : Tick → Monitor → W → Monitor × W × Option E
  unfolding adjust
  check_and_adjust t m w = let (w', e) = scaler.evaluate_scaling w in adjust e t m w'

  -- The rounds of the monitor loop; an error is logged and the loop goes on.
  unfoldable pub run_ticks : List Tick → Monitor → W → Monitor × W
  run_ticks [] m w = (m, w)
  run_ticks (t ∷ ts) m w = let (m', w', err) = check_and_adjust t m w in run_ticks ts m' w'
