-- ===== src/Hotplug/Monitor/Tests.antt =====
-- Runs of internal/shim/hotplug/monitor.go with a scaler whose world counts the evaluations.
use spinbox.Common.{ℕ, ◌+◌, ◌*◌, ◌≤◌, true, none, some, List, [], ◌∷◌, arith}
use spinbox.Hotplug.Monitor.{
  scale_up, MonitorConfig, direction, ResourceScaler, Monitor, new_monitor, Tick, run_ticks,
}
use spinbox.Hotplug.Monitor.Rate.{metered, unmetered, scalings_need_readings}
use spinbox.Hotplug.Monitor.Pace.{end_of, scalings_need_time}
use spinbox.Hotplug.Monitor.Lifecycle.{Lifecycle, open_ch}

abbrev config : MonitorConfig
config = record {
  scale_up_cooldown = 10;
  scale_down_cooldown = 20;
  scale_up_stability = 2;
  scale_down_stability = 3;
  enable_scale_down = true;
}

abbrev scaler : ResourceScaler ℕ ℕ
scaler = record {
  evaluate_scaling = λ w. (w + 1, direction scale_up);
  do_scale_up = λ w. (w, none);
  do_scale_down = λ w. (w, some 3);
}

abbrev ticks : List Tick
ticks =
    record { now = 1; after = 2 }
    ∷ record { now = 6; after = 8 }
    ∷ record { now = 11; after = 12 }
    ∷ record { now = 21; after = 22 }
    ∷ []

scalings_need_readings_example :
    let s = (run_ticks config (metered scaler) ticks new_monitor (unmetered 0)).1 in
    (s.ups_done * 2 ≤ s.ups_read) × (s.downs_done * 3 ≤ s.downs_read)
scalings_need_readings_example = scalings_need_readings config scaler ticks 0

scalings_need_time_example :
    let s = (run_ticks config (metered scaler) ticks new_monitor (unmetered 0)).1 in
    (0 + s.ups_done * 10 ≤ end_of 0 ticks + 10) × (0 + s.downs_done * 20 ≤ end_of 0 ticks + 20)
scalings_need_time_example = scalings_need_time config scaler ticks 0 0 (
  omega arith,
  omega arith,
  (omega arith, omega arith, (omega arith, omega arith, (omega arith, omega arith, tt))),
)

abbrev just_scaled : Monitor
just_scaled = record {
  consecutive_high_usage = 0;
  consecutive_low_usage = 2;
  last_scale_up = some 5;
  last_scale_down = none;
}

abbrev started : Lifecycle
started = record { stop_ch = open_ch; stopped_ch = open_ch; started = true; loops = 1 }
