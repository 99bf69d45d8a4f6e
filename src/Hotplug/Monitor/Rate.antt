-- ===== src/Hotplug/Monitor/Rate.antt =====
-- How often the monitor of internal/shim/hotplug/monitor.go scales, over any run of its loop.
use spinbox.Common.{ℕ, ◌+◌, ◌*◌, ◌≤◌, Option, none, some, List, [], ◌∷◌, arith}
use spinbox.Hotplug.Monitor.{
  scale_none, scale_up, scale_down, MonitorConfig, Evaluation, direction, failed, ResourceScaler,
  Monitor, Tick, scaled_up, scaled_down, check_and_adjust, run_ticks, adjust, new_monitor,
}

-- A world with counters: the readings in each direction, and the scalings that succeeded.
pub record Metered (W : Type 0) : Type 0 where
  pub world : W
  pub ups_read : ℕ
  pub ups_done : ℕ
  pub downs_read : ℕ
  pub downs_done : ℕ

abbrev pub unmetered : {W : Type 0} → W → Metered W
unmetered w = record { world = w; ups_read = 0; ups_done = 0; downs_read = 0; downs_done = 0 }

-- Each scaling has used up its own readings, and those counted now are further ones.
pub record IsPaid {W : Type 0} (config : MonitorConfig) (m : Monitor) (s : Metered W) : Type 0 where
  pub ups : s.ups_done * config.scale_up_stability + m.consecutive_high_usage ≤ s.ups_read
  pub downs : s.downs_done * config.scale_down_stability + m.consecutive_low_usage ≤ s.downs_read

module _ {W E : Type 0} where
  abbrev pub read : Metered W → W × Evaluation E → Metered W × Evaluation E
  read s (w, direction scale_up) =
      (record s { world = w; ups_read = s.ups_read + 1 }, direction scale_up)
  read s (w, direction scale_down) =
      (record s { world = w; downs_read = s.downs_read + 1 }, direction scale_down)
  read s (w, e) = (record s { world = w }, e)

  abbrev pub scaled : (Metered W → Metered W) → Metered W → W × Option E → Metered W × Option E
  scaled count s (w, none) = (record (count s) { world = w }, none)
  scaled count s (w, some e) = (record s { world = w }, some e)

  -- The same scaler, counted.
  abbrev pub metered : ResourceScaler W E → ResourceScaler (Metered W) E
  metered r = record {
    evaluate_scaling = λ s. read s (r.evaluate_scaling s.world);
    do_scale_up =
        λ s. scaled (λ s. record s { ups_done = s.ups_done + 1 }) s (r.do_scale_up s.world);
    do_scale_down =
        λ s. scaled (λ s. record s { downs_done = s.downs_done + 1 }) s (r.do_scale_down s.world);
  }

module _ {W E : Type 0} (config : MonitorConfig) (scaler : ResourceScaler W E) where
  abbrev round : Tick → Monitor → Metered W → Monitor × Metered W × Option E
  round = check_and_adjust config (metered scaler)

  scaled_up-IsPaid :
      (after : ℕ) (m : Monitor) (s : Metered W) (o : W × Option E)
      → IsPaid config m s
      → config.scale_up_stability ≤ m.consecutive_high_usage
      → let (m', s', e) =
          scaled_up after m (scaled (λ s. record s { ups_done = s.ups_done + 1 }) s o) in
        IsPaid config m' s'
  scaled_up-IsPaid after m s (w, none) p h = omega arith
  scaled_up-IsPaid after m s (w, some e) p h = omega arith

  scaled_down-IsPaid :
      (after : ℕ) (m : Monitor) (s : Metered W) (o : W × Option E)
      → IsPaid config m s
      → config.scale_down_stability ≤ m.consecutive_low_usage
      → let (m', s', e) =
          scaled_down after m (scaled (λ s. record s { downs_done = s.downs_done + 1 }) s o) in
        IsPaid config m' s'
  scaled_down-IsPaid after m s (w, none) p h = omega arith
  scaled_down-IsPaid after m s (w, some e) p h = omega arith

  adjust-IsPaid :
      (t : Tick) (m : Monitor) (s : Metered W) (o : W × Evaluation E)
      → IsPaid config m s
      → let (s', e) = read s o in
        let (m'', s'', err) = adjust config (metered scaler) e t m s' in IsPaid config m'' s''
  unfolding adjust
  adjust-IsPaid t m s (w, direction scale_none) p = omega arith
  adjust-IsPaid t m s (w, failed e) p = omega arith
  adjust-IsPaid t m s (w, direction scale_up) p =
      let m' = record m {
        consecutive_high_usage = m.consecutive_high_usage + 1;
        consecutive_low_usage = 0;
      } in
      let s' = record s { world = w; ups_read = s.ups_read + 1 } in
      ground (arith, scaled_up-IsPaid t.after m' s' (scaler.do_scale_up w))
  adjust-IsPaid t m s (w, direction scale_down) p =
      let m' = record m {
        consecutive_low_usage = m.consecutive_low_usage + 1;
        consecutive_high_usage = 0;
      } in
      let s' = record s { world = w; downs_read = s.downs_read + 1 } in
      ground (arith, scaled_down-IsPaid t.after m' s' (scaler.do_scale_down w))

  round-IsPaid :
      (t : Tick) (m : Monitor) (s : Metered W)
      → IsPaid config m s
      → IsPaid config (round t m s).0 (round t m s).1
  unfolding check_and_adjust
  round-IsPaid t m s p = adjust-IsPaid t m s (scaler.evaluate_scaling s.world) p

  run-IsPaid :
      (ts : List Tick) (m : Monitor) (s : Metered W)
      → IsPaid config m s
      → let (m', s') = run_ticks config (metered scaler) ts m s in IsPaid config m' s'
  unfolding run_ticks
  run-IsPaid [] m s p = p
  run-IsPaid (t ∷ ts) m s p = run-IsPaid ts (round t m s).0 (round t m s).1 (round-IsPaid t m s p)

  -- Over any rounds of a new monitor, with any scaler, each scaling that succeeds has had its own
  -- readings in its direction, as many as the stability setting asks for: `n` scale-ups take at
  -- least `n` times the scale-up stability of high readings, and likewise downwards.
  pub scalings_need_readings :
      (ts : List Tick) (w : W)
      → let s = (run_ticks config (metered scaler) ts new_monitor (unmetered w)).1 in
        (s.ups_done * config.scale_up_stability ≤ s.ups_read)
        × (s.downs_done * config.scale_down_stability ≤ s.downs_read)
  unfolding new_monitor
  scalings_need_readings ts w = omega (
    arith,
    run-IsPaid ts new_monitor (unmetered w) (record { ups = omega arith; downs = omega arith }),
  )
