-- ===== src/Hotplug/Monitor/Invariant.antt =====
-- The invariant rule for the loop of internal/shim/hotplug/monitor.go: what a scaler has to keep.
use spinbox.Common.{ℕ, ◌+◌, Option, none, some, List, [], ◌∷◌, ◌≡◌, refl, inl, inr, Bool-cases, ltb}
use spinbox.Hotplug.Monitor.{
  scale_none, scale_up, scale_down, MonitorConfig, Evaluation, direction, failed, ResourceScaler,
  Monitor, Tick, has_elapsed, scaled_up, scaled_down, handle_scale_up, handle_scale_down, adjust,
  check_and_adjust, run_ticks,
}

-- Each method keeps `P`; a scaling may rely on the evaluation that asked for it.
pub record IsKept {W E : Type 0} (scaler : ResourceScaler W E) (P : W → Type 0) : Type 0 where
  pub evaluate_keeps : (w : W) → P w → P (scaler.evaluate_scaling w).0
  pub up_keeps :
      (w : W)
      → P w
      → (scaler.evaluate_scaling w).1 ≡ direction scale_up
      → P (scaler.do_scale_up (scaler.evaluate_scaling w).0).0
  pub down_keeps :
      (w : W)
      → P w
      → (scaler.evaluate_scaling w).1 ≡ direction scale_down
      → P (scaler.do_scale_down (scaler.evaluate_scaling w).0).0

module _ {W E : Type 0} (config : MonitorConfig) (scaler : ResourceScaler W E)
    (P : W → Type 0) where
  scaled_up-keeps : (after : ℕ) (m : Monitor) (o : W × Option E) → P o.0 → P (scaled_up after m o).1
  scaled_up-keeps after m (s, none) h = h
  scaled_up-keeps after m (s, some e) h = h

  scaled_down-keeps :
      (after : ℕ) (m : Monitor) (o : W × Option E) → P o.0 → P (scaled_down after m o).1
  scaled_down-keeps after m (s, none) h = h
  scaled_down-keeps after m (s, some e) h = h

  handle_scale_up-keeps :
      (t : Tick) (m : Monitor) (w : W)
      → P w
      → P (scaler.do_scale_up w).0
      → P (handle_scale_up config scaler t m w).1
  unfolding handle_scale_up
  handle_scale_up-keeps t m w h k =
      let high = m.consecutive_high_usage + 1 in
      let m' = record m { consecutive_high_usage = high; consecutive_low_usage = 0 } in
      elim (Bool-cases (has_elapsed config.scale_up_cooldown m.last_scale_up t.now)) [
        | inl e ↦ rw e (elim (Bool-cases (ltb high config.scale_up_stability)) [
          | inl f ↦ rw f h
          | inr f ↦ rw f (scaled_up-keeps t.after m' (scaler.do_scale_up w) k)
        ])
        | inr e ↦ rw e h
      ]

  handle_scale_down-keeps :
      (t : Tick) (m : Monitor) (w : W)
      → P w
      → P (scaler.do_scale_down w).0
      → P (handle_scale_down config scaler t m w).1
  unfolding handle_scale_down
  handle_scale_down-keeps t m w h k =
      let low = m.consecutive_low_usage + 1 in
      let m' = record m { consecutive_low_usage = low; consecutive_high_usage = 0 } in
      elim (Bool-cases (has_elapsed config.scale_down_cooldown m.last_scale_down t.now)) [
        | inl e ↦ rw e (elim (Bool-cases (ltb low config.scale_down_stability)) [
          | inl f ↦ rw f h
          | inr f ↦ rw f (scaled_down-keeps t.after m' (scaler.do_scale_down w) k)
        ])
        | inr e ↦ rw e h
      ]

  adjust-keeps :
      (t : Tick) (m : Monitor) (o : W × Evaluation E)
      → P o.0
      → (o.1 ≡ direction scale_up → P (scaler.do_scale_up o.0).0)
      → (o.1 ≡ direction scale_down → P (scaler.do_scale_down o.0).0)
      → P (adjust config scaler o.1 t m o.0).1
  unfolding adjust
  adjust-keeps t m (w, direction scale_none) h u d = h
  adjust-keeps t m (w, failed e) h u d = h
  adjust-keeps t m (w, direction scale_up) h u d = handle_scale_up-keeps t m w h (u refl)
  adjust-keeps t m (w, direction scale_down) h u d = elim (Bool-cases config.enable_scale_down) [
    | inl e ↦ rw e (handle_scale_down-keeps t m w h (d refl))
    | inr e ↦ rw e h
  ]

  module _ (k : IsKept scaler P) where
    -- An invariant that the scaler's methods keep holds after any rounds of the monitor.
    pub run_ticks-keeps :
        (ts : List Tick) (m : Monitor) (w : W) → P w → P (run_ticks config scaler ts m w).1
    unfolding run_ticks check_and_adjust
    run_ticks-keeps [] m w h = h
    run_ticks-keeps (t ∷ ts) m w h =
        let (m', w', e) = check_and_adjust config scaler t m w in
        run_ticks-keeps ts m' w' (
          adjust-keeps t m (scaler.evaluate_scaling w) (k.evaluate_keeps w h) (k.up_keeps w h)
            (k.down_keeps w h))
