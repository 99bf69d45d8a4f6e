-- ===== src/Hotplug/Monitor/Pace.antt =====
-- The cooldowns of internal/shim/hotplug/monitor.go: how close together scalings may come.
use spinbox.Common.{
  ℕ, ◌+◌, ◌*◌, ◌≤◌, true, false, Option, none, some, List, [], ◌∷◌, ◌≡◌, arith, Bool-cases, inl,
  inr, ltb,
}
use spinbox.Hotplug.Monitor.{
  scale_none, scale_up, scale_down, MonitorConfig, Evaluation, direction, failed, ResourceScaler,
  Monitor, Tick, scaled_up, scaled_down, has_elapsed, handle_scale_up, handle_scale_down,
  check_and_adjust, run_ticks, adjust, new_monitor,
}
use spinbox.Hotplug.Monitor.Rate.{Metered, read, scaled, metered, unmetered}

-- Rounds that follow one another in time, from `time` on.
abbrev pub IsOrdered : ℕ → List Tick → Type 0
IsOrdered time [] = Unit
IsOrdered time (t ∷ ts) = (time ≤ t.now) × (t.now ≤ t.after) × IsOrdered t.after ts

-- When the last round has returned.
unfoldable pub end_of : ℕ → List Tick → ℕ
end_of time [] = time
end_of time (t ∷ ts) = end_of t.after ts

-- `done` scalings between `start` and the last of them, one cooldown apart.
abbrev pub IsSpaced : ℕ → ℕ → ℕ → Option ℕ → ℕ → Type 0
IsSpaced cooldown start done none time = (done ≡ 0) × (start ≤ time)
IsSpaced cooldown start done (some last) time =
    (start + done * cooldown ≤ last + cooldown) × (last ≤ time)

IsSpaced-time :
    (cooldown start done : ℕ) (last : Option ℕ) (time later : ℕ)
    → time ≤ later
    → IsSpaced cooldown start done last time
    → IsSpaced cooldown start done last later
IsSpaced-time cooldown start done none time later h p = omega arith
IsSpaced-time cooldown start done (some l) time later h p = omega arith

IsSpaced-bound :
    (cooldown start done : ℕ) (last : Option ℕ) (time : ℕ)
    → IsSpaced cooldown start done last time
    → start + done * cooldown ≤ time + cooldown
IsSpaced-bound cooldown start done none time p = ground arith
IsSpaced-bound cooldown start done (some l) time p = omega arith

IsSpaced-next :
    (cooldown start done : ℕ) (last : Option ℕ) (now after : ℕ)
    → IsSpaced cooldown start done last now
    → has_elapsed cooldown last now ≡ true
    → now ≤ after
    → IsSpaced cooldown start (done + 1) (some after) after
unfolding has_elapsed
IsSpaced-next cooldown start done none now after p e h = ground arith
IsSpaced-next cooldown start done (some l) now after p e h = ground arith

abbrev pub IsPaced : {W : Type 0} → MonitorConfig → ℕ → Monitor → Metered W → ℕ → Type 0
IsPaced config start m s time =
    IsSpaced config.scale_up_cooldown start s.ups_done m.last_scale_up time
    × IsSpaced config.scale_down_cooldown start s.downs_done m.last_scale_down time

module _ {W E : Type 0} (config : MonitorConfig) (scaler : ResourceScaler W E) (start : ℕ) where
  abbrev round : Tick → Monitor → Metered W → Monitor × Metered W × Option E
  round = check_and_adjust config (metered scaler)

  module _ (t : Tick) (forward : t.now ≤ t.after) where
    later :
        (m : Monitor) (s : Metered W)
        → IsPaced config start m s t.now
        → IsPaced config start m s t.after
    later m s p = (
      IsSpaced-time _ _ _ m.last_scale_up _ _ forward p.0,
      IsSpaced-time _ _ _ m.last_scale_down _ _ forward p.1,
    )

    scaled_up-IsPaced :
        (m : Monitor) (s : Metered W) (o : W × Option E)
        → IsPaced config start m s t.now
        → has_elapsed config.scale_up_cooldown m.last_scale_up t.now ≡ true
        → let (m', s', e) =
            scaled_up t.after m (scaled (λ s. record s { ups_done = s.ups_done + 1 }) s o) in
          IsPaced config start m' s' t.after
    scaled_up-IsPaced m s (w, none) p e =
        (IsSpaced-next _ _ _ m.last_scale_up _ _ p.0 e forward, (later m s p).1)
    scaled_up-IsPaced m s (w, some x) p e = later m s p

    scaled_down-IsPaced :
        (m : Monitor) (s : Metered W) (o : W × Option E)
        → IsPaced config start m s t.now
        → has_elapsed config.scale_down_cooldown m.last_scale_down t.now ≡ true
        → let (m', s', e) =
            scaled_down t.after m (scaled (λ s. record s { downs_done = s.downs_done + 1 }) s o) in
          IsPaced config start m' s' t.after
    scaled_down-IsPaced m s (w, none) p e =
        ((later m s p).0, IsSpaced-next _ _ _ m.last_scale_down _ _ p.1 e forward)
    scaled_down-IsPaced m s (w, some x) p e = later m s p

    handle_scale_up-IsPaced :
        (m : Monitor) (s : Metered W)
        → IsPaced config start m s t.now
        → let (m', s', err) = handle_scale_up config (metered scaler) t m s in
          IsPaced config start m' s' t.after
    unfolding handle_scale_up
    handle_scale_up-IsPaced m s p =
        let m' = record m {
          consecutive_high_usage = m.consecutive_high_usage + 1;
          consecutive_low_usage = 0;
        } in
        let o = scaler.do_scale_up s.world in
        elim (Bool-cases (has_elapsed config.scale_up_cooldown m.last_scale_up t.now)) [
          | inl e ↦
              rw e
                (elim (Bool-cases (ltb (m.consecutive_high_usage + 1) config.scale_up_stability)) [
                  | inl h ↦ rw h (later m s p)
                  | inr h ↦ rw h (scaled_up-IsPaced m' s o p e)
                ])
          | inr e ↦ rw e (later m s p)
        ]

    handle_scale_down-IsPaced :
        (m : Monitor) (s : Metered W)
        → IsPaced config start m s t.now
        → let (m', s', err) = handle_scale_down config (metered scaler) t m s in
          IsPaced config start m' s' t.after
    unfolding handle_scale_down
    handle_scale_down-IsPaced m s p =
        let m' = record m {
          consecutive_low_usage = m.consecutive_low_usage + 1;
          consecutive_high_usage = 0;
        } in
        let o = scaler.do_scale_down s.world in
        elim (Bool-cases (has_elapsed config.scale_down_cooldown m.last_scale_down t.now)) [
          | inl e ↦
              rw e
                (elim (Bool-cases (ltb (m.consecutive_low_usage + 1) config.scale_down_stability)) [
                  | inl h ↦ rw h (later m s p)
                  | inr h ↦ rw h (scaled_down-IsPaced m' s o p e)
                ])
          | inr e ↦ rw e (later m s p)
        ]

    adjust-IsPaced :
        (m : Monitor) (s : Metered W) (o : W × Evaluation E)
        → IsPaced config start m s t.now
        → let (s', e) = read s o in
          let (m'', s'', err) = adjust config (metered scaler) e t m s' in
          IsPaced config start m'' s'' t.after
    unfolding adjust
    adjust-IsPaced m s (w, direction scale_none) p = later m s p
    adjust-IsPaced m s (w, failed e) p = later m s p
    adjust-IsPaced m s (w, direction scale_up) p =
        handle_scale_up-IsPaced m (record s { world = w; ups_read = s.ups_read + 1 }) p
    adjust-IsPaced m s (w, direction scale_down) p = elim (Bool-cases config.enable_scale_down) [
      | inl e ↦
          rw e
            (handle_scale_down-IsPaced m (record s { world = w; downs_read = s.downs_read + 1 }) p)
      | inr e ↦ rw e (later m s p)
    ]

    round-IsPaced :
        (m : Monitor) (s : Metered W)
        → IsPaced config start m s t.now
        → IsPaced config start (round t m s).0 (round t m s).1 t.after
    unfolding check_and_adjust
    round-IsPaced m s p = adjust-IsPaced m s (scaler.evaluate_scaling s.world) p

  run-IsPaced :
      (ts : List Tick) (m : Monitor) (s : Metered W) (time : ℕ)
      → IsOrdered time ts
      → IsPaced config start m s time
      → let (m', s') = run_ticks config (metered scaler) ts m s in
        IsPaced config start m' s' (end_of time ts)
  unfolding run_ticks end_of
  run-IsPaced [] m s time o p = p
  run-IsPaced (t ∷ ts) m s time o p =
      let p' : IsPaced config start m s t.now = (
        IsSpaced-time _ _ _ m.last_scale_up _ _ o.0 p.0,
        IsSpaced-time _ _ _ m.last_scale_down _ _ o.0 p.1,
      ) in
      run-IsPaced ts (round t m s).0 (round t m s).1 t.after o.2 (round-IsPaced t o.1 m s p')

-- Over any rounds of a new monitor that follow one another in time, with any scaler, `n`
-- scale-ups that succeed take at least `n - 1` scale-up cooldowns, and `n` scale-downs `n - 1`
-- scale-down cooldowns, from the start of the run to its end.
pub scalings_need_time :
    {W E : Type 0} (config : MonitorConfig) (scaler : ResourceScaler W E) (ts : List Tick)
    (start : ℕ) (w : W)
    → IsOrdered start ts
    → let s = (run_ticks config (metered scaler) ts new_monitor (unmetered w)).1 in
      (start + s.ups_done * config.scale_up_cooldown ≤ end_of start ts + config.scale_up_cooldown)
      × (start + s.downs_done * config.scale_down_cooldown
          ≤ end_of start ts + config.scale_down_cooldown)
unfolding new_monitor
scalings_need_time config scaler ts start w o =
    let p =
      run-IsPaced config scaler start ts new_monitor (unmetered w) start o
        (omega arith, omega arith) in
    let m = (run_ticks config (metered scaler) ts new_monitor (unmetered w)).0 in
    (IsSpaced-bound _ _ _ m.last_scale_up _ p.0, IsSpaced-bound _ _ _ m.last_scale_down _ p.1)

-- Inside a cooldown a reading in its direction is ignored whole: the counters stay as they
-- were, those of the other direction too, so a high reading in the scale-up cooldown does not
-- interrupt a run of low readings.
pub high_reading_in_cooldown :
    {W E : Type 0} (config : MonitorConfig) (scaler : ResourceScaler W E) (t : Tick) (m : Monitor)
    (w : W)
    → (scaler.evaluate_scaling w).1 ≡ direction scale_up
    → has_elapsed config.scale_up_cooldown m.last_scale_up t.now ≡ false
    → check_and_adjust config scaler t m w ≡ (m, (scaler.evaluate_scaling w).0, none)
unfolding check_and_adjust
high_reading_in_cooldown config scaler t m w e h = rw (e, h)
