-- ===== src/Hotplug/Cpu.antt =====
-- internal/shim/cpuhotplug/controller.go. QEMU, the cgroup statistics and the guest agent are the
-- interfaces `vm.CPUHotplugger`, `StatsProvider`, `CPUOffliner` and `CPUOnliner` over a world `W`;
-- QEMU's CPU indices are not negative. Times are in nanoseconds of the monotonic clock.
pub mod Evaluate
pub mod Slots
pub mod Range
mod Tests
use spinbox.Common.{
  ℕ, zero, suc, ◌+◌, ◌-◌, ◌*◌, ◌/◌, Bool, true, false, not, ◌||◌, ◌&&◌, Option, none, some, List,
  [], ◌∷◌, length, ltb, leb, ◌==◌, if◌then◌else◌,
}
use spinbox.Common.Int.{ℤ, pos, negsuc, ◌+ℤ◌, ◌-ℤ◌, ltb_ℤ}
use spinbox.Hotplug.Float.{Float64}
use spinbox.Hotplug.Monitor.{
  ScaleDirection, scale_none, scale_up, scale_down, Evaluation, direction, failed, ResourceScaler,
}

pub data Answer (A E : Type 0) : Type 0 where
  ok : A → Answer A E
  err : E → Answer A E

-- `existingCPUs[id]` after the loop that fills the map.
unfoldable pub contains : ℕ → List ℕ → Bool
contains id [] = false
contains id (i ∷ is) = i == id || contains id is

-- The loop over `range c.maxCPUs`, from `id` on with `left` rounds left.
unfoldable pub first_free : List ℕ → ℕ → ℕ → Option ℕ
unfolding contains
first_free cpus zero id = none
first_free cpus (suc left) id =
    let rest = first_free cpus left (id + 1) in if contains id cpus then rest else some id

-- `cpu.CPUIndex > removeCPU`, with `none` for -1.
abbrev pub is_above : ℕ → Option ℕ → Bool
is_above i none = true
is_above i (some j) = ltb j i

-- The loop of `ScaleDown` for the highest index above 0.
unfoldable pub highest : Option ℕ → List ℕ → Option ℕ
highest best [] = best
highest best (i ∷ is) = highest (if ltb 0 i && is_above i best then some i else best) is

-- `vm.CPUHotplugger`; only the index of a `vm.CPUInfo` is read.
pub record CpuHotplugger (W E : Type 0) : Type 0 where
  pub query_cpus : W → W × Answer (List ℕ) E
  pub hotplug_cpu : ℕ → W → W × Option E
  pub unplug_cpu : ℕ → W → W × Option E

pub record Providers (W E : Type 0) : Type 0 where
  -- `time.Now`, as the world shows it.
  pub clock : W → ℕ
  pub hotplugger : CpuHotplugger W E
  -- Usage and throttled time in microseconds.
  pub stats : Option (W → W × Answer (ℕ × ℕ) E)
  pub offline_cpu : Option (ℕ → W → W × Option E)
  pub online_cpu : Option (ℕ → W → W × Option E)

pub data ScaleError (E : Type 0) : Type 0 where
  query_failed hotplug_failed : E → ScaleError E
  no_available_slot no_removable_cpu : ScaleError E

pub record Controller : Type 0 where
  pub boot_cpus : ℕ
  pub max_cpus : ℕ
  pub current_cpus : ℤ
  pub last_sample_time : Option ℕ
  pub last_usage_usec : ℕ
  pub last_throttled_usec : ℕ

-- `none` is the no-op controller.
unfoldable pub new_controller : ℕ → ℕ → Option Controller
new_controller boot_cpus max_cpus =
    if leb max_cpus boot_cpus
    then none
    else some (record {
      boot_cpus = boot_cpus;
      max_cpus = max_cpus;
      current_cpus = pos boot_cpus;
      last_sample_time = none;
      last_usage_usec = 0;
      last_throttled_usec = 0;
    })

abbrev pub paired : {W A : Type 0} → Controller × W × A → (Controller × W) × A
paired (c, w, a) = ((c, w), a)

-- An onliner or offliner is called if there is one, and its error is only logged.
abbrev pub best_effort : {W E : Type 0} → Option (ℕ → W → W × Option E) → ℕ → W → W
best_effort none id w = w
best_effort (some f) id w = (f id w).0

module _ {W E : Type 0} (p : Providers W E) where
  abbrev pub plugged : ℕ → Controller → W × Option E → Controller × W × Option (ScaleError E)
  plugged id c (w, some e) = (c, w, some (hotplug_failed e))
  plugged id c (w, none) =
      (record c { current_cpus = c.current_cpus +ℤ pos 1 }, best_effort p.online_cpu id w, none)

  abbrev pub plug_first : Option ℕ → Controller → W → Controller × W × Option (ScaleError E)
  plug_first none c w = (c, w, some no_available_slot)
  plug_first (some id) c w = plugged id c (p.hotplugger.hotplug_cpu id w)

  abbrev pub scale_up_with :
      Controller → W × Answer (List ℕ) E → Controller × W × Option (ScaleError E)
  scale_up_with c (w, err e) = (c, w, some (query_failed e))
  scale_up_with c (w, ok cpus) = plug_first (first_free cpus c.max_cpus 0) c w

  unfoldable pub do_scale_up : Controller → W → Controller × W × Option (ScaleError E)
  do_scale_up c w = scale_up_with c (p.hotplugger.query_cpus w)

  -- A failed unplug is only logged.
  abbrev pub unplugged : Controller → W × Option E → Controller × W × Option (ScaleError E)
  unplugged c (w, some e) = (c, w, none)
  unplugged c (w, none) = (record c { current_cpus = c.current_cpus -ℤ pos 1 }, w, none)

  abbrev pub unplug_highest : Option ℕ → Controller → W → Controller × W × Option (ScaleError E)
  unplug_highest none c w = (c, w, some no_removable_cpu)
  unplug_highest (some id) c w =
      unplugged c (p.hotplugger.unplug_cpu id (best_effort p.offline_cpu id w))

  abbrev pub scale_down_with :
      Controller → W × Answer (List ℕ) E → Controller × W × Option (ScaleError E)
  scale_down_with c (w, err e) = (c, w, some (query_failed e))
  scale_down_with c (w, ok cpus) = unplug_highest (highest none cpus) c w

  unfoldable pub do_scale_down : Controller → W → Controller × W × Option (ScaleError E)
  do_scale_down c w = scale_down_with c (p.hotplugger.query_cpus w)

module _ (fl : Float64) where
  open fl use {F, of_int, mul, div}

  pub record Config : Type 0 where
    pub scale_up_threshold : F
    pub scale_down_threshold : F
    pub scale_up_throttle_limit : F
    pub enable_scale_down : Bool

  pub data Sampled (E : Type 0) : Type 0 where
    sample_failed : E → Sampled E
    no_sample : Sampled E
    sample : F → F → Sampled E

  -- `if x < 0 { x = 0 }`.
  abbrev pub at_least_0 : F → F
  at_least_0 x = if fl.ltb x (of_int (pos 0)) then of_int (pos 0) else x

  module _ {W E : Type 0} (p : Providers W E) where
    abbrev pub remember : ℕ → ℕ → ℕ → Controller → Controller
    remember now usage throttled c = record c {
      last_sample_time = some now;
      last_usage_usec = usage;
      last_throttled_usec = throttled;
    }

    -- The percentages over the time since the last sample, which is before `now`.
    unfoldable pub percentages : ℕ → ℕ → ℕ → ℤ → Sampled E
    percentages elapsed_usec usage throttled cpus =
        if leb elapsed_usec 0 || not (ltb_ℤ (pos 0) cpus)
        then no_sample
        else sample
            (at_least_0 (
              mul (div (of_int (pos usage)) (mul (of_int (pos elapsed_usec)) (of_int cpus)))
                (of_int (pos 100))))
            (at_least_0
              (mul (div (of_int (pos throttled)) (of_int (pos elapsed_usec))) (of_int (pos 100))))

    unfoldable pub sample_since : Option ℕ → ℕ → ℕ → ℕ → Controller → Sampled E
    unfolding percentages
    sample_since none now usage throttled c = no_sample
    sample_since (some last) now usage throttled c =
        if leb now last
        then no_sample
        else if ltb usage c.last_usage_usec || ltb throttled c.last_throttled_usec
        then no_sample
        else percentages ((now - last) / 1000) (usage - c.last_usage_usec)
            (throttled - c.last_throttled_usec) c.current_cpus

    abbrev pub sample_with : Controller → W × Answer (ℕ × ℕ) E → Controller × W × Sampled E
    sample_with c (w, err e) = (c, w, sample_failed e)
    sample_with c (w, ok (usage, throttled)) =
        let now = p.clock w in
        (remember now usage throttled c, w, sample_since c.last_sample_time now usage throttled c)

    unfoldable pub sample_cpu :
        Option (W → W × Answer (ℕ × ℕ) E) → Controller → W → Controller × W × Sampled E
    unfolding sample_since
    sample_cpu none c w = (c, w, no_sample)
    sample_cpu (some stats) c w = sample_with c (stats w)

    -- The thresholds of `EvaluateScaling`.
    unfoldable pub decide : Config → Controller → Sampled E → ScaleDirection
    decide config c (sample_failed e) = scale_none
    decide config c no_sample = scale_none
    decide config c (sample usage throttled) =
        if fl.leb config.scale_up_throttle_limit throttled
        then scale_none
        else if fl.leb config.scale_up_threshold usage && ltb_ℤ c.current_cpus (pos c.max_cpus)
        then scale_up
        else if config.enable_scale_down
            && ltb_ℤ (pos c.boot_cpus) c.current_cpus
            && ltb_ℤ (pos 1) c.current_cpus
        then if fl.leb (div (mul usage (of_int c.current_cpus)) (of_int (c.current_cpus -ℤ pos 1)))
            config.scale_down_threshold
          then scale_down
          else scale_none
        else scale_none

    abbrev pub evaluate_with :
        Config → Controller → W × Answer (List ℕ) E → Controller × W × Evaluation (ScaleError E)
    evaluate_with config c (w, err e) = (c, w, failed (query_failed e))
    evaluate_with config c (w, ok cpus) =
        let c' = record c { current_cpus = pos (length cpus) } in
        let (c'', w', s) = sample_cpu p.stats c' w in (c'', w', direction (decide config c'' s))

    unfoldable pub evaluate_scaling :
        Config → Controller → W → Controller × W × Evaluation (ScaleError E)
    unfolding sample_cpu decide
    evaluate_scaling config c w = evaluate_with config c (p.hotplugger.query_cpus w)

    -- The controller as the monitor sees it: its state and the world are the scaler's world.
    abbrev pub cpu_scaler : Config → ResourceScaler (Controller × W) (ScaleError E)
    cpu_scaler config = record {
      evaluate_scaling = λ s. paired (evaluate_scaling config s.0 s.1);
      do_scale_up = λ s. paired (do_scale_up p s.0 s.1);
      do_scale_down = λ s. paired (do_scale_down p s.0 s.1);
    }
