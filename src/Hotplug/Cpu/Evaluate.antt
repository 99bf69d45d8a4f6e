-- ===== src/Hotplug/Cpu/Evaluate.antt =====
-- What `EvaluateScaling` of internal/shim/cpuhotplug/controller.go decides.
use spinbox.Common.{ℕ, ◌<◌, true, false, Option, none, some, List, length, ◌≡◌, refl, ◌↔◌, arith}
use spinbox.Common.Int.{pos, ltb_ℤ}
use spinbox.Hotplug.Float.{Float64}
use spinbox.Hotplug.Monitor.{scale_up, scale_down, Evaluation, direction}
use spinbox.Hotplug.Cpu.{
  Answer, ok, err, ScaleError, Providers, Controller, Config, Sampled, sample_failed, no_sample,
  sample, decide, sample_with, sample_cpu, evaluate_scaling,
}

-- What the statistics do to the world.
abbrev pub after_stats : {W E : Type 0} → Option (W → W × Answer (ℕ × ℕ) E) → W → W
after_stats none w = w
after_stats (some stats) w = (stats w).0

module _ (fl : Float64) where
  open fl use {F, of_int, mul, div}

  module _ {W E : Type 0} (p : Providers W E) (config : Config fl) where
    abbrev IsQuotaFree : F → Type 0
    IsQuotaFree throttled = fl.leb config.scale_up_throttle_limit throttled ≡ false

    -- The controller asks for a CPU exactly if there is a sample, the throttling is under its
    -- limit, the usage reaches its threshold, and the machine has fewer CPUs than its maximum.
    pub decide-scale_up_iff :
        (c : Controller) (usage throttled : F)
        → (decide fl p config c (sample usage throttled) ≡ scale_up) ↔ (
            IsQuotaFree throttled
            × (fl.leb config.scale_up_threshold usage ≡ true)
            × (ltb_ℤ c.current_cpus (pos c.max_cpus) ≡ true))
    unfolding decide
    decide-scale_up_iff c usage throttled = ground arith

    pub decide-scale_down :
        (c : Controller) (s : Sampled fl E)
        → decide fl p config c s ≡ scale_down
        → (config.enable_scale_down ≡ true)
          × (ltb_ℤ (pos c.boot_cpus) c.current_cpus ≡ true)
          × (ltb_ℤ (pos 1) c.current_cpus ≡ true)
    unfolding decide
    decide-scale_down c (sample_failed e) h = cc
    decide-scale_down c no_sample h = cc
    decide-scale_down c (sample usage throttled) h = ground arith

    pub decide-scale_up :
        (c : Controller) (s : Sampled fl E)
        → decide fl p config c s ≡ scale_up
        → ltb_ℤ c.current_cpus (pos c.max_cpus) ≡ true
    unfolding decide
    decide-scale_up c (sample_failed e) h = cc
    decide-scale_up c no_sample h = cc
    decide-scale_up c (sample usage throttled) h = ground arith

    sample_with_keeps :
        (c : Controller) (o : W × Answer (ℕ × ℕ) E)
        → let c' = (sample_with fl p c o).0 in
          (c'.boot_cpus ≡ c.boot_cpus)
          × (c'.max_cpus ≡ c.max_cpus)
          × (c'.current_cpus ≡ c.current_cpus)
          × ((sample_with fl p c o).1 ≡ o.0)
    sample_with_keeps c (w, ok (usage, throttled)) = (refl, refl, refl, refl)
    sample_with_keeps c (w, err e) = (refl, refl, refl, refl)

    sample_cpu_keeps :
        (stats : Option (W → W × Answer (ℕ × ℕ) E)) (c : Controller) (w : W)
        → let c' = (sample_cpu fl p stats c w).0 in
          (c'.boot_cpus ≡ c.boot_cpus)
          × (c'.max_cpus ≡ c.max_cpus)
          × (c'.current_cpus ≡ c.current_cpus)
          × ((sample_cpu fl p stats c w).1 ≡ after_stats stats w)
    unfolding sample_cpu
    sample_cpu_keeps none c w = (refl, refl, refl, refl)
    sample_cpu_keeps (some stats) c w = sample_with_keeps c (stats w)

    -- What an evaluation leaves alone and what its result says, `cpus` being QEMU's answer.
    pub record IsEvaluated (c : Controller) (w : W) (r : Controller × W × Evaluation (ScaleError E))
        (cpus : ℕ) : Type 0 where
      pub boot : r.0.boot_cpus ≡ c.boot_cpus
      pub max : r.0.max_cpus ≡ c.max_cpus
      pub current : r.0.current_cpus ≡ pos cpus
      pub world : r.1 ≡ after_stats p.stats w
      pub up : r.2 ≡ direction scale_up → cpus < c.max_cpus
      pub down :
          r.2 ≡ direction scale_down
          → (config.enable_scale_down ≡ true) × (c.boot_cpus < cpus) × (1 < cpus)

    -- If QEMU answers, the controller takes the number of CPUs over and keeps its limits; the
    -- world is what QEMU and then the statistics leave. A request for more CPUs means that there
    -- are fewer than the maximum, and one for fewer that scaling down is enabled and there are more
    -- than at boot and more than one.
    pub evaluate_scaling-ok :
        (c : Controller) (w : W) (cpus : List ℕ)
        → (p.hotplugger.query_cpus w).1 ≡ ok cpus
        → IsEvaluated c
            (p.hotplugger.query_cpus w).0
            (evaluate_scaling fl p config c w)
            (length cpus)
    unfolding evaluate_scaling
    evaluate_scaling-ok c w cpus q =
        let w₁ = (p.hotplugger.query_cpus w).0 in
        let c₁ = record c { current_cpus = pos (length cpus) } in
        let (c₂, w₂, s) = sample_cpu fl p p.stats c₁ w₁ in
        rw q (
          ground
            (arith, sample_cpu_keeps p.stats c₁ w₁, decide-scale_up c₂ s, decide-scale_down c₂ s))
