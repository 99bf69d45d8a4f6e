-- ===== src/Hotplug/Cpu/Range.antt =====
-- The monitor of internal/shim/hotplug/monitor.go over the controller of
-- internal/shim/cpuhotplug/controller.go, with a QEMU that removes CPUs when the guest lets go of them.
use spinbox.Common.{
  ℕ, suc, ◌≤◌, ◌<◌, Option, none, some, List, length, ◌≡◌, refl, ◌⊎◌, inl, inr, arith, ap, ◌∙◌,
}
use spinbox.Hotplug.Float.{Float64}
use spinbox.Hotplug.Monitor.{
  scale_up, MonitorConfig, Evaluation, direction, Monitor, Tick, run_ticks,
}
use spinbox.Hotplug.Cpu.{
  Answer, ok, err, first_free, highest, ScaleError, Providers, Controller, Config, best_effort,
  plugged, plug_first, scale_up_with, unplugged, unplug_highest, scale_down_with, do_scale_up,
  do_scale_down, evaluate_scaling, cpu_scaler,
}
use spinbox.Hotplug.Monitor.Invariant.{IsKept, run_ticks-keeps}
use spinbox.Hotplug.Cpu.Evaluate.{after_stats, evaluate_scaling-ok}

-- What is relied on of QEMU and the guest: `cpus w` are the CPUs that the machine has. A query that
-- answers reports those of its moment. A plug adds one CPU at most, whether it answers an error or not.
-- An unplug only asks for a removal: CPUs may go at any time, during any call, and nothing but a plug
-- adds one.
pub record IsAsynchronous {W E : Type 0} (p : Providers W E) (cpus : W → List ℕ) : Type 0 where
  pub query_reports :
      (w : W) (l : List ℕ)
      → (p.hotplugger.query_cpus w).1 ≡ ok l
      → l ≡ cpus (p.hotplugger.query_cpus w).0
  pub query_adds_none : (w : W) → length (cpus (p.hotplugger.query_cpus w).0) ≤ length (cpus w)
  pub plug_adds :
      (id : ℕ) (w : W) → length (cpus (p.hotplugger.hotplug_cpu id w).0) ≤ suc (length (cpus w))
  pub unplug_adds_none :
      (id : ℕ) (w : W) → length (cpus (p.hotplugger.unplug_cpu id w).0) ≤ length (cpus w)
  pub stats_add_none : (w : W) → length (cpus (after_stats p.stats w)) ≤ length (cpus w)
  pub online_adds_none :
      (id : ℕ) (w : W) → length (cpus (best_effort p.online_cpu id w)) ≤ length (cpus w)
  pub offline_adds_none :
      (id : ℕ) (w : W) → length (cpus (best_effort p.offline_cpu id w)) ≤ length (cpus w)

Answer-cases : {A E : Type 0} (o : Answer A E) → ((a : A) × (o ≡ ok a)) ⊎ ((e : E) × (o ≡ err e))
Answer-cases (ok a) = inl (a, refl)
Answer-cases (err e) = inr (e, refl)

module _ {W E : Type 0} (p : Providers W E) (cpus : W → List ℕ) (f : IsAsynchronous p cpus) where
  -- The maximum stays, and the CPUs are at most so many.
  abbrev IsAtMost : Controller → ℕ → Controller × W × Option (ScaleError E) → Type 0
  IsAtMost c n (c', w', e) = (c'.max_cpus ≡ c.max_cpus) × (length (cpus w') ≤ n)

  plugged-IsAtMost :
      (id n : ℕ) (c : Controller) (o : W × Option E)
      → length (cpus o.0) ≤ n
      → IsAtMost c n (plugged p id c o)
  plugged-IsAtMost id n c (w', none) h = (refl, omega (arith, h, f.online_adds_none id w'))
  plugged-IsAtMost id n c (w', some e) h = (refl, h)

  unplugged-IsAtMost :
      (n : ℕ) (c : Controller) (o : W × Option E)
      → length (cpus o.0) ≤ n
      → IsAtMost c n (unplugged p c o)
  unplugged-IsAtMost n c (w', none) h = (refl, h)
  unplugged-IsAtMost n c (w', some e) h = (refl, h)

  plug_first-IsAtMost :
      (o : Option ℕ) (c : Controller) (w : W)
      → IsAtMost c (suc (length (cpus w))) (plug_first p o c w)
  plug_first-IsAtMost none c w = (refl, omega arith)
  plug_first-IsAtMost (some id) c w =
      plugged-IsAtMost id (suc (length (cpus w))) c (p.hotplugger.hotplug_cpu id w)
        (f.plug_adds id w)

  unplug_highest-IsAtMost :
      (o : Option ℕ) (c : Controller) (w : W)
      → IsAtMost c (length (cpus w)) (unplug_highest p o c w)
  unplug_highest-IsAtMost none c w = (refl, omega arith)
  unplug_highest-IsAtMost (some id) c w =
      let w₁ = best_effort p.offline_cpu id w in
      unplugged-IsAtMost (length (cpus w)) c (p.hotplugger.unplug_cpu id w₁)
        (omega (arith, f.offline_adds_none id w, f.unplug_adds_none id w₁))

  scale_up_with-IsAtMost :
      (c : Controller) (n : ℕ) (o : W × Answer (List ℕ) E)
      → length (cpus o.0) ≤ n
      → IsAtMost c (suc n) (scale_up_with p c o)
  scale_up_with-IsAtMost c n (w', err e) h = (refl, omega (arith, h))
  scale_up_with-IsAtMost c n (w', ok l) h =
      let (m, k) = plug_first-IsAtMost (first_free l c.max_cpus 0) c w' in (m, omega (arith, h, k))

  scale_down_with-IsAtMost :
      (c : Controller) (n : ℕ) (o : W × Answer (List ℕ) E)
      → length (cpus o.0) ≤ n
      → IsAtMost c n (scale_down_with p c o)
  scale_down_with-IsAtMost c n (w', err e) h = (refl, h)
  scale_down_with-IsAtMost c n (w', ok l) h =
      let (m, k) = unplug_highest-IsAtMost (highest none l) c w' in (m, omega (arith, h, k))

  do_scale_up-IsAtMost :
      (c : Controller) (w : W) → IsAtMost c (suc (length (cpus w))) (do_scale_up p c w)
  unfolding do_scale_up
  do_scale_up-IsAtMost c w =
      scale_up_with-IsAtMost c (length (cpus w)) (p.hotplugger.query_cpus w) (f.query_adds_none w)

  do_scale_down-IsAtMost :
      (c : Controller) (w : W) → IsAtMost c (length (cpus w)) (do_scale_down p c w)
  unfolding do_scale_down
  do_scale_down-IsAtMost c w =
      scale_down_with-IsAtMost c (length (cpus w)) (p.hotplugger.query_cpus w) (f.query_adds_none w)

module _ {W E : Type 0} (p : Providers W E) (cpus : W → List ℕ) (f : IsAsynchronous p cpus)
    (fl : Float64) (config : Config fl) (max : ℕ) where
  abbrev InRange : Controller × W → Type 0
  InRange (c, w) = (c.max_cpus ≡ max) × (length (cpus w) ≤ max)

  -- The range, and the room that a request for another CPU shows.
  abbrev HasRoom : Controller × W × Evaluation (ScaleError E) → Type 0
  HasRoom (c, w, e) = InRange (c, w) × (e ≡ direction scale_up → length (cpus w) < max)

  evaluate_failed :
      (c : Controller) (w : W) (e : E)
      → (p.hotplugger.query_cpus w).1 ≡ err e
      → InRange (c, w)
      → HasRoom (evaluate_scaling fl p config c w)
  unfolding evaluate_scaling
  evaluate_failed c w e q (m, hi) =
      let n = f.query_adds_none w in rw q ((m, omega (arith, hi, n)), (λ x. cc))

  evaluate_answered :
      (c : Controller) (w : W) (l : List ℕ)
      → (p.hotplugger.query_cpus w).1 ≡ ok l
      → InRange (c, w)
      → HasRoom (evaluate_scaling fl p config c w)
  evaluate_answered c w l q (m, hi) =
      let w₁ = (p.hotplugger.query_cpus w).0 in
      let v = evaluate_scaling-ok fl p config c w l q in
      let n₁ = f.query_adds_none w in
      let n₂ = f.stats_add_none w₁ in
      let n₃ = ap (λ (x : W). length (cpus x)) v.world in
      let n₄ = ap length (f.query_reports w l q) in
      ((v.max ∙ m, omega arith), (λ e. let up = v.up e in omega arith))

  evaluate-HasRoom :
      (c : Controller) (w : W) → InRange (c, w) → HasRoom (evaluate_scaling fl p config c w)
  evaluate-HasRoom c w h = elim (Answer-cases (p.hotplugger.query_cpus w).1) [
    | inl (l, q) ↦ evaluate_answered c w l q h
    | inr (e, q) ↦ evaluate_failed c w e q h
  ]

  cpu_scaler-IsKept : IsKept (cpu_scaler fl p config) InRange
  cpu_scaler-IsKept = record {
    evaluate_keeps = λ s h. (evaluate-HasRoom s.0 s.1 h).0;
    up_keeps = λ s h e.
        let (c, w, d) = evaluate_scaling fl p config s.0 s.1 in
        let (m, hi) = (evaluate-HasRoom s.0 s.1 h).0 in
        let room = (evaluate-HasRoom s.0 s.1 h).1 e in
        let (m', more) = do_scale_up-IsAtMost p cpus f c w in (m' ∙ m, omega arith);
    down_keeps = λ s h e.
        let (c, w, d) = evaluate_scaling fl p config s.0 s.1 in
        let (m, hi) = (evaluate-HasRoom s.0 s.1 h).0 in
        let (m', less) = do_scale_down-IsAtMost p cpus f c w in (m' ∙ m, omega arith);
  }

-- With a QEMU that answers queries with the CPUs of the moment and to which only a plug adds a CPU, one
-- at most; in which a removal that was asked for comes at any time or never, and a plug that answers an
-- error may have added its CPU; whatever the statistics report and the floating point computes: a
-- machine with no more CPUs than its maximum has never more over any rounds of the monitor.
pub cpus_in_range :
    {W E : Type 0} (p : Providers W E) (cpus : W → List ℕ)
    → IsAsynchronous p cpus
    → (fl : Float64) (config : Config fl) (pace : MonitorConfig) (ts : List Tick) (m : Monitor)
      (c : Controller) (w : W)
    → length (cpus w) ≤ c.max_cpus
    → let w' = (run_ticks pace (cpu_scaler fl p config) ts m (c, w)).1.1 in
      length (cpus w') ≤ c.max_cpus
cpus_in_range p cpus f fl config pace ts m c w hi =
    let P = InRange p cpus f fl config c.max_cpus in
    let k = cpu_scaler-IsKept p cpus f fl config c.max_cpus in
    let r = run_ticks-keeps pace (cpu_scaler fl p config) P k ts m (c, w) (refl, hi) in r.1
