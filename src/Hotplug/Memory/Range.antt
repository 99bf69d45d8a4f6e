-- ===== src/Hotplug/Memory/Range.antt =====
-- The bounds of internal/shim/memhotplug/controller.go.
use spinbox.Common.{
  ℕ, ◌+◌, ◌-◌, ◌*◌, ◌≤◌, min, max, true, Option, none, some, List, ◌≡◌, refl, sym, arith, ◌⊎◌,
}
use spinbox.Common.Int.{pos, ◌+ℤ◌, ◌-ℤ◌, ◌≤ℤ◌, +ℤ_parts, -ℤ_parts}
use spinbox.Hotplug.Float.{Float64}
use spinbox.Hotplug.Monitor.{scale_down, MonitorConfig, Monitor, Tick, run_ticks}
use spinbox.Hotplug.Monitor.Invariant.{IsKept, run_ticks-keeps}
use spinbox.Hotplug.Cpu.{Answer, ok, err}
use spinbox.Hotplug.Memory.{
  MemorySizeSummary, Devices, MemoryController, clamp, resize, scale_memory_up, scale_memory_down,
  MemoryConfig, sample_usage, sample_memory, evaluate_memory, memory_scaler, resized,
  evaluate_summary, usage_pct, decide_memory,
}

-- What is relied on of a virtio-mem device. `plugged` is the size that the guest has, `requested` the
-- size that was asked for last: the guest plugs and unplugs on its own towards it, at any time and as
-- far as it likes, so that `plugged` never passes the larger of the two. A query and the statistics ask
-- for nothing. A request either sets the size asked for or is lost, whatever it answers.
pub record IsVirtioMem {W E : Type 0} (d : Devices W E) (plugged requested : W → ℕ) : Type 0 where
  pub query_settles :
      (w : W)
      → let w' = (d.qmp_client.query_memory_size_summary w).0 in
        (plugged w' ≤ max (plugged w) (requested w)) × (requested w' ≡ requested w)
  pub stats_settle :
      (stats : W → W × Answer ℕ E) (w : W)
      → d.usage ≡ some stats
      → let w' = (stats w).0 in
        (plugged w' ≤ max (plugged w) (requested w)) × (requested w' ≡ requested w)
  pub set_requests :
      (size : ℕ) (w : W)
      → let w' = (d.qmp_client.set_plugged_memory size w).0 in
        ((requested w' ≡ size) ⊎ (requested w' ≡ requested w))
        × (plugged w' ≤ max (plugged w) (max (requested w) (requested w')))

-- A target is clamped to the nearest size between the boot size and the ceiling.
pub clamp-bounds :
    (c : MemoryController) (target : ℕ)
    → c.boot_memory ≤ c.max_memory
    → clamp c target ≡ max c.boot_memory (min c.max_memory target)
unfolding clamp
clamp-bounds c target h = ground arith

module _ {W E : Type 0} (d : Devices W E) (boot ceiling : ℕ) (plugged requested : W → ℕ)
    (v : IsVirtioMem d plugged requested) where
  abbrev InRange : MemoryController × W → Type 0
  InRange (c, w) =
      (c.boot_memory ≡ boot)
      × (c.max_memory ≡ ceiling)
      × (boot + plugged w ≤ ceiling)
      × (boot + requested w ≤ ceiling)

  resized_keeps :
      (c : MemoryController) (o : W × Answer ℕ E)
      → InRange (c, o.0)
      → let r = resized d c o in InRange (r.0, r.1)
  resized_keeps c (w, ok n) h = h
  resized_keeps c (w, err e) h = h

  resize_keeps :
      (target : ℕ) (c : MemoryController) (w : W)
      → target ≤ ceiling
      → InRange (c, w)
      → let r = resize d target c w in InRange (r.0, r.1)
  unfolding resize
  resize_keeps target c w t (b, m, h, q) =
      let size = target - c.boot_memory in
      let o = d.qmp_client.set_plugged_memory size w in
      let between = v.set_requests size w in ground (arith, resized_keeps c o)

  scale_up_keeps :
      (n : ℕ) (c : MemoryController) (w : W)
      → InRange (c, w)
      → let r = scale_memory_up d n c w in InRange (r.0, r.1)
  unfolding scale_memory_up
  scale_up_keeps n c w h =
      let k = clamp-bounds c (c.current_memory + n) in
      resize_keeps (clamp c (c.current_memory + n)) c w (ground arith) h

  scale_down_keeps :
      (n : ℕ) (c : MemoryController) (w : W)
      → InRange (c, w)
      → let r = scale_memory_down d n c w in InRange (r.0, r.1)
  unfolding scale_memory_down
  scale_down_keeps n c w h =
      let k = clamp-bounds c (c.current_memory - n) in
      resize_keeps (clamp c (c.current_memory - n)) c w (ground arith) h

  module _ (fl : Float64) (config : MemoryConfig fl) where
    sample_usage_keeps :
        (c : MemoryController) (o : W × Answer ℕ E)
        → InRange (c, o.0)
        → let r = sample_usage fl d c o in InRange (r.0, r.1)
    sample_usage_keeps c (w, ok n) h = h
    sample_usage_keeps c (w, err e) h = h

    sample_memory_keeps :
        (stats : Option (W → W × Answer ℕ E)) (c : MemoryController) (w : W)
        → stats ≡ d.usage
        → InRange (c, w)
        → let r = sample_memory fl d stats c w in InRange (r.0, r.1)
    unfolding sample_memory
    sample_memory_keeps none c w e h = h
    sample_memory_keeps (some stats) c w e h =
        let same = v.stats_settle stats w (sym e) in
        sample_usage_keeps c (stats w) (h.0, h.1, omega (arith, h, same), omega (arith, h, same))

    evaluate_summary_keeps :
        (c : MemoryController) (o : W × Answer MemorySizeSummary E)
        → InRange (c, o.0)
        → let r = evaluate_summary fl d config c o in InRange (r.0, r.1)
    evaluate_summary_keeps c (w, ok s) h =
        sample_memory_keeps d.usage (record c { current_memory = s.base_memory + s.plugged_memory })
          w refl h
    evaluate_summary_keeps c (w, err e) h = h

    evaluate_keeps :
        (c : MemoryController) (w : W)
        → InRange (c, w)
        → let r = evaluate_memory fl d config c w in InRange (r.0, r.1)
    unfolding evaluate_memory
    evaluate_keeps c w h =
        let same = v.query_settles w in
        evaluate_summary_keeps c (d.qmp_client.query_memory_size_summary w)
          (h.0, h.1, omega (arith, h, same), omega (arith, h, same))

    memory_scaler-IsKept : IsKept (memory_scaler fl d config) InRange
    memory_scaler-IsKept = record {
      evaluate_keeps = λ s h. evaluate_keeps s.0 s.1 h;
      up_keeps = λ s h e.
          let (c, w, x) = evaluate_memory fl d config s.0 s.1 in
          scale_up_keeps config.increment_size c w (evaluate_keeps s.0 s.1 h);
      down_keeps = λ s h e.
          let (c, w, x) = evaluate_memory fl d config s.0 s.1 in
          scale_down_keeps config.increment_size c w (evaluate_keeps s.0 s.1 h);
    }

-- With a virtio-mem device that moves on its own towards what was asked for last, whatever the
-- statistics report, the floating point computes and the requests answer, and however far the guest has
-- gone: a machine of which neither the memory nor the size asked for exceeds its ceiling never exceeds
-- it over any rounds of the monitor, and asks for no size that would.
pub memory_in_range :
    {W E : Type 0} (d : Devices W E) (plugged requested : W → ℕ) (c : MemoryController) (w : W)
    → IsVirtioMem d plugged requested
    → (fl : Float64) (config : MemoryConfig fl) (pace : MonitorConfig) (ts : List Tick)
      (m : Monitor)
    → c.boot_memory + plugged w ≤ c.max_memory
    → c.boot_memory + requested w ≤ c.max_memory
    → let w' = (run_ticks pace (memory_scaler fl d config) ts m (c, w)).1.1 in
      (c.boot_memory + plugged w' ≤ c.max_memory) × (c.boot_memory + requested w' ≤ c.max_memory)
memory_in_range d plugged requested c w v fl config pace ts m h q =
    let P = InRange d c.boot_memory c.max_memory plugged requested v in
    let k = memory_scaler-IsKept d c.boot_memory c.max_memory plugged requested v fl config in
    let r = run_ticks-keeps pace (memory_scaler fl d config) P k ts m (c, w) (refl, refl, h, q) in
    (r.2, r.3)

-- A request to take memory away comes only if that is enabled, leaves at least the boot size, and
-- what is in use with the safety margin still fits.
pub decide_memory-scale_down :
    (E : Type 0) (fl : Float64) (config : MemoryConfig fl) (c : MemoryController) (pct : fl.F)
    → decide_memory fl {E = E} config c (usage_pct pct) ≡ scale_down
    → let used =
        fl.to_int (fl.div (fl.mul (fl.of_int (pos c.current_memory)) pct) (fl.of_int (pos 100))) in
      (config.down_enabled ≡ true)
      × (c.boot_memory + config.increment_size ≤ c.current_memory)
      × (used +ℤ pos (config.oom_safety_margin_mb * 1024 * 1024 + config.increment_size)
          ≤ℤ pos c.current_memory)
unfolding decide_memory
decide_memory-scale_down E fl config c pct h =
    let used =
      fl.to_int (fl.div (fl.mul (fl.of_int (pos c.current_memory)) pct) (fl.of_int (pos 100))) in
    let margin = config.oom_safety_margin_mb * 1024 * 1024 in
    let new_memory = pos c.current_memory -ℤ pos config.increment_size in
    ground (
      arith,
      +ℤ_parts used (pos (margin + config.increment_size)),
      -ℤ_parts (pos c.current_memory) (pos config.increment_size),
      -ℤ_parts new_memory used,
    )
