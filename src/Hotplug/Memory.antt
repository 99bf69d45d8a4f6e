-- ===== src/Hotplug/Memory.antt =====
-- internal/shim/memhotplug/controller.go. QEMU and the cgroup statistics are the interfaces
-- `qmpMemoryClient` and `StatsProvider` over a world `W`. Sizes are bytes, not negative and
-- far under 2^63; a difference that could be negative is in ℤ, or is clamped at once.
pub mod Range
mod Tests
use spinbox.Common.{
  ℕ, ◌+◌, ◌-◌, ◌*◌, Bool, true, false, not, ◌&&◌, Option, none, some, ltb, leb, ◌==◌, if◌then◌else◌,
}
use spinbox.Common.Int.{ℤ, pos, ◌-ℤ◌, ltb_ℤ}
use spinbox.Hotplug.Float.{Float64}
use spinbox.Hotplug.Monitor.{
  ScaleDirection, scale_none, scale_up, scale_down, Evaluation, direction, failed, ResourceScaler,
}
use spinbox.Hotplug.Cpu.{Answer, ok, err}

-- `qemu.MemorySizeSummary`.
pub record MemorySizeSummary : Type 0 where
  pub base_memory : ℕ
  pub plugged_memory : ℕ

pub record QmpMemoryClient (W E : Type 0) : Type 0 where
  pub set_plugged_memory : ℕ → W → W × Answer ℕ E
  pub query_memory_size_summary : W → W × Answer MemorySizeSummary E

pub record Devices (W E : Type 0) : Type 0 where
  -- `time.Now`, as the world shows it.
  pub clock : W → ℕ
  pub qmp_client : QmpMemoryClient W E
  pub usage : Option (W → W × Answer ℕ E)

pub record MemoryController : Type 0 where
  pub boot_memory : ℕ
  pub max_memory : ℕ
  pub current_memory : ℕ
  pub last_memory_sample : Option ℕ
  pub last_memory_usage : ℕ

-- `none` is the no-op controller.
unfoldable pub new_memory_controller : ℕ → ℕ → Option MemoryController
new_memory_controller boot_memory max_memory =
    if leb max_memory boot_memory
    then none
    else some (record {
      boot_memory = boot_memory;
      max_memory = max_memory;
      current_memory = boot_memory;
      last_memory_sample = none;
      last_memory_usage = 0;
    })

unfoldable pub clamp : MemoryController → ℕ → ℕ
clamp c target =
    if ltb c.max_memory target
    then c.max_memory
    else if ltb target c.boot_memory
    then c.boot_memory
    else target

module _ {W E : Type 0} (d : Devices W E) where
  abbrev pub resized : MemoryController → W × Answer ℕ E → MemoryController × W × Option E
  resized c (w, err e) = (c, w, some e)
  resized c (w, ok plugged) = (record c { current_memory = c.boot_memory + plugged }, w, none)

  -- The targets are clamped, so that they are not under the boot size.
  unfoldable pub resize : ℕ → MemoryController → W → MemoryController × W × Option E
  resize target c w =
      if target == c.current_memory
      then (c, w, none)
      else resized c (d.qmp_client.set_plugged_memory (target - c.boot_memory) w)

  unfoldable pub scale_memory_up : ℕ → MemoryController → W → MemoryController × W × Option E
  unfolding resize clamp
  scale_memory_up increment_size c w = resize (clamp c (c.current_memory + increment_size)) c w

  unfoldable pub scale_memory_down : ℕ → MemoryController → W → MemoryController × W × Option E
  unfolding resize clamp
  scale_memory_down increment_size c w = resize (clamp c (c.current_memory - increment_size)) c w

module _ (fl : Float64) where
  open fl use {F, of_int, to_int, mul, div}

  pub record MemoryConfig : Type 0 where
    pub up_threshold : F
    pub down_threshold : F
    pub oom_safety_margin_mb : ℕ
    pub increment_size : ℕ
    pub down_enabled : Bool

  pub data MemorySample (E : Type 0) : Type 0 where
    usage_failed : E → MemorySample E
    no_usage : MemorySample E
    usage_pct : F → MemorySample E

  unfoldable pub decide_memory :
      {E : Type 0} → MemoryConfig → MemoryController → MemorySample E → ScaleDirection
  decide_memory config c (usage_failed e) = scale_none
  decide_memory config c no_usage = scale_none
  decide_memory config c (usage_pct pct) =
      let used = to_int (div (mul (of_int (pos c.current_memory)) pct) (of_int (pos 100))) in
      let free = pos c.current_memory -ℤ used in
      let margin = pos (config.oom_safety_margin_mb * 1024 * 1024) in
      let new_memory = pos c.current_memory -ℤ pos config.increment_size in
      if fl.leb config.up_threshold pct && ltb_ℤ free margin && ltb c.current_memory c.max_memory
      then scale_up
      else if config.down_enabled
          && ltb c.boot_memory c.current_memory
          && fl.ltb pct config.down_threshold
          && not (ltb_ℤ new_memory (pos c.boot_memory))
          && not (ltb_ℤ (new_memory -ℤ used) margin)
      then scale_down
      else scale_none

  module _ {W E : Type 0} (d : Devices W E) where
    -- The first sample only starts the record.
    abbrev pub pct_since : Option ℕ → ℕ → MemoryController → MemorySample E
    pct_since none usage c = no_usage
    pct_since (some last) usage c =
        usage_pct
          (mul (div (of_int (pos usage)) (of_int (pos c.current_memory))) (of_int (pos 100)))

    abbrev pub sample_usage :
        MemoryController → W × Answer ℕ E → MemoryController × W × MemorySample E
    sample_usage c (w, err e) = (c, w, usage_failed e)
    sample_usage c (w, ok usage) = (
      record c { last_memory_sample = some (d.clock w); last_memory_usage = usage },
      w,
      pct_since c.last_memory_sample usage c,
    )

    unfoldable pub sample_memory :
        Option (W → W × Answer ℕ E) → MemoryController → W → MemoryController × W × MemorySample E
    sample_memory none c w = (c, w, no_usage)
    sample_memory (some stats) c w = sample_usage c (stats w)

    abbrev pub evaluate_summary :
        MemoryConfig
        → MemoryController
        → W × Answer MemorySizeSummary E
        → MemoryController × W × Evaluation E
    evaluate_summary config c (w, err e) = (c, w, failed e)
    evaluate_summary config c (w, ok summary) =
        let c' = record c { current_memory = summary.base_memory + summary.plugged_memory } in
        let (c'', w', s) = sample_memory d.usage c' w in
        (c'', w', direction (decide_memory config c'' s))

    unfoldable pub evaluate_memory :
        MemoryConfig → MemoryController → W → MemoryController × W × Evaluation E
    unfolding sample_memory decide_memory
    evaluate_memory config c w =
        evaluate_summary config c (d.qmp_client.query_memory_size_summary w)

    abbrev pub with_world : {A : Type 0} → MemoryController × W × A → (MemoryController × W) × A
    with_world (c, w, a) = ((c, w), a)

    -- The controller as the monitor sees it: its state and the world are the scaler's world.
    abbrev pub memory_scaler : MemoryConfig → ResourceScaler (MemoryController × W) E
    memory_scaler config = record {
      evaluate_scaling = λ s. with_world (evaluate_memory config s.0 s.1);
      do_scale_up = λ s. with_world (scale_memory_up d config.increment_size s.0 s.1);
      do_scale_down = λ s. with_world (scale_memory_down d config.increment_size s.0 s.1);
    }
