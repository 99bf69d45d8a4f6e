-- ===== src/Hotplug/Memory/Tests.antt =====
-- Runs of internal/shim/memhotplug/controller.go over a world that is the size of the device.
use spinbox.Common.{ℕ, ◌+◌, ◌*◌, ◌/◌, ◌≤◌, true, not, none, some, List, [], ◌∷◌, refl, arith, inl}
use spinbox.Common.Int.{ℤ, pos, ltb_ℤ, pos_part}
use spinbox.Hotplug.Float.{Float64}
use spinbox.Hotplug.Monitor.{MonitorConfig, new_monitor, Tick, run_ticks}
use spinbox.Hotplug.Cpu.{ok, err}
use spinbox.Hotplug.Memory.{Devices, MemoryController, MemoryConfig, memory_scaler}
use spinbox.Hotplug.Memory.Range.{IsVirtioMem, memory_in_range}

-- Whole numbers in the place of the floating point.
abbrev whole : Float64
whole = record {
  F = ℤ;
  of_int = λ n. n;
  to_int = λ n. n;
  mul = λ a b. pos (pos_part a * pos_part b);
  div = λ a b. pos (pos_part a / pos_part b);
  leb = λ a b. not (ltb_ℤ b a);
  ltb = ltb_ℤ;
}

-- The plugged size and the one that was asked for: the guest follows at the next query.
abbrev machine : Devices (ℕ × ℕ) ℕ
machine = record {
  clock = λ w. 7;
  qmp_client = record {
    set_plugged_memory = λ n w. ((w.0, n), err 3);
    query_memory_size_summary =
        λ w. ((w.1, w.1), ok (record { base_memory = 512; plugged_memory = w.1 }));
  };
  usage = some (λ w. (w, ok 500));
}

machine-IsVirtioMem : IsVirtioMem machine (λ w. w.0) (λ w. w.1)
machine-IsVirtioMem = record {
  query_settles = λ w. (omega arith, refl);
  stats_settle = λ stats w h. (ground arith, ground arith);
  set_requests = λ n w. (inl refl, omega arith);
}

abbrev controller : MemoryController
controller = record {
  boot_memory = 512;
  max_memory = 2048;
  current_memory = 1024;
  last_memory_sample = none;
  last_memory_usage = 0;
}

abbrev config : MemoryConfig whole
config = record {
  up_threshold = pos 85;
  down_threshold = pos 60;
  oom_safety_margin_mb = 0;
  increment_size = 128;
  down_enabled = true;
}

abbrev pace : MonitorConfig
pace = record {
  scale_up_cooldown = 10;
  scale_down_cooldown = 20;
  scale_up_stability = 2;
  scale_down_stability = 3;
  enable_scale_down = true;
}

abbrev ticks : List Tick
ticks = record { now = 1; after = 2 } ∷ record { now = 6; after = 8 } ∷ []

memory_in_range_example :
    let w =
      (run_ticks pace
        (memory_scaler whole machine config)
        ticks
        new_monitor
        (controller, (512, 512))).1.1 in
    (512 + w.0 ≤ 2048) × (512 + w.1 ≤ 2048)
memory_in_range_example =
    memory_in_range machine (λ w. w.0) (λ w. w.1) controller (512, 512) machine-IsVirtioMem whole
      config pace ticks new_monitor (omega arith) (omega arith)
