-- ===== src/Hotplug/Cpu/Tests.antt =====
-- Runs of internal/shim/cpuhotplug/controller.go over a world that is QEMU's list of CPUs.
use spinbox.Common.{
  ℕ, ◌*◌, ◌/◌, ◌≤◌, true, not, none, some, List, [], ◌∷◌, length, arith, ◌==◌, if◌then◌else◌,
}
use spinbox.Common.Int.{ℤ, pos, ltb_ℤ, pos_part}
use spinbox.Hotplug.Float.{Float64}
use spinbox.Hotplug.Monitor.{MonitorConfig, new_monitor, Tick, run_ticks}
use spinbox.Hotplug.Cpu.{ok, Providers, Controller, Config, cpu_scaler}
use spinbox.Hotplug.Cpu.Range.{IsAsynchronous, cpus_in_range}

-- Whole numbers in the place of the floating point.
abbrev pub whole : Float64
whole = record {
  F = ℤ;
  of_int = λ n. n;
  to_int = λ n. n;
  mul = λ a b. pos (pos_part a * pos_part b);
  div = λ a b. pos (pos_part a / pos_part b);
  leb = λ a b. not (ltb_ℤ b a);
  ltb = ltb_ℤ;
}

abbrev remove : ℕ → List ℕ → List ℕ
remove id [] = []
remove id (i ∷ is) = let rest = remove id is in if i == id then is else i ∷ rest

abbrev remove_all : List ℕ → List ℕ → List ℕ
remove_all [] w = w
remove_all (i ∷ ids) w = remove i (remove_all ids w)

-- An unplug only notes the CPU, and the next query removes it.
abbrev slow_machine : Providers (List ℕ × List ℕ) ℕ
slow_machine = record {
  clock = λ w. 7;
  hotplugger = record {
    query_cpus = λ w. ((remove_all w.1 w.0, []), ok (remove_all w.1 w.0));
    hotplug_cpu = λ id w. ((id ∷ w.0, w.1), some 3);
    unplug_cpu = λ id w. ((w.0, id ∷ w.1), none);
  };
  stats = some (λ w. (w, ok (3000, 0)));
  offline_cpu = none;
  online_cpu = none;
}

length-remove : (id : ℕ) (w : List ℕ) → length (remove id w) ≤ length w
length-remove id [] = omega arith
length-remove id (i ∷ is) = ground (arith, length-remove id is)

length-remove_all : (ids w : List ℕ) → length (remove_all ids w) ≤ length w
length-remove_all [] w = omega arith
length-remove_all (i ∷ ids) w =
    omega (arith, length-remove i (remove_all ids w), length-remove_all ids w)

slow_machine-IsAsynchronous : IsAsynchronous slow_machine (λ w. w.0)
slow_machine-IsAsynchronous = record {
  query_reports = λ w l h. ground arith;
  query_adds_none = λ w. length-remove_all w.1 w.0;
  plug_adds = λ id w. omega arith;
  unplug_adds_none = λ id w. omega arith;
  stats_add_none = λ w. omega arith;
  online_adds_none = λ id w. omega arith;
  offline_adds_none = λ id w. omega arith;
}

abbrev config : Config whole
config = record {
  scale_up_threshold = pos 80;
  scale_down_threshold = pos 50;
  scale_up_throttle_limit = pos 5;
  enable_scale_down = true;
}

abbrev controller : Controller
controller = record {
  boot_cpus = 1;
  max_cpus = 4;
  current_cpus = pos 2;
  last_sample_time = none;
  last_usage_usec = 0;
  last_throttled_usec = 0;
}

abbrev pace : MonitorConfig
pace = record {
  scale_up_cooldown = 10;
  scale_down_cooldown = 20;
  scale_up_stability = 2;
  scale_down_stability = 3;
  enable_scale_down = true;
}

abbrev ticks : List Tick
ticks = record { now = 1; after = 2 } ∷ record { now = 6; after = 8 } ∷ []

cpus_in_range_example :
    let w =
      (run_ticks pace
        (cpu_scaler whole slow_machine config)
        ticks
        new_monitor
        (controller, (0 ∷ 1 ∷ [], []))).1.1 in
    length w.0 ≤ 4
cpus_in_range_example =
    cpus_in_range slow_machine (λ w. w.0) slow_machine-IsAsynchronous whole config pace ticks
      new_monitor controller (0 ∷ 1 ∷ [], []) (omega arith)
