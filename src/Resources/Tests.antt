-- ===== src/Resources/Tests.antt =====
-- Runs of `ComputeConfig` of internal/shim/resources/config.go.
use spinbox.Common.{none, some, [], ◌∷◌, ◌≡◌, refl}
use spinbox.Common.Int.{pos, negsuc}
use spinbox.Resources.{single, range, Spec, compute_config, parse_cpu_set}

-- "0-3,2,9"
five_cpus :
    parse_cpu_set
      (range (some (pos 0)) (some (pos 3)) ∷ single (some (pos 2)) ∷ single (some (pos 9)) ∷ [])
    ≡ 5
unfolding parse_cpu_set
five_cpus = refl

abbrev spec : Spec
spec = record {
  cpu = some (record { quota = some (pos 800000); period = some 100000; cpus = none });
  memory = some (record { limit = some (pos 300000000) });
}

-- The limit that stands for none in a cgroup.
abbrev unlimited : Spec
unlimited = record { cpu = none; memory = some (record { limit = some (pos 9223372036854771712) }) }

unlimited_size : (compute_config 4 none unlimited).memory_size ≡ negsuc 9223372036854775807
unfolding compute_config
unlimited_size = refl
