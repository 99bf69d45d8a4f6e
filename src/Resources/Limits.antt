-- ===== src/Resources/Limits.antt =====
-- The limits that internal/shim/resources/config.go computes.
use spinbox.Common.{ℕ, ◌+◌, ◌*◌, ◌/◌, ◌%◌, ◌<◌, Option, ◌==◌, if◌then◌else◌, arith}
use spinbox.Common.Int.{ℤ}
use spinbox.Resources.{Spec, virtio_mem_alignment, extract_cpu_request, compute_config}

-- The next multiple of the alignment.
unfoldable pub align_up : ℕ → ℕ
align_up n =
    if n % virtio_mem_alignment == 0
    then n
    else (n / virtio_mem_alignment + 1) * virtio_mem_alignment

-- A request for more CPUs than the host has gives a machine that boots with more CPUs than its
-- maximum, with an explicit limit as well as without.
pub compute_config-max_cpus :
    (host_cpus : ℕ) (host_total : Option ℤ) (spec : Spec)
    → host_cpus < extract_cpu_request spec.cpu
    → let c = compute_config host_cpus host_total spec in c.max_cpus < c.boot_cpus
unfolding compute_config
compute_config-max_cpus host_cpus host_total spec h = ground arith
