-- ===== src/Resources.antt =====
-- internal/shim/resources/config.go. A nil pointer on the way to a value is `none`; the host's CPUs
-- and memory are arguments. A CPU set is what splitting its text and `strconv.Atoi` give. Sizes are
-- `int64`, whose products wrap.
pub mod Limits
mod Tests
use spinbox.Common.{
  ℕ, zero, suc, ◌+◌, ◌-◌, ◌*◌, ◌/◌, ◌%◌, ◌^◌, min, Bool, true, false, not, ◌||◌, Option, none, some,
  List, [], ◌∷◌, length, ltb, ◌==◌, if◌then◌else◌,
}
use spinbox.Common.Int.{ℤ, pos, negsuc, pos_part, sub_ℕ, ltb_ℤ}

-- A part between commas that is not blank: a number or a range, with `none` for what is no
-- number.
pub data CpuPart : Type 0 where
  single : Option ℤ → CpuPart
  range : Option ℤ → Option ℤ → CpuPart

-- `specs.LinuxCPU`; `cpus` is `none` for an empty text.
pub record LinuxCpu : Type 0 where
  pub quota : Option ℤ
  pub period : Option ℕ
  pub cpus : Option (List CpuPart)

pub record LinuxMemory : Type 0 where
  pub limit : Option ℤ

pub record Spec : Type 0 where
  pub cpu : Option LinuxCpu
  pub memory : Option LinuxMemory

unfoldable pub is_in : ℕ → List ℕ → Bool
is_in cpu [] = false
is_in cpu (c ∷ cs) = c == cpu || is_in cpu cs

-- The map of CPUs.
unfoldable pub insert : ℕ → List ℕ → List ℕ
unfolding is_in
insert cpu cpus = if is_in cpu cpus then cpus else cpu ∷ cpus

-- The loop over a range, from `start` on with so many CPUs left.
unfoldable pub insert_range : ℕ → ℕ → List ℕ → List ℕ
unfolding insert
insert_range zero start cpus = cpus
insert_range (suc left) start cpus = insert_range left (start + 1) (insert start cpus)

-- One part; `none` if it is invalid.
unfoldable pub insert_part : CpuPart → List ℕ → Option (List ℕ)
unfolding insert insert_range
insert_part (single (some (pos cpu))) cpus = some (insert cpu cpus)
insert_part (single (some (negsuc n))) cpus = none
insert_part (single none) cpus = none
insert_part (range (some (pos start)) (some (pos end))) cpus =
    if ltb end start then none else some (insert_range (end + 1 - start) start cpus)
insert_part (range none end) cpus = none
insert_part (range (some (negsuc n)) end) cpus = none
insert_part (range (some (pos start)) none) cpus = none
insert_part (range (some (pos start)) (some (negsuc n))) cpus = none

unfoldable pub parse_parts : List CpuPart → List ℕ → ℕ
unfolding insert_part
parse_parts [] cpus = length cpus
parse_parts (p ∷ ps) cpus = elim (insert_part p cpus) [
  | none ↦ 0
  | some cpus' ↦ parse_parts ps cpus'
]

unfoldable pub parse_cpu_set : List CpuPart → ℕ
unfolding parse_parts
parse_cpu_set ps = parse_parts ps []

abbrev pub at_least_1 : ℕ → ℕ
at_least_1 n = if ltb 0 n then n else 1

abbrev pub from_cpu_set : Option (List CpuPart) → ℕ
from_cpu_set none = 1
from_cpu_set (some ps) = at_least_1 (parse_cpu_set ps)

-- A quotient that is not positive gives one CPU.
abbrev pub from_quota : Option ℤ → Option ℕ → Option (List CpuPart) → ℕ
from_quota (some q) (some p) cpus =
    if ltb 0 p then at_least_1 (pos_part q / p) else from_cpu_set cpus
from_quota none p cpus = from_cpu_set cpus
from_quota (some q) none cpus = from_cpu_set cpus

unfoldable pub extract_cpu_request : Option LinuxCpu → ℕ
unfolding parse_cpu_set
extract_cpu_request none = 1
extract_cpu_request (some cpu) = from_quota cpu.quota cpu.period cpu.cpus

abbrev pub megabyte : ℕ
megabyte = 1024 * 1024

abbrev pub default_memory : ℕ
default_memory = 512 * megabyte

abbrev pub positive_or_default : Option ℤ → ℕ
positive_or_default none = default_memory
positive_or_default (some limit) = if ltb 0 (pos_part limit) then pos_part limit else default_memory

unfoldable pub extract_memory_request : Option LinuxMemory → ℕ
extract_memory_request none = default_memory
extract_memory_request (some mem) = positive_or_default mem.limit

abbrev pub virtio_mem_alignment : ℕ
virtio_mem_alignment = 128 * megabyte

-- The `int64` of a number, which wraps at 2^64.
unfoldable pub to_int64 : ℕ → ℤ
to_int64 n = let m = n % 2 ^ 64 in if ltb m (2 ^ 63) then pos m else negsuc (2 ^ 64 - m - 1)

-- `/` and `%` cut off towards 0. The guards that panic are met by the one alignment that is used, which
-- is a power of 2.
unfoldable pub align_memory : ℤ → ℕ → ℤ
unfolding to_int64
align_memory (pos n) alignment =
    if n % alignment == 0 then pos n else to_int64 ((n / alignment + 1) * alignment)
align_memory (negsuc n) alignment =
    let blocks = (n + 1) / alignment in
    if (n + 1) % alignment == 0
    then negsuc n
    else if blocks == 0
    then pos alignment
    else sub_ℕ 0 ((blocks - 1) * alignment)

unfoldable pub double : ℤ → ℤ
unfolding to_int64
double (pos n) = to_int64 (n * 2)
double (negsuc n) = to_int64 (2 ^ 64 - (n * 2 + 2) % 2 ^ 64)

abbrev pub min_ℤ : ℤ → ℤ → ℤ
min_ℤ a b = if ltb_ℤ b a then b else a

pub record VmResourceConfig : Type 0 where
  pub boot_cpus : ℕ
  pub max_cpus : ℕ
  pub memory_size : ℤ
  pub memory_hotplug_size : ℤ

abbrev pub is_set : {A : Type 0} → Option A → Bool
is_set none = false
is_set (some a) = true

abbrev pub has_explicit_cpu_limit : Option LinuxCpu → Bool
has_explicit_cpu_limit none = false
has_explicit_cpu_limit (some cpu) = is_set cpu.quota || is_set cpu.cpus

abbrev pub has_explicit_memory_limit : Option LinuxMemory → Bool
has_explicit_memory_limit none = false
has_explicit_memory_limit (some mem) = is_set mem.limit

-- The host's memory is 4 GB if it cannot be found out.
abbrev pub or_conservative_default : Option ℤ → ℤ
or_conservative_default none = pos (4 * 1024 * megabyte)
or_conservative_default (some memory) = memory

unfoldable pub compute_config : ℕ → Option ℤ → Spec → VmResourceConfig
unfolding extract_cpu_request extract_memory_request align_memory double
compute_config host_cpus host_total spec =
    let cpu_request = extract_cpu_request spec.cpu in
    let memory_request =
      align_memory (pos (extract_memory_request spec.memory)) virtio_mem_alignment in
    let host_memory = align_memory (or_conservative_default host_total) virtio_mem_alignment in
    record {
      boot_cpus = cpu_request;
      max_cpus = if has_explicit_cpu_limit spec.cpu then min cpu_request host_cpus else host_cpus;
      memory_size = memory_request;
      memory_hotplug_size =
          if has_explicit_memory_limit spec.memory
          then align_memory (min_ℤ (double memory_request) host_memory) virtio_mem_alignment
          else host_memory;
    }
