-- ===== src/Mounts.antt =====
-- internal/host/mountutil/mount.go: the mounts of a root filesystem, one over the other, with the
-- rewriting of their options and the cleanup. What the kernel, the serial numbers of block devices
-- and the regular expressions of `formatString` answer are arguments, and so are the number parsers
-- of the standard library. `log` is the sequence of mounts and unmounts, oldest first.
pub mod Overlay
pub mod Options
pub mod Balance
mod Tests
use text.Mathlib.Text.{◌==◌ as str_eq}
use Prim.Native.Char.{code}
use mathlib.Core.Option
use spinbox.Common.{
  ℕ, zero, suc, ◌+◌, ◌-◌, String, Bool, true, false, not, ◌&&◌, ◌||◌, Option, none, some, List, [],
  ◌∷◌, ◌++◌, map, length, reverse, ltb, leb, ◌==◌, if◌then◌else◌,
}
use spinbox.Common.Int.{ℤ, pos, negsuc}

pub record Mount : Type 0 where
  pub mount_type : String
  pub source : String
  pub target : String
  pub options : List String

pub record ActiveMount : Type 0 where
  pub mount : Mount
  pub mount_point : String

-- `strings.CutPrefix`.
unfoldable pub cut_prefix : String → String → Option String
cut_prefix String.[] s = some s
cut_prefix (String.◌∷◌ c p) String.[] = none
cut_prefix (String.◌∷◌ c p) (String.◌∷◌ d s) =
    let rest = cut_prefix p s in if code c == code d then rest else none

abbrev pub is_some : {A : Type 0} → Option A → Bool
is_some none = false
is_some (some a) = true

unfoldable pub has_prefix : String → String → Bool
unfolding cut_prefix
has_prefix s p = is_some (cut_prefix p s)

-- `mkdirSpec`.
pub record MkdirSpec : Type 0 where
  pub path : String
  pub mode : ℕ
  pub uid : ℤ
  pub gid : ℤ

-- The parsers of numbers, and `strings.SplitN` at colons into four parts at most.
pub record Parsers : Type 0 where
  pub atoi : String → Option ℤ
  pub parse_octal : String → Option ℕ
  pub split_colons : String → List String

abbrev pub minus_one : ℤ
minus_one = negsuc 0

-- The fields that the parts give, from the last to the second.
abbrev mkdir_numbers : Parsers → List String → Option (ℕ × ℤ × ℤ)
mkdir_numbers ps [] = some (493, minus_one, minus_one)
mkdir_numbers ps (mode ∷ []) = Option.map (λ m. (m, minus_one, minus_one)) (ps.parse_octal mode)
mkdir_numbers ps (mode ∷ uid ∷ []) = elim (ps.atoi uid) [
  | none ↦ none
  | some u ↦ Option.map (λ m. (m, u, minus_one)) (ps.parse_octal mode)
]
mkdir_numbers ps (mode ∷ uid ∷ gid ∷ []) = elim (ps.atoi gid) [
  | none ↦ none
  | some g ↦ elim (ps.atoi uid) [
    | none ↦ none
    | some u ↦ Option.map (λ m. (m, u, g)) (ps.parse_octal mode)
  ]
]
mkdir_numbers ps (mode ∷ uid ∷ gid ∷ more ∷ rest) = none

abbrev mkdir_spec : String → String → Option (ℕ × ℤ × ℤ) → Option MkdirSpec
mkdir_spec path base_dir none = none
mkdir_spec path base_dir (some (mode, uid, gid)) =
    if not (has_prefix path base_dir)
    then none
    else some (record { path = path; mode = mode; uid = uid; gid = gid })

abbrev mkdir_parts : Parsers → String → List String → Option MkdirSpec
mkdir_parts ps base_dir [] = none
mkdir_parts ps base_dir (path ∷ numbers) = mkdir_spec path base_dir (mkdir_numbers ps numbers)

unfoldable pub parse_mkdir_option : Parsers → String → String → Option MkdirSpec
unfolding cut_prefix has_prefix
parse_mkdir_option ps opt base_dir = elim (cut_prefix "X-containerd.mkdir.path=" opt) [
  | none ↦ none
  | some rest ↦ mkdir_parts ps base_dir (ps.split_colons rest)
]

abbrev with_spec :
    Option MkdirSpec → Option (List String × List MkdirSpec) → Option (List String × List MkdirSpec)
with_spec none rest = none
with_spec (some spec) none = none
with_spec (some spec) (some (remaining, specs)) = some (remaining, spec ∷ specs)

-- The options that remain, and the directories to make; none for an error.
unfoldable pub process_mkdir_options :
    Parsers → List String → String → Option (List String × List MkdirSpec)
unfolding parse_mkdir_option has_prefix
process_mkdir_options ps [] base_dir = some ([], [])
process_mkdir_options ps (opt ∷ opts) base_dir =
    let rest = process_mkdir_options ps opts base_dir in
    if has_prefix opt "X-containerd.mkdir."
    then with_spec (parse_mkdir_option ps opt base_dir) rest
    else Option.map (λ (remaining, specs). (opt ∷ remaining, specs)) rest

abbrev mount_point_at : ℕ → List ActiveMount → String
mount_point_at i [] = ""
mount_point_at zero (a ∷ active) = a.mount_point
mount_point_at (suc i) (a ∷ active) = mount_point_at i active

-- The two loops of `buildOverlayDirs`: so many mount points from an index up, and down.
unfoldable pub dirs_up : List ActiveMount → ℕ → ℕ → List String
dirs_up active i zero = []
dirs_up active i (suc n) = mount_point_at i active ∷ dirs_up active (i + 1) n

unfoldable pub dirs_down : List ActiveMount → ℕ → ℕ → List String
dirs_down active i zero = []
dirs_down active i (suc n) = mount_point_at i active ∷ dirs_down active (i - 1) n

-- The directories before they are joined with colons. The indices are digits, so not negative.
unfoldable pub build_overlay_dirs : ℕ → ℕ → List ActiveMount → Option (List String)
unfolding dirs_up dirs_down
build_overlay_dirs start end_index active =
    if ltb end_index start
    then (if leb (length active) start
        then none
        else some (dirs_down active start (start - end_index + 1)))
    else if leb (length active) end_index
    then none
    else some (dirs_up active start (end_index - start + 1))

-- What is answered to the calls of `All`: the directory that is made for a mount, the rewriting of
-- a mount, the directories of the options, the device of a source (none for an error), and the
-- mount and the unmounts themselves.
pub record Host : Type 0 where
  pub parsers : Parsers
  pub target_of : ℕ → String
  pub mkdir : String → Bool
  pub apply_format : Mount → List ActiveMount → Option Mount
  pub apply_mkdirs : List MkdirSpec → Bool
  pub resolve_source : String → Option String
  pub mounts : Mount → String → Bool
  pub unmounts : String → Bool

pub data Act : Type 0 where
  mounted unmounted : String → Act

-- The loop of `cleanupMounts` over the mounts, the last first; the flag is whether none failed.
unfoldable pub cleanup_loop : Host → List ActiveMount → List Act → List Act × Bool
cleanup_loop h [] log = (log, true)
cleanup_loop h (a ∷ active) log =
    let (skipped, fine) = cleanup_loop h active log in
    let (log', all_fine) = cleanup_loop h active (log ++ (unmounted a.mount_point ∷ [])) in
    if str_eq a.mount.mount_type "mkdir"
    then (skipped, fine)
    else (log', h.unmounts a.mount_point && all_fine)

unfoldable pub cleanup_mounts : Host → List ActiveMount → List Act → List Act × Bool
unfolding cleanup_loop
cleanup_mounts h active log = cleanup_loop h (reverse active) log

abbrev handle_format : Host → Mount → List ActiveMount → Option String → Option Mount
handle_format h m active none = some m
handle_format h m active (some t) = h.apply_format (record m { mount_type = t }) active

abbrev make_dirs : Host → Mount → Option (List String × List MkdirSpec) → Option Mount
make_dirs h m none = none
make_dirs h m (some (remaining, specs)) =
    if h.apply_mkdirs specs then some (record m { options = remaining }) else none

abbrev handle_mkdir : Host → String → Mount → Option String → Option Mount
handle_mkdir h mdir m none = some m
handle_mkdir h mdir m (some t) =
    make_dirs h (record m { mount_type = t }) (process_mkdir_options h.parsers m.options mdir)

abbrev and_then : Option Mount → (Mount → Option Mount) → Option Mount
and_then none f = none
and_then (some m) f = f m

-- A mount as it is made, once its prefixes have been handled; none for an error.
unfoldable pub prepare : Host → String → Mount → List ActiveMount → Option Mount
unfolding cut_prefix process_mkdir_options
prepare h mdir m active =
    and_then (handle_format h m active (cut_prefix "format/" m.mount_type)) (λ m₁.
      and_then (handle_mkdir h mdir m₁ (cut_prefix "mkdir/" m₁.mount_type))
        (λ m₂. Option.map (λ s. record m₂ { source = s }) (h.resolve_source m₂.source)))

-- The outcome of `All`: the mounts that the cleanup function will unmount, or an error.
pub data Outcome : Type 0 where
  all_mounted : List ActiveMount → Outcome
  mount_error : Outcome

abbrev pub give_up : Host → List ActiveMount → List Act → List Act × Outcome
give_up h active log = ((cleanup_mounts h active log).0, mount_error)

abbrev is_nil : {A : Type 0} → List A → Bool
is_nil [] = true
is_nil (a ∷ as') = false

-- The target of a mount: the root filesystem for the last.
abbrev target_at : Host → String → ℕ → List Mount → String
target_at h rootfs i rest = if is_nil rest then rootfs else h.target_of i

unfoldable pub all_loop :
    Host → String → String → ℕ → List Mount → List ActiveMount → List Act → List Act × Outcome
unfolding prepare cleanup_mounts
all_loop h rootfs mdir i [] active log = (log, all_mounted active)
all_loop h rootfs mdir i (m ∷ ms) active log =
    let target = target_at h rootfs i ms in
    let next : Mount → List Act × Outcome = λ m'.
      all_loop h rootfs mdir (i + 1) ms
        (active ++ (record { mount = m'; mount_point = target } ∷ []))
        (log ++ (mounted target ∷ [])) in
    if not (is_nil ms) && not (h.mkdir target)
    then give_up h active log
    else elim (prepare h mdir m active) [
      | none ↦ give_up h active log
      | some m' ↦ if h.mounts m' target then next m' else give_up h active log
    ]

unfoldable pub mount_all : Host → String → String → List Mount → List Act → List Act × Outcome
unfolding all_loop
mount_all h rootfs mdir mounts log = all_loop h rootfs mdir 0 mounts [] log
