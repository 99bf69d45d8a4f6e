-- ===== src/Disks/Overlay.antt =====
-- `handleOverlay` of internal/shim/platform/mounts/linux.go, and the overlay that
-- `generateOverlayIfNeeded` adds.
use Prim.Native.String
use text.Mathlib.Text.{◌==◌ as str_eq}
use spinbox.Common.{
  ℕ, zero, suc, ◌+◌, ◌-◌, String, Bool, true, false, not, ◌&&◌, ◌||◌, Option, none, some, List, [],
  ◌∷◌, ◌++◌, length, ltb, ◌==◌, if◌then◌else◌,
}
use spinbox.Mounts.{Mount, has_prefix}
use spinbox.Disks.{Result, ok, Host, Transformed}
use spinbox.Disks.Text.{contains}

-- `overlayAnalysis`; an index that is -1 is none.
pub record OverlayAnalysis : Type 0 where
  pub workdir_idx : Option ℕ
  pub upperdir_idx : Option ℕ
  pub has_lower_tmpl : Bool
  pub need_transform : Bool
  pub overlay_end : Option ℕ

abbrev end_of : Option (ℕ × ℕ) → Option ℕ → Option ℕ
end_of none old = old
end_of (some (start, end)) old = some (if ltb start end then end else start)

unfoldable pub analyze_option : Host → ℕ → String → OverlayAnalysis → OverlayAnalysis
unfolding has_prefix contains
analyze_option h i opt a =
    if has_prefix opt "upperdir="
    then record a {
      upperdir_idx = some i;
      need_transform = a.need_transform || not (contains opt "{{");
    }
    else if has_prefix opt "workdir="
    then record a {
      workdir_idx = some i;
      need_transform = a.need_transform || not (contains opt "{{");
    }
    else if has_prefix opt "lowerdir=" && contains opt "{{"
    then record a {
      has_lower_tmpl = true;
      overlay_end = end_of (h.overlay_range opt) a.overlay_end;
    }
    else a

unfoldable pub analyze_from : Host → ℕ → List String → OverlayAnalysis → OverlayAnalysis
unfolding analyze_option
analyze_from h i [] a = a
analyze_from h i (opt ∷ options) a = analyze_from h (i + 1) options (analyze_option h i opt a)

unfoldable pub analyze_overlay_options : Host → List String → OverlayAnalysis
unfolding analyze_from
analyze_overlay_options h options = analyze_from h 0 options (record {
  workdir_idx = none;
  upperdir_idx = none;
  has_lower_tmpl = false;
  need_transform = false;
  overlay_end = none;
})

-- `key{{ mount n }}dir`.
unfoldable pub in_mount : Host → String → ℕ → String → String
in_mount h key n dir =
    String.◌++◌ key (String.◌++◌ "{{ mount " (String.◌++◌ (h.itoa n) (String.◌++◌ " }}" dir)))

unfoldable pub rewrite_from : Host → ℕ → ℕ → ℕ → ℕ → List String → List String
unfolding in_mount
rewrite_from h upper work tmpfs i [] = []
rewrite_from h upper work tmpfs i (opt ∷ options) =
    let rest = rewrite_from h upper work tmpfs (i + 1) options in
    if i == upper
    then in_mount h "upperdir=" tmpfs "/upper" ∷ rest
    else if i == work
    then in_mount h "workdir=" tmpfs "/work" ∷ rest
    else opt ∷ rest

abbrev pub mkdir_options : Host → ℕ → List String
mkdir_options h n =
    in_mount h "X-containerd.mkdir.path=" n "/upper"
    ∷ in_mount h "X-containerd.mkdir.path=" n "/work"
    ∷ []

abbrev pub tmpfs_mount : Mount
tmpfs_mount = record {
  mount_type = "tmpfs";
  source = "tmpfs";
  target = "";
  options = "mode=0755" ∷ [];
}

abbrev pub over_tmpfs : Host → Mount → ℕ → ℕ → ℕ → List Mount
over_tmpfs h m upper work tmpfs =
    tmpfs_mount
    ∷ record m {
      mount_type = "format/mkdir/overlay";
      options = rewrite_from h upper work tmpfs 0 m.options ++ mkdir_options h tmpfs;
    }
    ∷ []

abbrev pub overlay_with : Host → Mount → Bool → Option ℕ → Option ℕ → Option ℕ → List Mount
overlay_with h m false upper work last = m ∷ []
overlay_with h m true none work last = m ∷ []
overlay_with h m true (some u) none last = m ∷ []
overlay_with h m true (some u) (some w) none = m ∷ []
overlay_with h m true (some u) (some w) (some e) = over_tmpfs h m u w (e + 1)

unfoldable pub handle_overlay : Host → ℕ → Mount → Result Transformed
unfolding analyze_overlay_options in_mount rewrite_from
handle_overlay h disk m =
    let a = analyze_overlay_options h m.options in
    let needed = a.has_lower_tmpl && a.need_transform in
    ok (overlay_with h m needed a.upperdir_idx a.workdir_idx a.overlay_end, [], disk)

-- What `generateOverlayIfNeeded` counts: the EROFS mounts, and the last ext4 mount.
unfoldable pub count_kinds : ℕ → List Mount → ℕ × Option ℕ → ℕ × Option ℕ
count_kinds i [] acc = acc
count_kinds i (m ∷ ms) (erofs, ext4) = count_kinds (i + 1) ms (
  (if str_eq m.mount_type "erofs" then erofs + 1 else erofs),
  (if str_eq m.mount_type "ext4" then some i else ext4),
)

unfoldable pub has_overlay : List Mount → Bool
unfolding contains
has_overlay [] = false
has_overlay (m ∷ ms) = contains m.mount_type "overlay" || has_overlay ms

-- The overlay over the first `erofs` mounts, with its upper directory in the mount `ext4`.
abbrev pub generated_overlay : Host → ℕ → ℕ → Mount
generated_overlay h erofs ext4 = record {
  mount_type = "format/mkdir/overlay";
  source = "overlay";
  target = "";
  options =
      String.◌++◌ "lowerdir={{ overlay 0 " (String.◌++◌ (h.itoa (erofs - 1)) " }}")
      ∷ in_mount h "upperdir=" ext4 "/upper"
      ∷ in_mount h "workdir=" ext4 "/work"
      ∷ mkdir_options h ext4;
}

abbrev pub with_overlay : Host → List Mount → ℕ × Option ℕ → List Mount
with_overlay h ms (zero, ext4) = ms
with_overlay h ms (suc n, none) = ms
with_overlay h ms (suc n, some i) =
    if i + 1 == length ms then ms ++ (generated_overlay h (suc n) i ∷ []) else ms

unfoldable pub generate_overlay_if_needed : Host → List Mount → List Mount
unfolding count_kinds has_overlay in_mount
generate_overlay_if_needed h ms =
    if ltb (length ms) 2 || has_overlay ms
    then ms
    else with_overlay h ms (count_kinds 0 ms (0, none))
