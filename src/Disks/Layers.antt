-- ===== src/Disks/Layers.antt =====
-- `verifyVMDKManifest` and `layerDigestFromDevicePath` of internal/shim/platform/mounts/linux.go.
use Prim.Native.String
use text.Mathlib.Text.{◌==◌ as str_eq}
use spinbox.Common.{
  String, Bool, true, false, ◌&&◌, Option, none, some, List, [], ◌∷◌, if◌then◌else◌,
}
use spinbox.Mounts.{cut_prefix}
use spinbox.Disks.{
  MountError, unreadable_manifest, stale_vmdk, Manifest, missing, unreadable, lines, Host,
}
use spinbox.Disks.Text.{has_suffix, trim_suffix, dash_to_colon}

-- The digest, or none for a blob that is not named by one.
unfoldable pub layer_digest_from_device_path : Host → String → Option String
unfolding has_suffix trim_suffix dash_to_colon
layer_digest_from_device_path h p =
    let name = h.base p in
    let digest = dash_to_colon (trim_suffix name ".erofs") in
    if has_suffix name ".erofs" && h.is_digest digest then some digest else none

abbrev layer_token : Host → String → Option String → String
layer_token h blob (some d) = d
layer_token h blob none = String.◌++◌ "blob:" (h.base blob)

-- The lines that the manifest should have, one for each `device=` option.
unfoldable pub expected_lines : Host → List String → List String
unfolding cut_prefix layer_digest_from_device_path
expected_lines h [] = []
expected_lines h (opt ∷ options) =
    let rest = expected_lines h options in
    elim (cut_prefix "device=" opt) [
      | none ↦ rest
      | some blob ↦ layer_token h blob (layer_digest_from_device_path h blob) ∷ rest
    ]

unfoldable pub equal_lines : List String → List String → Bool
equal_lines [] [] = true
equal_lines [] (t ∷ ts) = false
equal_lines (s ∷ ss) [] = false
equal_lines (s ∷ ss) (t ∷ ts) = str_eq s t && equal_lines ss ts

unfoldable pub non_empty : List String → List String
non_empty [] = []
non_empty (s ∷ ss) = let rest = non_empty ss in if str_eq s "" then rest else s ∷ rest

abbrev compare_lines : List String → List String → Option MountError
compare_lines [] expected = none
compare_lines (l ∷ ls) expected = if equal_lines (l ∷ ls) expected then none else some stale_vmdk

abbrev verify_manifest : Host → List String → Manifest → Option MountError
verify_manifest h options missing = none
verify_manifest h options unreadable = some unreadable_manifest
verify_manifest h options (lines ls) = compare_lines (non_empty ls) (expected_lines h options)

unfoldable pub verify_vmdk_manifest : Host → String → List String → Option MountError
unfolding non_empty expected_lines equal_lines
verify_vmdk_manifest h vmdk_path options = verify_manifest h options (h.manifest vmdk_path)
