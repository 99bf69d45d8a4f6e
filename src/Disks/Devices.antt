-- ===== src/Disks/Devices.antt =====
-- `handleEROFS` and `handleExt4` of internal/shim/platform/mounts/linux.go. The options that
-- `handleExt4` also writes back into the mount it is given are read by nothing here.
use Prim.Native.String
use text.Mathlib.Text.{◌==◌ as str_eq}
use spinbox.Common.{
  ℕ, ◌+◌, ◌%◌, String, Bool, true, false, ◌||◌, none, some, List, [], ◌∷◌, if◌then◌else◌,
}
use spinbox.Mounts.{Mount, has_prefix}
use spinbox.Disks.{
  Result, ok, err, Host, DiskOptions, Transformed, block_serial_scheme, default_disk_format,
}
use spinbox.Disks.Text.{has_suffix, trim_suffix, take_chars}
use spinbox.Disks.Layers.{verify_vmdk_manifest}

unfoldable pub truncate_id : String → String → String
unfolding take_chars
truncate_id prefix id = take_chars 36 (String.◌++◌ prefix (String.◌++◌ "-" id))

unfoldable pub block_serial : Host → ℕ → String
block_serial h disk = String.◌++◌ "sbxblk" (h.itoa disk)

unfoldable pub filter_options : List String → List String
filter_options [] = []
filter_options (o ∷ os) = let rest = filter_options os in if str_eq o "loop" then rest else o ∷ rest

unfoldable pub without_devices : List String → List String
unfolding has_prefix
without_devices [] = []
without_devices (o ∷ os) =
    let rest = without_devices os in if has_prefix o "device=" then rest else o ∷ rest

abbrev erofs_source : Host → Mount → String → Bool → Result (String × Bool)
erofs_source h m vmdk_path false = ok (m.source, false)
erofs_source h m vmdk_path true = elim (verify_vmdk_manifest h vmdk_path m.options) [
  | none ↦ ok (vmdk_path, true)
  | some e ↦ err e
]

-- The file behind an EROFS mount, and whether it is a VMDK.
unfoldable pub choose_source : Host → Mount → Result (String × Bool)
unfolding has_suffix trim_suffix verify_vmdk_manifest
choose_source h m =
    let vmdk_path = String.◌++◌ (trim_suffix m.source "fsmeta.erofs") "merged.vmdk" in
    if has_suffix m.source "fsmeta.erofs"
    then erofs_source h m vmdk_path (h.has_vmdk vmdk_path)
    else ok (m.source, has_suffix m.source ".vmdk")

unfoldable pub disk_name : Host → String → ℕ → String
unfolding truncate_id
disk_name h id disk = truncate_id (String.◌++◌ "disk-" (h.itoa ((disk + 97) % 256))) id

unfoldable pub next_disk : ℕ → ℕ
next_disk disk = (disk + 1) % 256

abbrev pub guest_mount : Host → String → ℕ → Mount → List String → Mount
guest_mount h kind disk m options = record {
  mount_type = kind;
  source = String.◌++◌ block_serial_scheme (block_serial h disk);
  target = m.target;
  options = filter_options options;
}

abbrev pub erofs_on : Host → String → ℕ → Mount → Result (String × Bool) → Result Transformed
erofs_on h id disk m (err e) = err e
erofs_on h id disk m (ok (source, is_vmdk)) =
    let d : DiskOptions = record {
      name = disk_name h id disk;
      source = source;
      serial = block_serial h disk;
      read_only = true;
      format = if is_vmdk then "vmdk" else default_disk_format;
    } in
    ok (guest_mount h "erofs" disk m (without_devices m.options) ∷ [], d ∷ [], next_disk disk)

unfoldable pub handle_erofs : Host → String → ℕ → Mount → Result Transformed
unfolding choose_source disk_name block_serial next_disk filter_options without_devices
handle_erofs h id disk m = erofs_on h id disk m (choose_source h m)

unfoldable pub is_read_only : List String → Bool
is_read_only [] = false
is_read_only (o ∷ os) = str_eq o "ro" || str_eq o "readonly" || is_read_only os

unfoldable pub handle_ext4 : Host → String → ℕ → Mount → Result Transformed
unfolding disk_name block_serial next_disk filter_options is_read_only
handle_ext4 h id disk m =
    let d : DiskOptions = record {
      name = disk_name h id disk;
      source = m.source;
      serial = block_serial h disk;
      read_only = is_read_only m.options;
      format = default_disk_format;
    } in
    ok (guest_mount h "ext4" disk m m.options ∷ [], d ∷ [], next_disk disk)
