-- ===== src/Disks/Transform.antt =====
-- `Setup` of internal/shim/platform/mounts/linux.go: the loop of `transformMounts`, the bound on the
-- disks, and the disks that the VM gets.
use text.Mathlib.Text.{◌==◌ as str_eq}
use spinbox.Common.{
  ℕ, String, Bool, ◌||◌, Option, none, some, List, [], ◌∷◌, ◌++◌, length, ltb, if◌then◌else◌,
}
use spinbox.Mounts.{Mount, has_prefix}
use spinbox.Disks.{
  MountError, not_implemented, too_many_disks, not_added, Result, ok, err, Host, DiskOptions,
  Transformed, max_virtio_disks,
}
use spinbox.Disks.Devices.{handle_erofs, handle_ext4}
use spinbox.Disks.Overlay.{handle_overlay, generate_overlay_if_needed}

abbrev pub Kind : Type 0
Kind = String → Bool

abbrev pub is_erofs_kind : Kind
is_erofs_kind t = str_eq t "erofs" || str_eq t "format/erofs"

abbrev pub is_overlay_kind : Kind
is_overlay_kind t =
    str_eq t "overlay" || str_eq t "format/overlay" || str_eq t "format/mkdir/overlay"

abbrev pub is_managed_kind : Kind
is_managed_kind t = has_prefix t "mkfs/" || has_prefix t "format/"

unfoldable pub transform_mount : Host → String → ℕ → Mount → Result Transformed
unfolding handle_erofs handle_ext4 handle_overlay has_prefix
transform_mount h id disk m =
    if is_erofs_kind m.mount_type
    then handle_erofs h id disk m
    else if str_eq m.mount_type "ext4"
    then handle_ext4 h id disk m
    else if is_overlay_kind m.mount_type
    then handle_overlay h disk m
    else if is_managed_kind m.mount_type
    then err not_implemented
    else ok (m ∷ [], [], disk)

abbrev pub joined : Transformed → Result Transformed → Result Transformed
joined t (err e) = err e
joined (ms, ds, n) (ok (ms', ds', n')) = ok (ms ++ ms', ds ++ ds', n')

-- The loop of `transformMounts`.
unfoldable pub transform_all : Host → String → ℕ → List Mount → Result Transformed
unfolding transform_mount
transform_all h id disk [] = ok ([], [], disk)
transform_all h id disk (m ∷ ms) = elim (transform_mount h id disk m) [
  | err e ↦ err e
  | ok t ↦ let (_, _, n) = t in joined t (transform_all h id n ms)
]

-- The disks that the VM has got, newest first. `answers` says whether QEMU takes a disk.
unfoldable pub add_disks_to_vm :
    (DiskOptions → Option ℕ)
    → List DiskOptions
    → List DiskOptions
    → List DiskOptions × Option MountError
add_disks_to_vm answers [] vm = (vm, none)
add_disks_to_vm answers (d ∷ ds) vm =
    let rest = add_disks_to_vm answers ds (d ∷ vm) in
    elim (answers d) [ none ↦ rest | some e ↦ (vm, some (not_added e)) ]

abbrev pub after_adding :
    Host
    → List Mount
    → List DiskOptions × Option MountError
    → List DiskOptions × Result (List Mount)
after_adding h ms (vm, none) = (vm, ok (generate_overlay_if_needed h ms))
after_adding h ms (vm, some e) = (vm, err e)

abbrev pub checked :
    Host
    → (DiskOptions → Option ℕ)
    → Result Transformed
    → List DiskOptions
    → List DiskOptions × Result (List Mount)
checked h answers (err e) vm = (vm, err e)
checked h answers (ok (ms, ds, n)) vm =
    if ltb max_virtio_disks (length ds)
    then (vm, err too_many_disks)
    else after_adding h ms (add_disks_to_vm answers ds vm)

-- The disks of the VM and the mounts for the guest, or an error.
unfoldable pub transform_mounts :
    Host
    → (DiskOptions → Option ℕ)
    → String
    → List Mount
    → List DiskOptions
    → List DiskOptions × Result (List Mount)
unfolding transform_all add_disks_to_vm generate_overlay_if_needed
transform_mounts h answers id ms vm = checked h answers (transform_all h id 0 ms) vm
