-- ===== src/Disks.antt =====
-- internal/shim/platform/mounts/linux.go: the mounts that containerd gives for a root filesystem as
-- virtio disks of the VM and mounts of the guest. The file system, the digest parser, the regular
-- expression of `analyzeOverlayOptions` and the printing of numbers are arguments, and so is what
-- QEMU answers to each disk. The letter of the next disk is a byte, counted from 0 for 'a'; an option
-- of a mount is ASCII.
pub mod Text
pub mod Layers
pub mod Devices
pub mod Overlay
pub mod Transform
pub mod Serials
mod Tests
use text.Mathlib.Text.{◌==◌ as str_eq}
use Prim.Native.Char.{code}
use spinbox.Common.{
  ℕ, zero, suc, ◌+◌, ◌%◌, String, Bool, true, false, not, ◌&&◌, ◌||◌, Option, none, some, List, [],
  ◌∷◌, ◌++◌, length, ltb, leb, ◌==◌, if◌then◌else◌,
}
use spinbox.Mounts.{Mount, has_prefix, cut_prefix, is_some}

abbrev pub max_virtio_disks : ℕ
max_virtio_disks = 10

abbrev pub block_serial_scheme : String
block_serial_scheme = "serial:"

abbrev pub default_disk_format : String
default_disk_format = "raw"

pub data MountError : Type 0 where
  unreadable_manifest stale_vmdk not_implemented too_many_disks : MountError
  not_added : ℕ → MountError

pub data Result (A : Type 0) : Type 0 where
  ok : A → Result A
  err : MountError → Result A

-- What reading `layers.manifest` gives: its lines, without the blanks around them.
pub data Manifest : Type 0 where
  missing unreadable : Manifest
  lines : List String → Manifest

-- `has_vmdk` is whether a path is a file that is not empty, and `manifest` reads the manifest beside
-- a VMDK. `overlay_range` is the pair of numbers of an overlay template in an option.
pub record Host : Type 0 where
  pub has_vmdk : String → Bool
  pub manifest : String → Manifest
  pub base : String → String
  pub is_digest : String → Bool
  pub itoa : ℕ → String
  pub overlay_range : String → Option (ℕ × ℕ)

pub record DiskOptions : Type 0 where
  pub name : String
  pub source : String
  pub serial : String
  pub read_only : Bool
  pub format : String

-- What a mount becomes: mounts of the guest, disks, and the next letter.
abbrev pub Transformed : Type 0
Transformed = List Mount × List DiskOptions × ℕ
