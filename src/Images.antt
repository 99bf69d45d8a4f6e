-- ===== src/Images.antt =====
-- internal/host/erofs/vmdk.go: the descriptor of a VMDK image over several devices. The lines of the
-- descriptor that depend on the input are its extents and the number of cylinders; what `os.Stat`
-- answers is an argument. Sectors are `uint64`, which nothing here exceeds: sizes are divided by 512.
pub mod Extents
mod Tests
use spinbox.Common.{
  ℕ, zero, suc, ◌+◌, ◌-◌, ◌*◌, ◌/◌, ◌^◌, min, String, Bool, true, false, Option, none, some, List,
  [], ◌∷◌, ◌++◌, ◌==◌, if◌then◌else◌,
}

-- `0x80000000 >> 9`.
abbrev pub max_2gb_extent_sectors : ℕ
max_2gb_extent_sectors = 2 ^ 31 / 2 ^ 9

abbrev pub sectors_per_track : ℕ
sectors_per_track = 63

abbrev pub number_heads : ℕ
number_heads = 16

-- A line `RW count FLAT "filename" offset`.
pub record Extent : Type 0 where
  pub count : ℕ
  pub filename : String
  pub offset : ℕ

-- The loop of `vmdkDescAddExtent`, on fuel.
unfoldable pub add_extents : ℕ → ℕ → String → ℕ → List Extent
add_extents zero sectors filename offset = []
add_extents (suc fuel) sectors filename offset =
    let count = min sectors max_2gb_extent_sectors in
    let rest = add_extents fuel (sectors - count) filename (offset + count) in
    if sectors == 0
    then []
    else record { count = count; filename = filename; offset = offset } ∷ rest

-- Each round takes one sector at least: as much fuel as there are sectors is enough.
unfoldable pub vmdk_desc_add_extent : ℕ → String → ℕ → List Extent
unfolding add_extents
vmdk_desc_add_extent sectors filename offset = add_extents sectors sectors filename offset

pub data DumpError : Type 0 where
  not_found zero_size too_small : String → DumpError

-- A device: its name, and its size if it is there.
pub record Device : Type 0 where
  pub name : String
  pub size : Option ℕ

pub data Dumped (A : Type 0) : Type 0 where
  ok : A → Dumped A
  err : DumpError → Dumped A

abbrev pub sectors_of_size : String → ℕ → Dumped ℕ
sectors_of_size name size =
    if size == 0
    then err (zero_size name)
    else if size / 2 ^ 9 == 0
    then err (too_small name)
    else ok (size / 2 ^ 9)

abbrev pub device_sectors : String → Option ℕ → Dumped ℕ
device_sectors name none = err (not_found name)
device_sectors name (some size) = sectors_of_size name size

abbrev pub add_device : String → Dumped ℕ → Dumped (List Extent × ℕ) → Dumped (List Extent × ℕ)
add_device name (err e) rest = err e
add_device name (ok n) (err e) = err e
add_device name (ok n) (ok (extents, total)) =
    ok (vmdk_desc_add_extent n name 0 ++ extents, n + total)

-- The loop over the devices: the extents and the sum of the sectors.
unfoldable pub dump_devices : List Device → Dumped (List Extent × ℕ)
unfolding vmdk_desc_add_extent
dump_devices [] = ok ([], 0)
dump_devices (d ∷ ds) = add_device d.name (device_sectors d.name d.size) (dump_devices ds)

pub record Descriptor : Type 0 where
  pub cid : ℕ
  pub extents : List Extent
  pub cylinders : ℕ

unfoldable pub cylinders_for : ℕ → ℕ
cylinders_for total =
    (total + sectors_per_track * number_heads - 1) / (sectors_per_track * number_heads)

abbrev pub descriptor : ℕ → Dumped (List Extent × ℕ) → Dumped Descriptor
descriptor cid (err e) = err e
descriptor cid (ok (extents, total)) =
    ok (record { cid = cid; extents = extents; cylinders = cylinders_for total })

unfoldable pub dump_vmdk_descriptor : ℕ → List Device → Dumped Descriptor
unfolding dump_devices cylinders_for
dump_vmdk_descriptor cid devices = descriptor cid (dump_devices devices)
