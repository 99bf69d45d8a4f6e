-- ===== src/Images/Extents.antt =====
-- What the extents of a descriptor of internal/host/erofs/vmdk.go cover.
use spinbox.Common.{
  ℕ, zero, suc, ◌+◌, ◌-◌, ◌*◌, ◌/◌, ◌^◌, ◌≤◌, ◌<◌, min, String, List, [], ◌∷◌, ◌++◌, ◌≡◌, arith,
  ◌⊎◌, Option, none, some,
}
use spinbox.Images.{
  max_2gb_extent_sectors, sectors_per_track, number_heads, Extent, add_extents,
  vmdk_desc_add_extent, Device, Dumped, ok, err, Descriptor,
}

-- The extents of one file follow each other from the offset on, without a gap, up to the end; none
-- is empty or longer than an extent may be.
abbrev pub IsContiguous : String → ℕ → ℕ → List Extent → Type 0
IsContiguous name offset end [] = offset ≡ end
IsContiguous name offset end (e ∷ es) =
    (e.filename ≡ name)
    × (e.offset ≡ offset)
    × (0 < e.count)
    × (e.count ≤ max_2gb_extent_sectors)
    × IsContiguous name (offset + e.count) end es

add_extents-IsContiguous :
    (fuel sectors : ℕ) (name : String) (offset : ℕ)
    → sectors ≤ fuel
    → IsContiguous name offset (offset + sectors) (add_extents fuel sectors name offset)
unfolding add_extents
add_extents-IsContiguous zero sectors name offset h = omega arith
add_extents-IsContiguous (suc fuel) sectors name offset h =
    let count = min sectors max_2gb_extent_sectors in
    ground (arith, add_extents-IsContiguous fuel (sectors - count) name (offset + count))

-- The extents that are written for a file cover its sectors exactly, from the offset on, each
-- non-empty and within the limit of an extent, and no sector twice.
pub vmdk_desc_add_extent-IsContiguous :
    (sectors : ℕ) (name : String) (offset : ℕ)
    → IsContiguous name offset (offset + sectors) (vmdk_desc_add_extent sectors name offset)
unfolding vmdk_desc_add_extent
vmdk_desc_add_extent-IsContiguous sectors name offset =
    add_extents-IsContiguous sectors sectors name offset (omega arith)

-- The whole sectors of a device that is there.
abbrev pub own_sectors : Option ℕ → ℕ
own_sectors none = 0
own_sectors (some size) = size / 2 ^ 9

unfoldable pub whole_sectors : List Device → ℕ
whole_sectors [] = 0
whole_sectors (d ∷ ds) = own_sectors d.size + whole_sectors ds

-- Extents device by device: those of each one follow each other from its sector 0 to its last whole
-- sector, and there is at least one such sector.
abbrev pub AreLaidOut : List Device → List Extent → Type 0
AreLaidOut [] es = es ≡ []
AreLaidOut (d ∷ ds) es =
    (own : List Extent) × (rest : List Extent) × (es ≡ own ++ rest)
    × (0 < own_sectors d.size)
    × IsContiguous d.name 0 (own_sectors d.size) own
    × AreLaidOut ds rest

-- A device that is not there or has no whole sector.
abbrev pub HasUnusable : List Device → Type 0
HasUnusable [] = ⊥
HasUnusable (d ∷ ds) = (own_sectors d.size ≡ 0) ⊎ HasUnusable ds

abbrev pub CoversDevices : List Device → Dumped (List Extent × ℕ) → Type 0
CoversDevices ds (err e) = HasUnusable ds
CoversDevices ds (ok (extents, total)) = AreLaidOut ds extents × (total ≡ whole_sectors ds)

abbrev pub IsComplete : List Device → Dumped Descriptor → Type 0
IsComplete ds (err e) = HasUnusable ds
IsComplete ds (ok d) =
    let cylinder = sectors_per_track * number_heads in
    AreLaidOut ds d.extents
    × (whole_sectors ds ≤ d.cylinders * cylinder)
    × (d.cylinders * cylinder < whole_sectors ds + cylinder)
