-- ===== src/Disks/Serials.antt =====
-- How the disks of internal/shim/platform/mounts/linux.go and the mounts of the guest meet: by the
-- serial of a disk.
use text.Mathlib.Text.{◌==◌ as str_eq}
use Prim.Native.String
use mathlib.Core.List.{append-nil, append_assoc}
use spinbox.Common.{
  ℕ, zero, suc, ◌+◌, ◌%◌, ◌≤◌, String, Bool, true, false, ◌&&◌, ◌||◌, Option, none, some, List, [],
  ◌∷◌, ◌++◌, length, ltb, if◌then◌else◌, ◌≡◌, refl, arith, ap, ◌∙◌, reverse,
}
use spinbox.Disks.{
  MountError, Result, ok, err, Host, DiskOptions, Transformed, block_serial_scheme,
  max_virtio_disks, too_many_disks,
}
use spinbox.Mounts.{Mount}
use spinbox.Disks.Devices.{erofs_on, block_serial, next_disk, choose_source}
use spinbox.Disks.Overlay.{
  handle_overlay, analyze_overlay_options, overlay_with, generate_overlay_if_needed, with_overlay,
  count_kinds, generated_overlay,
}
use spinbox.Disks.Transform.{
  transform_mount, transform_all, joined, add_disks_to_vm, transform_mounts, checked, after_adding,
  is_erofs_kind, is_overlay_kind, is_managed_kind,
}

-- A mount that the guest finds on a disk.
abbrev pub is_device : Mount → Bool
is_device m = str_eq m.mount_type "erofs" || str_eq m.mount_type "ext4"

-- The sources of the mounts on disks, in order.
unfoldable pub device_sources : List Mount → List String
device_sources [] = []
device_sources (m ∷ ms) =
    let rest = device_sources ms in if is_device m then m.source ∷ rest else rest

-- The sources by which the guest finds disks.
unfoldable pub serial_sources : List DiskOptions → List String
serial_sources [] = []
serial_sources (d ∷ ds) = String.◌++◌ block_serial_scheme d.serial ∷ serial_sources ds

-- The disks have the serials from a number on.
unfoldable pub AreNumbered : Host → ℕ → List DiskOptions → Type 0
AreNumbered h n [] = Unit
AreNumbered h n (d ∷ ds) = (d.serial ≡ block_serial h n) × AreNumbered h (n + 1) ds

-- The same with the byte that counts them.
unfoldable AreLettered : Host → ℕ → List DiskOptions → ℕ → Type 0
unfolding next_disk
AreLettered h n [] last = n ≡ last
AreLettered h n (d ∷ ds) last = (d.serial ≡ block_serial h n) × AreLettered h (next_disk n) ds last

unfoldable IsServed : Host → ℕ → Result Transformed → Type 0
unfolding AreLettered device_sources serial_sources
IsServed h disk (err e) = Unit
IsServed h disk (ok (ms, ds, n)) = AreLettered h disk ds n × (device_sources ms ≡ serial_sources ds)

device_sources-append :
    (ms ns : List Mount) → device_sources (ms ++ ns) ≡ device_sources ms ++ device_sources ns
unfolding device_sources
device_sources-append [] ns = refl
device_sources-append (m ∷ ms) ns = ground (arith, device_sources-append ms ns)

serial_sources-append :
    (ds es : List DiskOptions) → serial_sources (ds ++ es) ≡ serial_sources ds ++ serial_sources es
unfolding serial_sources
serial_sources-append [] es = refl
serial_sources-append (d ∷ ds) es = ground (arith, serial_sources-append ds es)

AreLettered-append :
    (h : Host) (b c : ℕ) (ds es : List DiskOptions) (a : ℕ)
    → AreLettered h a ds b
    → AreLettered h b es c
    → AreLettered h a (ds ++ es) c
unfolding AreLettered
AreLettered-append h b c [] es a p q = ground (arith, p, q)
AreLettered-append h b c (d ∷ ds) es a (p, ps) q = (p, AreLettered-append h b c ds es _ ps q)

erofs_on-IsServed :
    (h : Host) (id : String) (disk : ℕ) (m : Mount) (source : Result (String × Bool))
    → IsServed h disk (erofs_on h id disk m source)
unfolding IsServed AreLettered device_sources serial_sources
erofs_on-IsServed h id disk m (err e) = tt
erofs_on-IsServed h id disk m (ok (s, v)) = ((refl, refl), refl)

overlay_with-devices :
    (h : Host) (m : Mount) (needed : Bool) (upper work last : Option ℕ)
    → is_device m ≡ false
    → device_sources (overlay_with h m needed upper work last) ≡ []
unfolding device_sources
overlay_with-devices h m false upper work last e = ground (arith, e)
overlay_with-devices h m true none work last e = ground (arith, e)
overlay_with-devices h m true (some u) none last e = ground (arith, e)
overlay_with-devices h m true (some u) (some w) none e = ground (arith, e)
overlay_with-devices h m true (some u) (some w) (some l) e = refl

if_IsServed :
    (h : Host) (disk : ℕ) (c : Bool) (a b : Result Transformed)
    → (c ≡ true → IsServed h disk a)
    → (c ≡ false → IsServed h disk b)
    → IsServed h disk (if c then a else b)
if_IsServed h disk true a b p q = p refl
if_IsServed h disk false a b p q = q refl

passed_on-IsServed :
    (h : Host) (disk : ℕ) (ms : List Mount)
    → device_sources ms ≡ []
    → IsServed h disk (ok (ms, [], disk))
unfolding IsServed AreLettered serial_sources
passed_on-IsServed h disk ms e = (refl, e)

handle_overlay-IsServed :
    (h : Host) (disk : ℕ) (m : Mount)
    → is_device m ≡ false
    → IsServed h disk (handle_overlay h disk m)
unfolding handle_overlay
handle_overlay-IsServed h disk m e =
    let a = analyze_overlay_options h m.options in
    let needed = a.has_lower_tmpl && a.need_transform in
    passed_on-IsServed h disk (overlay_with h m needed a.upperdir_idx a.workdir_idx a.overlay_end)
      (overlay_with-devices h m needed a.upperdir_idx a.workdir_idx a.overlay_end e)

not_device :
    (m : Mount)
    → is_erofs_kind m.mount_type ≡ false
    → str_eq m.mount_type "ext4" ≡ false
    → is_device m ≡ false
not_device m e₁ e₂ = ground (arith, e₁, e₂)

transform_mount-IsServed :
    (h : Host) (id : String) (disk : ℕ) (m : Mount) → IsServed h disk (transform_mount h id disk m)
unfolding transform_mount IsServed AreLettered device_sources serial_sources
transform_mount-IsServed h id disk m =
    if_IsServed h disk (is_erofs_kind m.mount_type) _ _
      (λ e. erofs_on-IsServed h id disk m (choose_source h m))
      (λ e₁.
        if_IsServed h disk (str_eq m.mount_type "ext4") _ _ (λ e. ((refl, refl), refl))
          (λ e₂.
            if_IsServed h disk (is_overlay_kind m.mount_type) _ _
              (λ e. handle_overlay-IsServed h disk m (not_device m e₁ e₂))
              (λ e₃.
                if_IsServed h disk (is_managed_kind m.mount_type) _ _ (λ e. tt)
                  (λ e₄. passed_on-IsServed h disk (m ∷ []) (ground (arith, not_device m e₁ e₂))))))

joined-IsServed :
    (h : Host) (a b : ℕ) (ms : List Mount) (ds : List DiskOptions) (r : Result Transformed)
    → IsServed h a (ok (ms, ds, b))
    → IsServed h b r
    → IsServed h a (joined (ms, ds, b) r)
unfolding IsServed
joined-IsServed h a b ms ds (err e) p q = tt
joined-IsServed h a b ms ds (ok (ns, es, c)) (p, e) (p', e') = (
  AreLettered-append h b c ds es a p p',
  ground (arith, e, e', device_sources-append ms ns, serial_sources-append ds es),
)

and_then-IsServed :
    (h : Host) (a : ℕ) (r : Result Transformed) (f : ℕ → Result Transformed)
    → IsServed h a r
    → ((n : ℕ) → IsServed h n (f n))
    → IsServed h a (elim r [ err e ↦ err e | ok t ↦ let (_, _, n) = t in joined t (f n) ])
and_then-IsServed h a (err e) f p q = p
and_then-IsServed h a (ok (ms, ds, n)) f p q = joined-IsServed h a n ms ds (f n) p (q n)

transform_all-IsServed :
    (h : Host) (id : String) (ms : List Mount) (disk : ℕ)
    → IsServed h disk (transform_all h id disk ms)
unfolding transform_all IsServed AreLettered device_sources serial_sources
transform_all-IsServed h id [] disk = (refl, refl)
transform_all-IsServed h id (m ∷ ms) disk =
    and_then-IsServed h disk (transform_mount h id disk m) (λ n. transform_all h id n ms)
      (transform_mount-IsServed h id disk m) (transform_all-IsServed h id ms)

AreLettered-numbered :
    (h : Host) (last : ℕ) (ds : List DiskOptions) (n k : ℕ)
    → k ≡ n
    → n + length ds ≤ 255
    → AreLettered h k ds last
    → AreNumbered h n ds
unfolding AreLettered AreNumbered next_disk
AreLettered-numbered h last [] n k e le p = tt
AreLettered-numbered h last (d ∷ ds) n k e le (p, ps) = (
  p ∙ ap (block_serial h) e,
  AreLettered-numbered h last ds (n + 1) ((k + 1) % 256) (omega (arith, e, le)) (omega (arith, le))
      ps,
)

with_overlay-devices :
    (h : Host) (ms : List Mount) (counted : ℕ × Option ℕ)
    → device_sources (with_overlay h ms counted) ≡ device_sources ms
unfolding device_sources
with_overlay-devices h ms (zero, ext4) = refl
with_overlay-devices h ms (suc n, none) = refl
with_overlay-devices h ms (suc n, some i) =
    let d = generated_overlay h (suc n) i ∷ [] in
    ground (arith, device_sources-append ms d, append-nil (device_sources ms))

generate-devices :
    (h : Host) (ms : List Mount)
    → device_sources (generate_overlay_if_needed h ms) ≡ device_sources ms
unfolding generate_overlay_if_needed
generate-devices h ms = ground (arith, with_overlay-devices h ms (count_kinds 0 ms (0, none)))

-- The disks that the VM gets, and what the guest is told.
unfoldable pub IsResolved :
    Host → List DiskOptions → List Mount → List DiskOptions → List DiskOptions → Type 0
unfolding AreNumbered device_sources serial_sources
IsResolved h vm out vm' ds =
    (vm' ≡ reverse ds ++ vm)
    × (length ds ≤ max_virtio_disks)
    × AreNumbered h 0 ds
    × (device_sources out ≡ serial_sources ds)

add_disks-all :
    (answers : DiskOptions → Option ℕ) (ds vm : List DiskOptions)
    → (add_disks_to_vm answers ds vm).1 ≡ none
    → (add_disks_to_vm answers ds vm).0 ≡ reverse ds ++ vm
unfolding add_disks_to_vm
add_disks-all answers [] vm e = refl
add_disks-all answers (d ∷ ds) vm e =
    ground (arith, e, add_disks-all answers ds (d ∷ vm), append_assoc (reverse ds) (d ∷ []) vm)

adding-IsResolved :
    (h : Host) (ms : List Mount) (ds vm : List DiskOptions) (out : List Mount)
    (added : List DiskOptions × Option MountError)
    → (added.1 ≡ none → added.0 ≡ reverse ds ++ vm)
    → length ds ≤ max_virtio_disks
    → AreNumbered h 0 ds
    → device_sources ms ≡ serial_sources ds
    → (after_adding h ms added).1 ≡ ok out
    → IsResolved h vm out (after_adding h ms added).0 ds
unfolding IsResolved
adding-IsResolved h ms ds vm out (vm', none) all le l s eq =
    (all refl, le, l, ground (arith, s, eq, generate-devices h ms))
adding-IsResolved h ms ds vm out (vm', some e) all le l s eq = ground (arith, eq)

bounded-IsResolved :
    (h : Host) (ms : List Mount) (ds vm : List DiskOptions) (out : List Mount) (many : Bool)
    (added : List DiskOptions × Option MountError)
    → ltb max_virtio_disks (length ds) ≡ many
    → (added.1 ≡ none → added.0 ≡ reverse ds ++ vm)
    → (length ds ≤ max_virtio_disks → AreNumbered h 0 ds)
    → device_sources ms ≡ serial_sources ds
    → (if many then (vm, err too_many_disks) else after_adding h ms added).1 ≡ ok out
    → IsResolved h vm out (if many then (vm, err too_many_disks) else after_adding h ms added).0 ds
bounded-IsResolved h ms ds vm out true added e all l s eq = ground (arith, eq)
bounded-IsResolved h ms ds vm out false added e all l s eq =
    let le : length ds ≤ max_virtio_disks = ground (arith, e) in
    adding-IsResolved h ms ds vm out added all le (l le) s eq

checked-IsResolved :
    (h : Host) (answers : DiskOptions → Option ℕ) (r : Result Transformed) (vm : List DiskOptions)
    (out : List Mount)
    → IsServed h 0 r
    → (checked h answers r vm).1 ≡ ok out
    → (ds : List DiskOptions) × IsResolved h vm out (checked h answers r vm).0 ds
unfolding IsServed
checked-IsResolved h answers (err e) vm out s eq = ground (arith, eq)
checked-IsResolved h answers (ok (ms, ds, n)) vm out (l, s) eq = (
  ds,
  bounded-IsResolved h ms ds vm out (ltb max_virtio_disks (length ds))
      (add_disks_to_vm answers ds vm) refl (add_disks-all answers ds vm)
      (λ le. AreLettered-numbered h n ds 0 0 refl (omega (arith, le)) l) s eq,
)

-- When `transformMounts` succeeds, every disk that it has found has been added to the VM, in their
-- order, they are at most ten with the serials 0, 1, 2 and so on, and the EROFS and ext4 mounts of the
-- guest name exactly these serials, in the same order.
pub transform_mounts-IsResolved :
    (h : Host) (answers : DiskOptions → Option ℕ) (id : String) (ms out : List Mount)
    (vm : List DiskOptions)
    → (transform_mounts h answers id ms vm).1 ≡ ok out
    → (ds : List DiskOptions) × IsResolved h vm out (transform_mounts h answers id ms vm).0 ds
unfolding transform_mounts
transform_mounts-IsResolved h answers id ms out vm eq =
    checked-IsResolved h answers (transform_all h id 0 ms) vm out (transform_all-IsServed h id ms 0)
      eq
