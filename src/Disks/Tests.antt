-- ===== src/Disks/Tests.antt =====
-- Runs of internal/shim/platform/mounts/linux.go on small inputs.
use text.Mathlib.Text.{◌==◌ as str_eq}
use spinbox.Common.{ℕ, zero, suc, String, false, Option, none, some, List, [], ◌∷◌, ◌≡◌, refl}
use spinbox.Mounts.{Mount}
use spinbox.Disks.{lines, stale_vmdk, Host, DiskOptions}
use spinbox.Disks.Layers.{verify_vmdk_manifest}
use spinbox.Disks.Overlay.{generate_overlay_if_needed}
use spinbox.Disks.Transform.{transform_mounts}
use spinbox.Disks.Serials.{IsResolved, transform_mounts-IsResolved}

abbrev digit : ℕ → String
digit zero = "0"
digit (suc zero) = "1"
digit (suc (suc n)) = "2"

abbrev host : Host
host = record {
  has_vmdk = λ p. str_eq p "/s/merged.vmdk";
  manifest = λ p. lines ("blob:a.erofs" ∷ "" ∷ []);
  base = λ p. "a.erofs";
  is_digest = λ p. false;
  itoa = digit;
  overlay_range = λ o. none;
}

abbrev mount_of : String → String → List String → Mount
mount_of t s os = record { mount_type = t; source = s; target = ""; options = os }

abbrev layer : Mount
layer = mount_of "format/erofs" "/s/fsmeta.erofs" ("ro" ∷ "device=/x/a.erofs" ∷ "loop" ∷ [])

abbrev writable : Mount
writable = mount_of "ext4" "/s/rw.img" []

abbrev bind : Mount
bind = mount_of "bind" "/b" []

abbrev accepts : DiskOptions → Option ℕ
accepts d = none

abbrev guest_layers : List Mount
guest_layers =
    mount_of "erofs" "serial:sbxblk0" ("ro" ∷ [])
    ∷ mount_of "ext4" "serial:sbxblk1" []
    ∷ mount_of "format/mkdir/overlay" "overlay" (
        "lowerdir={{ overlay 0 0 }}" ∷ "upperdir={{ mount 1 }}/upper" ∷ "workdir={{ mount 1 }}/work"
        ∷ "X-containerd.mkdir.path={{ mount 1 }}/upper"
        ∷ "X-containerd.mkdir.path={{ mount 1 }}/work" ∷ [])
    ∷ []

abbrev the_disks : List DiskOptions
the_disks = (transform_mounts host accepts "c" (layer ∷ writable ∷ []) []).0

transform_mounts-IsResolved_example :
    (ds : List DiskOptions) × IsResolved host [] guest_layers the_disks ds
unfolding transform_mounts
transform_mounts-IsResolved_example =
    transform_mounts-IsResolved host accepts "c" (layer ∷ writable ∷ []) guest_layers [] refl

-- A manifest that does not list the devices is refused.
stale :
    verify_vmdk_manifest host "/s/merged.vmdk" ("device=/x/a.erofs" ∷ "device=/x/b.erofs" ∷ [])
    ≡ some stale_vmdk
unfolding verify_vmdk_manifest
stale = refl

-- A mount that is neither EROFS nor ext4 shifts the others, and the template still counts from 0.
shifted :
    generate_overlay_if_needed host (bind ∷ mount_of "erofs" "serial:sbxblk0" [] ∷ writable ∷ [])
    ≡ bind
      ∷ mount_of "erofs" "serial:sbxblk0" []
      ∷ writable
      ∷ mount_of "format/mkdir/overlay" "overlay" (
          "lowerdir={{ overlay 0 0 }}" ∷ "upperdir={{ mount 2 }}/upper"
          ∷ "workdir={{ mount 2 }}/work" ∷ "X-containerd.mkdir.path={{ mount 2 }}/upper"
          ∷ "X-containerd.mkdir.path={{ mount 2 }}/work" ∷ [])
      ∷ []
unfolding generate_overlay_if_needed
shifted = refl
