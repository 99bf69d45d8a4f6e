-- ===== src/Mounts/Tests.antt =====
-- Runs of internal/host/mountutil/mount.go on a root filesystem of three mounts.
use mathlib.Core.Option
use spinbox.Common.{String, true, some, List, [], ◌∷◌}
use spinbox.Common.Int.{pos}
use spinbox.Mounts.{Mount, ActiveMount, Parsers, Host, process_mkdir_options, has_prefix}
use spinbox.Mounts.Options.{IsSplit, process_mkdir_options-IsSplit}

abbrev parsers : Parsers
parsers = record {
  atoi = λ s. some (pos 0);
  parse_octal = λ s. some 448;
  split_colons = λ s. "/b/mounts/1" ∷ "700" ∷ [];
}

abbrev options : List String
options = "ro" ∷ "X-containerd.mkdir.path=/b/mounts/1:700" ∷ []

process_mkdir_options-IsSplit_example :
    IsSplit parsers options "/b/mounts" (process_mkdir_options parsers options "/b/mounts")
process_mkdir_options-IsSplit_example = process_mkdir_options-IsSplit parsers options "/b/mounts"

abbrev mount : String → Mount
mount t = record { mount_type = t; source = "/dev/vda"; target = ""; options = options }

abbrev active : List ActiveMount
active =
    record { mount = mount "erofs"; mount_point = "/b/mounts/0" }
    ∷ record { mount = mount "ext4"; mount_point = "/b/mounts/1" }
    ∷ []

-- The mount over the root filesystem is refused.
abbrev host : Host
host = record {
  parsers = parsers;
  target_of = λ i. "/b/mounts/0";
  mkdir = λ t. true;
  apply_format = λ m active. some m;
  apply_mkdirs = λ specs. true;
  resolve_source = λ s. some s;
  mounts = λ m t. has_prefix t "/b/mounts";
  unmounts = λ t. true;
}

abbrev mounts : List Mount
mounts = mount "erofs" ∷ mount "format/mkdir/overlay" ∷ []
