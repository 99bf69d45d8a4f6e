-- ===== src/Disks/Text.antt =====
-- What internal/shim/platform/mounts/linux.go uses of `strings`: suffixes, substrings, slices.
use Prim.Native.String
use Prim.Native.Char.{code}
use text.Mathlib.Text.{◌==◌ as str_eq}
use spinbox.Common.{ℕ, zero, suc, String, Bool, ◌||◌, ◌==◌, if◌then◌else◌}
use spinbox.Mounts.{has_prefix}

unfoldable pub has_suffix : String → String → Bool
has_suffix String.[] suffix = str_eq String.[] suffix
has_suffix (String.◌∷◌ c s) suffix =
    let rest = has_suffix s suffix in str_eq (String.◌∷◌ c s) suffix || rest

unfoldable pub trim_suffix : String → String → String
trim_suffix String.[] suffix = String.[]
trim_suffix (String.◌∷◌ c s) suffix =
    let rest = trim_suffix s suffix in
    if str_eq (String.◌∷◌ c s) suffix then String.[] else String.◌∷◌ c rest

unfoldable pub contains : String → String → Bool
unfolding has_prefix
contains String.[] sub = has_prefix String.[] sub
contains (String.◌∷◌ c s) sub = let rest = contains s sub in has_prefix (String.◌∷◌ c s) sub || rest

-- `strings.Replace(s, "-", ":", 1)`.
unfoldable pub dash_to_colon : String → String
dash_to_colon String.[] = String.[]
dash_to_colon (String.◌∷◌ c s) =
    let rest = dash_to_colon s in if code c == 45 then String.◌++◌ ":" s else String.◌∷◌ c rest

unfoldable pub take_chars : ℕ → String → String
take_chars zero s = String.[]
take_chars (suc n) String.[] = String.[]
take_chars (suc n) (String.◌∷◌ c s) = String.◌∷◌ c (take_chars n s)
