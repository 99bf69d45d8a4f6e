-- ===== src/Mounts/Options.antt =====
-- The mkdir options of internal/host/mountutil/mount.go.
use mathlib.Core.Option
use spinbox.Common.{
  String, Bool, true, false, Option, none, some, List, [], ◌∷◌, ◌≡◌, refl, arith, ◌⊎◌,
  if◌then◌else◌,
}
use spinbox.Mounts.{
  MkdirSpec, Parsers, has_prefix, parse_mkdir_option, process_mkdir_options, with_spec,
}

abbrev IsUnder : String → MkdirSpec → Type 0
IsUnder base_dir spec = has_prefix spec.path base_dir ≡ true

parse-IsUnder :
    (ps : Parsers) (opt base_dir : String) (spec : MkdirSpec)
    → parse_mkdir_option ps opt base_dir ≡ some spec
    → IsUnder base_dir spec
unfolding parse_mkdir_option
parse-IsUnder ps opt base_dir spec h = ground arith

-- The options to make directories, and the others, in their order.
unfoldable pub asked : List String → List String
unfolding has_prefix
asked [] = []
asked (o ∷ os) =
    let rest = asked os in if has_prefix o "X-containerd.mkdir." then o ∷ rest else rest

unfoldable pub others : List String → List String
unfolding has_prefix
others [] = []
others (o ∷ os) =
    let rest = others os in if has_prefix o "X-containerd.mkdir." then rest else o ∷ rest

-- The specifications are what the options parse to, one by one.
abbrev pub AreParsed : Parsers → String → List String → List MkdirSpec → Type 0
AreParsed ps base_dir [] [] = Unit {0}
AreParsed ps base_dir [] (s ∷ specs) = ⊥
AreParsed ps base_dir (o ∷ os) [] = ⊥
AreParsed ps base_dir (o ∷ os) (s ∷ specs) =
    (parse_mkdir_option ps o base_dir ≡ some s)
    × (has_prefix s.path base_dir ≡ true)
    × AreParsed ps base_dir os specs

-- Some option does not parse.
abbrev pub HasInvalid : Parsers → String → List String → Type 0
HasInvalid ps base_dir [] = ⊥
HasInvalid ps base_dir (o ∷ os) =
    (parse_mkdir_option ps o base_dir ≡ none) ⊎ HasInvalid ps base_dir os

-- What a list of options is split into.
abbrev pub IsSplit : Parsers → List String → String → Option (List String × List MkdirSpec) → Type 0
IsSplit ps opts base_dir none = HasInvalid ps base_dir (asked opts)
IsSplit ps opts base_dir (some (remaining, specs)) =
    (remaining ≡ others opts) × AreParsed ps base_dir (asked opts) specs

with_spec-IsSplit :
    (ps : Parsers) (opt base_dir : String) (opts : List String) (spec : Option MkdirSpec)
    (r : Option (List String × List MkdirSpec))
    → has_prefix opt "X-containerd.mkdir." ≡ true
    → parse_mkdir_option ps opt base_dir ≡ spec
    → IsSplit ps opts base_dir r
    → IsSplit ps (opt ∷ opts) base_dir (with_spec spec r)
unfolding asked others
with_spec-IsSplit ps opt base_dir opts none r p e h = ground (arith, p, e)
with_spec-IsSplit ps opt base_dir opts (some s) none p e h = ground (arith, p, h)
with_spec-IsSplit ps opt base_dir opts (some s) (some (remaining, specs)) p e (a, b) =
    ground (arith, p, e, a, b, parse-IsUnder ps opt base_dir s e)

without_spec-IsSplit :
    (ps : Parsers) (opt base_dir : String) (opts : List String)
    (r : Option (List String × List MkdirSpec))
    → has_prefix opt "X-containerd.mkdir." ≡ false
    → IsSplit ps opts base_dir r
    → IsSplit ps
        (opt ∷ opts)
        base_dir
        (Option.map (λ (remaining, specs). (opt ∷ remaining, specs)) r)
unfolding asked others
without_spec-IsSplit ps opt base_dir opts none p h = ground (arith, p, h)
without_spec-IsSplit ps opt base_dir opts (some (remaining, specs)) p (a, b) =
    ground (arith, p, a, b)

choice-IsSplit :
    (ps : Parsers) (b : Bool) (opts : List String) (base_dir : String)
    (x y : Option (List String × List MkdirSpec))
    → (b ≡ true → IsSplit ps opts base_dir x)
    → (b ≡ false → IsSplit ps opts base_dir y)
    → IsSplit ps opts base_dir (if b then x else y)
choice-IsSplit ps true opts base_dir x y p q = p refl
choice-IsSplit ps false opts base_dir x y p q = q refl

-- Options that are processed without an error: what remains is exactly the options that are not
-- mkdir options, in their order, and each mkdir option gives, in their order, the directory that it
-- parses to, whose path begins with the base directory. There is an error only if some mkdir option
-- does not parse.
pub process_mkdir_options-IsSplit :
    (ps : Parsers) (opts : List String) (base_dir : String)
    → IsSplit ps opts base_dir (process_mkdir_options ps opts base_dir)
unfolding process_mkdir_options asked others
process_mkdir_options-IsSplit ps [] base_dir = (refl, tt)
process_mkdir_options-IsSplit ps (opt ∷ opts) base_dir =
    let rest = process_mkdir_options ps opts base_dir in
    let split = process_mkdir_options-IsSplit ps opts base_dir in
    let spec = parse_mkdir_option ps opt base_dir in
    choice-IsSplit ps (has_prefix opt "X-containerd.mkdir.") (opt ∷ opts) base_dir
      (with_spec spec rest) (Option.map (λ (remaining, specs). (opt ∷ remaining, specs)) rest)
      (λ b. with_spec-IsSplit ps opt base_dir opts spec rest b refl split)
      (λ b. without_spec-IsSplit ps opt base_dir opts rest b split)
