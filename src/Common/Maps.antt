-- ===== src/Common/Maps.antt =====
-- Maps with text keys, as association lists without order: a key is removed before it is set.
use text.Mathlib.Text.{◌==◌ as str_eq}
use Prim.Native.String.{String}
use mathlib.Core.Path.{◌≡◌, refl}
use native.Mathlib.Omega.{arith}
use text.Mathlib.TextEquality.{eq_iff}
use mathlib.Core.Bool.{true}
use mathlib.Core.Option.{Option, none, some}
use mathlib.Core.List.{List, [], ◌∷◌}
use spinbox.Common.Tests.{if◌then◌else◌}

pub str_eq_refl : (k : String) → str_eq k k ≡ true
str_eq_refl k = (eq_iff k k).1 refl

module _ {ℓ} {A : Type ℓ} where
  unfoldable pub lookup : String → List (String × A) → Option A
  lookup k [] = none
  lookup k ((k', v) ∷ m) = if str_eq k' k then some v else lookup k m

  unfoldable pub remove : String → List (String × A) → List (String × A)
  remove k [] = []
  remove k ((k', v) ∷ m) = let rest = remove k m in if str_eq k' k then rest else (k', v) ∷ rest

  unfoldable pub insert : String → A → List (String × A) → List (String × A)
  unfolding remove
  insert k v m = (k, v) ∷ remove k m

  unfoldable pub values : List (String × A) → List A
  values [] = []
  values ((k, v) ∷ m) = v ∷ values m

  pub remove-absent : (k : String) (m : List (String × A)) → lookup k m ≡ none → remove k m ≡ m
  unfolding lookup remove
  remove-absent k [] h = refl
  remove-absent k ((k', v) ∷ m) h = ground (arith, remove-absent k m)

  pub lookup-remove : (k : String) (m : List (String × A)) → lookup k (remove k m) ≡ none
  unfolding lookup remove
  lookup-remove k [] = refl
  lookup-remove k ((k', v) ∷ m) = ground (arith, lookup-remove k m)

  pub lookup-insert :
      (k : String) (v : A) (m : List (String × A)) → lookup k (insert k v m) ≡ some v
  unfolding lookup insert
  lookup-insert k v m = ground (arith, str_eq_refl k)

  -- What is set and removed again leaves the map without the key.
  pub remove-insert :
      (k : String) (v : A) (m : List (String × A)) → remove k (insert k v m) ≡ remove k m
  unfolding remove insert
  remove-insert k v m =
      ground (arith, str_eq_refl k, remove-absent k (remove k m) (lookup-remove k m))

  -- A look at any key after a change at one.
  pub lookup-remove_at :
      (j k : String) (m : List (String × A))
      → lookup k (remove j m) ≡ (if str_eq j k then none else lookup k m)
  unfolding lookup remove
  lookup-remove_at j k [] = ground arith
  lookup-remove_at j k ((k', v) ∷ m) =
      ground (arith, lookup-remove_at j k m, eq_iff k' j, eq_iff k' k, eq_iff j k)

  pub lookup-insert_at :
      (j k : String) (v : A) (m : List (String × A))
      → lookup k (insert j v m) ≡ (if str_eq j k then some v else lookup k m)
  unfolding lookup insert
  lookup-insert_at j k v m = ground (arith, lookup-remove_at j k m)
