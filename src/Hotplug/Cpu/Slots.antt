-- ===== src/Hotplug/Cpu/Slots.antt =====
-- Which CPU `ScaleUp` and `ScaleDown` of internal/shim/cpuhotplug/controller.go choose.
use native.Mathlib.Decide.{dec_lt}
use spinbox.Common.{
  ℕ, zero, suc, ◌+◌, ◌≤◌, ◌<◌, true, false, Option, none, some, List, [], ◌∷◌, ◌≡◌, refl, ◌⊎◌, inl,
  inr, arith, Bool-cases, ltb, if◌then◌else◌, ◌&&◌,
}
use spinbox.Hotplug.Cpu.{contains, first_free, is_above, highest}

-- The least free index in a range, or none if all of it is taken.
abbrev pub IsFirstFree : List ℕ → ℕ → ℕ → Option ℕ → Type 0
IsFirstFree cpus left id none = (k : ℕ) → id ≤ k → k < id + left → contains k cpus ≡ true
IsFirstFree cpus left id (some j) =
    (id ≤ j)
    × (j < id + left)
    × (contains j cpus ≡ false)
    × ((k : ℕ) → id ≤ k → k < j → contains k cpus ≡ true)

taken_from :
    (cpus : List ℕ) (id k : ℕ)
    → contains id cpus ≡ true
    → id ≤ k
    → (id + 1 ≤ k → contains k cpus ≡ true)
    → contains k cpus ≡ true
taken_from cpus id k t lo h = elim (dec_lt id k) [
  | yes more ↦ h (omega arith)
  | no same ↦ let e : id ≡ k = omega arith in rw e at t
]

IsFirstFree-step :
    (cpus : List ℕ) (left id : ℕ) (o : Option ℕ)
    → contains id cpus ≡ true
    → IsFirstFree cpus left (id + 1) o
    → IsFirstFree cpus (suc left) id o
IsFirstFree-step cpus left id none t h =
    λ k lo hi. taken_from cpus id k t lo (λ lo'. h k lo' (omega arith))
IsFirstFree-step cpus left id (some j) t h =
    (omega arith, omega arith, h.2, λ k lo hi. taken_from cpus id k t lo (λ lo'. h.3 k lo' hi))

-- The search of a scale-up finds the least index in its range that no CPU has, and fails only if
-- all of the range is taken.
pub first_free-IsFirstFree :
    (cpus : List ℕ) (left id : ℕ) → IsFirstFree cpus left id (first_free cpus left id)
unfolding first_free
first_free-IsFirstFree cpus zero id = λ k lo hi. absurd (omega arith)
first_free-IsFirstFree cpus (suc left) id = elim (Bool-cases (contains id cpus)) [
  | inl t ↦ rw t (
      IsFirstFree-step cpus left id (first_free cpus left (id + 1)) t
        (first_free-IsFirstFree cpus left (id + 1)))
  | inr f ↦ rw f (omega arith, omega arith, f, λ k lo hi. absurd (omega arith))
]

-- The highest index above 0 in the list, or none if it has no such index.
abbrev pub IsHighest : List ℕ → Option ℕ → Type 0
IsHighest cpus none = (k : ℕ) → contains k cpus ≡ true → k ≡ 0
IsHighest cpus (some i) =
    (0 < i) × (contains i cpus ≡ true) × ((k : ℕ) → contains k cpus ≡ true → k ≤ i)

abbrev rank : Option ℕ → ℕ
rank none = 0
rank (some i) = i

rank-highest-le : (best : Option ℕ) (cpus : List ℕ) → rank best ≤ rank (highest best cpus)
unfolding highest
rank-highest-le best [] = omega arith
rank-highest-le none (i ∷ is) = ground (arith, rank-highest-le none is, rank-highest-le (some i) is)
rank-highest-le (some b) (i ∷ is) =
    ground (arith, rank-highest-le (some b) is, rank-highest-le (some i) is)

le-rank-highest :
    (best : Option ℕ) (cpus : List ℕ) (k : ℕ)
    → contains k cpus ≡ true
    → k ≤ rank (highest best cpus)
unfolding highest contains
le-rank-highest best [] k h = cc
le-rank-highest none (i ∷ is) k h =
    ground
      (arith, le-rank-highest none is k, le-rank-highest (some i) is k, rank-highest-le (some i) is)
le-rank-highest (some b) (i ∷ is) k h = ground (
  arith,
  le-rank-highest (some b) is k,
  le-rank-highest (some i) is k,
  rank-highest-le (some b) is,
  rank-highest-le (some i) is,
)

-- Where the result of the loop is from.
abbrev IsFrom : Option ℕ → List ℕ → Option ℕ → Type 0
IsFrom best cpus none = best ≡ none
IsFrom best cpus (some i) = (best ≡ some i) ⊎ (0 < i) × (contains i cpus ≡ true)

IsFrom-cons :
    (i : ℕ) (is : List ℕ) (best o : Option ℕ)
    → IsFrom (if ltb 0 i && is_above i best then some i else best) is o
    → IsFrom best (i ∷ is) o
unfolding contains
IsFrom-cons i is best none h = ground arith
IsFrom-cons i is best (some j) h = ground arith

highest-IsFrom : (best : Option ℕ) (cpus : List ℕ) → IsFrom best cpus (highest best cpus)
unfolding highest
highest-IsFrom none [] = refl
highest-IsFrom (some b) [] = inl refl
highest-IsFrom best (i ∷ is) =
    let best' = if ltb 0 i && is_above i best then some i else best in
    IsFrom-cons i is best (highest best' is) (highest-IsFrom best' is)

IsHighest-of :
    (cpus : List ℕ) (o : Option ℕ)
    → IsFrom none cpus o
    → ((k : ℕ) → contains k cpus ≡ true → k ≤ rank o)
    → IsHighest cpus o
IsHighest-of cpus none f h = λ k m. ground (arith, h k m)
IsHighest-of cpus (some i) f h = (ground arith, ground arith, h)

-- The search of a scale-down finds the highest index of the machine, in whatever order QEMU lists
-- them, and never CPU 0: it fails only if there is no other.
pub highest-IsHighest : (cpus : List ℕ) → IsHighest cpus (highest none cpus)
highest-IsHighest cpus =
    IsHighest-of cpus (highest none cpus) (highest-IsFrom none cpus) (le-rank-highest none cpus)
