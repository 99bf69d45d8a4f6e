-- ===== src/Mounts/Balance.antt =====
-- The mounts and unmounts of `All` and of its cleanup in internal/host/mountutil/mount.go.
use text.Mathlib.Text.{◌==◌ as str_eq}
use spinbox.Common.{
  ℕ, ◌+◌, String, some, List, [], ◌∷◌, ◌++◌, ◌≡◌, refl, arith, length, reverse, if◌then◌else◌,
}
use spinbox.Mounts.{
  Mount, ActiveMount, Host, Act, mounted, unmounted, prepare, Outcome, all_mounted, mount_error,
  target_at,
}

-- The mounts of a sequence.
unfoldable pub ups : List ActiveMount → List Act
ups [] = []
ups (a ∷ active) = mounted a.mount_point ∷ ups active

-- Their unmounts; what is of type `mkdir` has none.
unfoldable pub downs : List ActiveMount → List Act
downs [] = []
downs (a ∷ active) =
    let rest = downs active in
    if str_eq a.mount.mount_type "mkdir" then rest else unmounted a.mount_point ∷ rest

ups-append : (xs ys : List ActiveMount) → ups (xs ++ ys) ≡ ups xs ++ ups ys
unfolding ups
ups-append [] ys = refl
ups-append (x ∷ xs) ys = ground (arith, ups-append xs ys)

-- The mounts of a prefix of those that are asked for, from index `i` on, over mounts that are there:
-- each is what its request is prepared to, at its target.
abbrev pub AreMade :
    Host → String → String → ℕ → List Mount → List ActiveMount → List ActiveMount → Type 0
AreMade h rootfs mdir i ms before [] = Unit {0}
AreMade h rootfs mdir i [] before (a ∷ active) = ⊥
AreMade h rootfs mdir i (m ∷ ms) before (a ∷ active) =
    (prepare h mdir m before ≡ some a.mount)
    × (a.mount_point ≡ target_at h rootfs i ms)
    × AreMade h rootfs mdir (i + 1) ms (before ++ (a ∷ [])) active

-- What is done from index `i` on, where some mounts are there already, and how it ends: after an
-- error, more mounts and then the unmounts of all in reverse; else one mount for each request.
abbrev pub IsBalanced :
    Host
    → String
    → String
    → ℕ
    → List Mount
    → List ActiveMount
    → List Act
    → List Act × Outcome
    → Type 0
IsBalanced h rootfs mdir i ms before log (log', mount_error) =
    (made : List ActiveMount) × AreMade h rootfs mdir i ms before made
    × (log' ≡ (log ++ ups made) ++ downs (reverse (before ++ made)))
IsBalanced h rootfs mdir i ms before log (log', all_mounted active) =
    (made : List ActiveMount) × AreMade h rootfs mdir i ms before made
    × (log' ≡ log ++ ups made)
    × (active ≡ before ++ made)
    × (length made ≡ length ms)
