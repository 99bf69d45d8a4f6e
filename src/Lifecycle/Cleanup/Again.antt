-- ===== src/Lifecycle/Cleanup/Again.antt =====
-- Several runs of the orchestrator of internal/shim/lifecycle/cleanup.go on one list of phases.
use mathlib.Core.List.{append_assoc}
use spinbox.Common.{ℕ, zero, suc, Option, List, [], ◌∷◌, ◌++◌, ◌≡◌, refl, sym, arith, drop, take}
use spinbox.Lifecycle.Cleanup.{
  ShutdownPhase, CleanupFunc, CleanupPhase, execute_from, execute, execute_partial, start_index,
}
use spinbox.Lifecycle.Cleanup.Sequence.{due, pending, call_all, turn, turned, execute_from-pending}

module _ {W E : Type 0} where
  due-turn :
      (fn : Option (CleanupFunc W E)) (p : CleanupPhase W E)
      → p.fn ≡ fn
      → due (turn fn p).fn (turn fn p) ≡ []
  due-turn fn p e = ground arith

  pending-turned : (i : ℕ) (c : List (CleanupPhase W E)) → pending (turned i c) ≡ pending (take i c)
  unfolding pending turned
  pending-turned zero [] = refl
  pending-turned (suc i) [] = refl
  pending-turned (suc i) (p ∷ ps) = rw (pending-turned i ps)
  pending-turned zero (p ∷ ps) = rw (due-turn p.fn p refl, pending-turned zero ps)

  pending-take-drop :
      (i : ℕ) (c : List (CleanupPhase W E)) → pending c ≡ pending (take i c) ++ pending (drop i c)
  unfolding pending
  pending-take-drop zero c = refl
  pending-take-drop (suc i) [] = refl
  pending-take-drop (suc i) (p ∷ ps) =
      rw (pending-take-drop i ps)
        (sym (append_assoc (due p.fn p) (pending (take i ps)) (pending (drop i ps))))

  -- A full run after a partial one calls exactly the functions that were due before the start
  -- phase of the partial run: between them the two runs call each function that was due once.
  pub execute-execute_partial :
      (p : ShutdownPhase) (c : List (CleanupPhase W E)) (w v : W)
      → let c' = (execute_partial p c w).0 in
        ((execute c' v).1.errors ≡ (call_all (pending (take (start_index p) c)) v).0)
        × ((execute c' v).2 ≡ (call_all (pending (take (start_index p) c)) v).1)
        × (pending c ≡ pending (take (start_index p) c) ++ pending (drop (start_index p) c))
  unfolding execute execute_partial
  execute-execute_partial p c w v = ground (
    arith,
    execute_from-pending (start_index p) c w,
    execute_from-pending 0 (execute_partial p c w).0 v,
    pending-turned (start_index p) c,
    pending-take-drop (start_index p) c,
  )

  turned-turned : (c : List (CleanupPhase W E)) → turned 0 (turned 0 c) ≡ turned 0 c
  unfolding turned
  turned-turned [] = refl
  turned-turned (p ∷ ps) = ground (arith, turned-turned ps)

  -- A second full run calls nothing: the world stays, there is no error, the phases stay.
  pub execute-execute :
      (c : List (CleanupPhase W E)) (w v : W)
      → let c' = (execute c w).0 in
        ((execute c' v).0 ≡ c') × ((execute c' v).1.errors ≡ []) × ((execute c' v).2 ≡ v)
  unfolding execute call_all pending
  execute-execute c w v = ground (
    arith,
    execute_from-pending 0 c w,
    execute_from-pending 0 (execute_from 0 c w).0 v,
    pending-turned 0 c,
    turned-turned c,
  )
