-- ===== src/Lifecycle/Cleanup/Sequence.antt =====
-- One run of internal/shim/lifecycle/cleanup.go against a plain description: the functions that are
-- registered and not done yet, called one after the other.
use text.Mathlib.Text.{◌==◌ as str_eq}
use mathlib.Core.List.{append-nil, append_assoc}
use spinbox.Common.{
  ℕ, zero, suc, ◌+◌, ap, ◌∙◌, true, Option, none, some, List, [], ◌∷◌, ◌++◌, ◌≡◌, refl, sym, arith,
  drop, if◌then◌else◌,
}
use spinbox.Lifecycle.Cleanup.{
  ShutdownPhase, ShutdownError, ShutdownResult, CleanupFunc, CleanupPhase, add, start_index,
  execute_phase, execute_loop, execute_from, execute_partial, CleanupPhases,
  new_cleanup_orchestrator, index,
}

abbrev pub report : {E : Type 0} → ShutdownPhase → Option E → List (ShutdownError E)
report p none = []
report p (some e) = record { phase = p; err = e } ∷ []

add-report :
    {E : Type 0} (p : ShutdownPhase) (e : Option E) (r : ShutdownResult E)
    → (add p e r).errors ≡ r.errors ++ report p e
unfolding add
add-report p none r = sym (append-nil r.errors)
add-report p (some e) r = refl

-- Where a name stands in a list of names that starts at an index; 0 if it does not stand there.
unfoldable pub position : ShutdownPhase → List ShutdownPhase → ℕ → ℕ
position p [] i = 0
position p (n ∷ ns) i = let rest = position p ns (i + 1) in if str_eq n p then i else rest

module _ {W E : Type 0} where
  -- The work that is due: each phase with a function that is not done.
  abbrev pub due :
      Option (CleanupFunc W E) → CleanupPhase W E → List (ShutdownPhase × CleanupFunc W E)
  due none p = []
  due (some fn) p = if p.done then [] else (p.name, fn) ∷ []

  unfoldable pub pending : List (CleanupPhase W E) → List (ShutdownPhase × CleanupFunc W E)
  pending [] = []
  pending (p ∷ ps) = due p.fn p ++ pending ps

  -- The functions called one after the other, each whatever the ones before it returned.
  unfoldable pub call_all : List (ShutdownPhase × CleanupFunc W E) → W → List (ShutdownError E) × W
  call_all [] w = ([], w)
  call_all ((p, fn) ∷ fns) w =
      let (w₁, e) = fn w in let (es, w') = call_all fns w₁ in (report p e ++ es, w')

  call_all-append :
      (xs ys : List (ShutdownPhase × CleanupFunc W E)) (w : W)
      → call_all (xs ++ ys) w ≡ (
        (call_all xs w).0 ++ (call_all ys (call_all xs w).1).0,
        (call_all ys (call_all xs w).1).1,
      )
  unfolding call_all
  call_all-append [] ys w = refl
  call_all-append ((p, fn) ∷ xs) ys w = rw (call_all-append xs ys, append_assoc)

  -- A phase after its turn: done if it has a function.
  abbrev pub turn : Option (CleanupFunc W E) → CleanupPhase W E → CleanupPhase W E
  turn none p = p
  turn (some fn) p = record p { done = true }

  unfoldable pub turned : ℕ → List (CleanupPhase W E) → List (CleanupPhase W E)
  turned i [] = []
  turned (suc i) (p ∷ ps) = p ∷ turned i ps
  turned zero (p ∷ ps) = turn p.fn p ∷ turned zero ps

  execute_phase-due :
      (fn : Option (CleanupFunc W E)) (p : CleanupPhase W E) (r : ShutdownResult E) (w : W)
      → ((execute_phase fn p r w).0 ≡ turn fn p)
        × ((execute_phase fn p r w).1.errors ≡ r.errors ++ (call_all (due fn p) w).0)
        × ((execute_phase fn p r w).2 ≡ (call_all (due fn p) w).1)
  unfolding execute_phase call_all
  execute_phase-due none p r w = (refl, sym (append-nil r.errors), refl)
  execute_phase-due (some fn) p r w = ground (
    arith,
    append-nil r.errors,
    append-nil (report p.name (fn w).1),
    add-report p.name (fn w).1 r,
  )

  execute_loop-pending :
      (i : ℕ) (c : List (CleanupPhase W E)) (r : ShutdownResult E) (w : W)
      → ((execute_loop i c r w).0 ≡ turned i c)
        × ((execute_loop i c r w).1.errors ≡ r.errors ++ (call_all (pending (drop i c)) w).0)
        × ((execute_loop i c r w).2 ≡ (call_all (pending (drop i c)) w).1)
  unfolding execute_loop pending turned call_all
  execute_loop-pending zero [] r w = (refl, sym (append-nil r.errors), refl)
  execute_loop-pending (suc i) [] r w = (refl, sym (append-nil r.errors), refl)
  execute_loop-pending (suc i) (p ∷ ps) r w = ground (arith, execute_loop-pending i ps r w)
  execute_loop-pending zero (p ∷ ps) r w =
      let (p', r₁, w₁) = execute_phase p.fn p r w in
      ground (
        arith,
        execute_phase-due p.fn p r w,
        call_all-append (due p.fn p) (pending ps) w,
        append_assoc r.errors (call_all (due p.fn p) w).0 (call_all (pending ps) w₁).0,
        execute_loop-pending zero ps r₁ w₁,
      )

  pub execute_from-pending :
      (i : ℕ) (c : List (CleanupPhase W E)) (w : W)
      → ((execute_from i c w).0 ≡ turned i c)
        × ((execute_from i c w).1.errors ≡ (call_all (pending (drop i c)) w).0)
        × ((execute_from i c w).2 ≡ (call_all (pending (drop i c)) w).1)
  unfolding execute_from
  execute_from-pending i c w = execute_loop-pending i c (record { errors = [] }) w

  unfoldable pub names : List (CleanupPhase W E) → List ShutdownPhase
  names [] = []
  names (p ∷ ps) = p.name ∷ names ps

  start_index-position :
      (p : ShutdownPhase) (ps : CleanupPhases W E)
      → position p (names (new_cleanup_orchestrator ps)) 0 ≡ start_index p
  unfolding names new_cleanup_orchestrator position start_index index
  start_index-position p ps = ground arith

  -- For phases that have the names of an orchestrator's: a partial run calls exactly the functions that are registered and not done from its start
  -- phase on, in order, each once and whatever those before it returned; it reports exactly their
  -- errors, each under its phase; and it marks the registered phases from there on as done and
  -- keeps the others. It starts where the phases of an orchestrator have the given name, and at the
  -- first of all if none has it.
  pub execute_partial-pending :
      (p : ShutdownPhase) (c : List (CleanupPhase W E)) (w : W) (ps : CleanupPhases W E)
      → names c ≡ names (new_cleanup_orchestrator ps)
      → let i = position p (names c) 0 in
        ((execute_partial p c w).0 ≡ turned i c)
        × ((execute_partial p c w).1.errors ≡ (call_all (pending (drop i c)) w).0)
        × ((execute_partial p c w).2 ≡ (call_all (pending (drop i c)) w).1)
  unfolding execute_partial
  execute_partial-pending p c w ps h =
      let e : position p (names c) 0 ≡ start_index p =
        ap (λ l. position p l 0) h ∙ start_index-position p ps in
      rw e (execute_from-pending (start_index p) c w)
