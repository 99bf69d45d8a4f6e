-- ===== src/Runc/Exclusion.antt =====
-- The IDs of execs in internal/guest/vminit/runc/container.go, over any interleaving of the `Exec`
-- handlers of internal/guest/vminit/task/exec.go with deletions.
use text.Mathlib.Text.{◌==◌ as str_eq}
use text.Mathlib.TextEquality.{eq_iff}
use spinbox.Common.{
  ℕ, zero, suc, ◌+◌, ◌≤◌, String, Bool, true, false, ◌&&◌, List, [], ◌∷◌, ◌≡◌, refl, arith,
  if◌then◌else◌,
}
use spinbox.Common.Maps.{lookup, lookup-insert_at, lookup-remove_at}
use spinbox.Runc.{
  Result, ok, err, Container, reserve_process, cancel_reservation, process_add, process_remove,
  is_some,
}

-- An `Exec` handler: it reserves its ID, then the init makes the process or fails, and the process
-- is added or the reservation cancelled.
pub data Phase : Type 0 where
  arrived reserved refused added cancelled : Phase

pub record Handler : Type 0 where
  pub exec_id : String
  pub process : Result ℕ
  pub phase : Phase

abbrev pub finish : Result ℕ → Handler → Container → Handler × Container
finish (ok p) h c = (record h { phase = added }, process_add h.exec_id p c)
finish (err e) h c = (record h { phase = cancelled }, cancel_reservation h.exec_id c)

abbrev pub advance_in : Phase → Handler → Container → Handler × Container
advance_in arrived h c =
    let (c', is_reserved) = reserve_process h.exec_id c in
    (record h { phase = if is_reserved then reserved else refused }, c')
advance_in reserved h c = finish h.process h c
advance_in _ h c = (h, c)

unfoldable pub advance : Handler → Container → Handler × Container
unfolding reserve_process cancel_reservation process_add
advance h c = advance_in h.phase h c

unfoldable pub advance_nth : ℕ → List Handler → Container → List Handler × Container
unfolding advance
advance_nth n [] c = ([], c)
advance_nth zero (h ∷ hs) c = let (h', c') = advance h c in (h' ∷ hs, c')
advance_nth (suc n) (h ∷ hs) c = let (hs', c') = advance_nth n hs c in (h ∷ hs', c')

pub data Step : Type 0 where
  arrive : String → Result ℕ → Step
  advance_step : ℕ → Step
  remove_step : String → Step

abbrev pub Handlers : Type 0
Handlers = List Handler × Container

unfoldable pub step : Step → Handlers → Handlers
unfolding advance_nth process_remove
step (arrive id made) (hs, c) = (record { exec_id = id; process = made; phase = arrived } ∷ hs, c)
step (advance_step n) (hs, c) = advance_nth n hs c
step (remove_step id) (hs, c) = (hs, process_remove id c)

unfoldable pub run : List Step → Handlers → Handlers
unfolding step
run [] t = t
run (x ∷ xs) t = run xs (step x t)

abbrev pub one_if : Bool → ℕ
one_if b = if b then 1 else 0

abbrev pub is_reserved : Phase → Bool
is_reserved reserved = true
is_reserved _ = false

-- How many handlers hold the ID.
unfoldable pub holders : String → List Handler → ℕ
holders id [] = 0
holders id (h ∷ hs) = one_if (is_reserved h.phase && str_eq h.exec_id id) + holders id hs

-- An ID is held by one handler at most, which has reserved it, and not while a process has it.
abbrev pub IsExclusive : Handlers → Type 0
IsExclusive (hs, c) =
    (id : String)
    → (holders id hs ≤ one_if (is_some (lookup id c.reserved_process)))
      × (one_if (is_some (lookup id c.processes)) + one_if (is_some (lookup id c.reserved_process))
          ≤ 1)

advance-exclusive :
    (h : Handler) (c : Container) (id : String) (k : ℕ) (r : Result ℕ)
    → h.process ≡ r
    → let here = one_if (is_reserved h.phase && str_eq h.exec_id id) in
      let (h', c') = advance h c in
      here + k ≤ one_if (is_some (lookup id c.reserved_process))
      → one_if (is_some (lookup id c.processes)) + one_if (is_some (lookup id c.reserved_process))
        ≤ 1
      → (one_if (is_reserved h'.phase && str_eq h'.exec_id id) + k
          ≤ one_if (is_some (lookup id c'.reserved_process)))
        × (one_if (is_some (lookup id c'.processes))
              + one_if (is_some (lookup id c'.reserved_process))
            ≤ 1)
unfolding advance reserve_process cancel_reservation process_add
advance-exclusive h c id k (err e) m a b = ground (
  arith,
  lookup-insert_at h.exec_id id tt c.reserved_process,
  lookup-remove_at h.exec_id id c.reserved_process,
  eq_iff h.exec_id id,
)
advance-exclusive h c id k (ok p) m a b = ground (
  arith,
  lookup-insert_at h.exec_id id tt c.reserved_process,
  lookup-insert_at h.exec_id id p c.processes,
  lookup-remove_at h.exec_id id c.reserved_process,
  eq_iff h.exec_id id,
)

advance_nth-exclusive :
    (n : ℕ) (hs : List Handler) (c : Container) (id : String) (k : ℕ)
    → holders id hs + k ≤ one_if (is_some (lookup id c.reserved_process))
    → one_if (is_some (lookup id c.processes)) + one_if (is_some (lookup id c.reserved_process)) ≤ 1
    → let (hs', c') = advance_nth n hs c in
      (holders id hs' + k ≤ one_if (is_some (lookup id c'.reserved_process)))
      × (one_if (is_some (lookup id c'.processes))
            + one_if (is_some (lookup id c'.reserved_process))
          ≤ 1)
unfolding advance_nth holders
advance_nth-exclusive n [] c id k a b = (a, b)
advance_nth-exclusive zero (h ∷ hs) c id k a b =
    ground (arith, advance-exclusive h c id (holders id hs + k) h.process refl)
advance_nth-exclusive (suc n) (h ∷ hs) c id k a b =
    let here = one_if (is_reserved h.phase && str_eq h.exec_id id) in
    ground (arith, advance_nth-exclusive n hs c id (here + k))

step-IsExclusive : (x : Step) (t : Handlers) → IsExclusive t → IsExclusive (step x t)
unfolding step holders process_remove
step-IsExclusive (arrive i made) (hs, c) e = λ id. ground (arith, e id)
step-IsExclusive (advance_step n) (hs, c) e =
    λ id. ground (arith, e id, advance_nth-exclusive n hs c id 0)
step-IsExclusive (remove_step i) (hs, c) e =
    λ id. ground (arith, e id, lookup-remove_at i id c.processes)

-- Over any interleaving of `Exec` handlers with the removal of processes: an ID is held by at most
-- one handler at a time, and by none while a process has it; so that the process that a handler
-- adds replaces none.
pub run-IsExclusive_ids : (xs : List Step) (t : Handlers) → IsExclusive t → IsExclusive (run xs t)
unfolding run
run-IsExclusive_ids [] t e = e
run-IsExclusive_ids (x ∷ xs) t e = run-IsExclusive_ids xs (step x t) (step-IsExclusive x t e)
