-- ===== src/Lifecycle/Cleanup.antt =====
-- internal/shim/lifecycle/cleanup.go, and the `ShutdownResult` of internal/shim/lifecycle/errors.go.
-- A cleanup function is a step on a world `W` that may report an error of type `E`; both are the
-- caller's. A nil function is `none`. The mutex makes each method one step.
pub mod Sequence
pub mod Again
mod Tests
use text.Mathlib.Text.{◌==◌ as str_eq}
use mathlib.Core.Option
use spinbox.Common.{
  ℕ, zero, suc, String, Bool, true, false, not, Option, none, some, List, [], ◌∷◌, ◌++◌, map,
  length, ltb, if◌then◌else◌,
}

abbrev pub ShutdownPhase : Type 0
ShutdownPhase = String

abbrev pub phase_hotplug_stop : ShutdownPhase
phase_hotplug_stop = "hotplug_stop"

abbrev pub phase_io_shutdown : ShutdownPhase
phase_io_shutdown = "io_shutdown"

abbrev pub phase_conn_close : ShutdownPhase
phase_conn_close = "connection_close"

abbrev pub phase_vm_shutdown : ShutdownPhase
phase_vm_shutdown = "vm_shutdown"

abbrev pub phase_network_cleanup : ShutdownPhase
phase_network_cleanup = "network_cleanup"

abbrev pub phase_mount_cleanup : ShutdownPhase
phase_mount_cleanup = "mount_cleanup"

abbrev pub phase_event_close : ShutdownPhase
phase_event_close = "event_close"

pub record ShutdownError (E : Type 0) : Type 0 where
  pub phase : ShutdownPhase
  pub err : E

pub record ShutdownResult (E : Type 0) : Type 0 where
  pub errors : List (ShutdownError E)

-- `Add`: nil errors are ignored.
unfoldable pub add : {E : Type 0} → ShutdownPhase → Option E → ShutdownResult E → ShutdownResult E
add phase none r = r
add phase (some e) r = record r { errors = r.errors ++ (record { phase = phase; err = e } ∷ []) }

unfoldable pub has_errors : {E : Type 0} → ShutdownResult E → Bool
has_errors r = ltb 0 (length r.errors)

unfoldable pub as_error : {E : Type 0} → ShutdownResult E → Option (ShutdownResult E)
unfolding has_errors
as_error r = if not (has_errors r) then none else some r

unfoldable pub failed_phases : {E : Type 0} → ShutdownResult E → List ShutdownPhase
failed_phases r = map (λ e. e.phase) r.errors

abbrev pub CleanupFunc : Type 0 → Type 0 → Type 0
CleanupFunc W E = W → W × Option E

pub record CleanupPhase (W E : Type 0) : Type 0 where
  pub name : ShutdownPhase
  pub fn : Option (CleanupFunc W E)
  pub done : Bool

abbrev pub phase_order : List ShutdownPhase
phase_order =
    phase_hotplug_stop ∷ phase_io_shutdown ∷ phase_conn_close ∷ phase_vm_shutdown
    ∷ phase_network_cleanup ∷ phase_mount_cleanup ∷ phase_event_close ∷ []

pub record CleanupPhases (W E : Type 0) : Type 0 where
  pub hotplug_stop : Option (CleanupFunc W E)
  pub io_shutdown : Option (CleanupFunc W E)
  pub conn_close : Option (CleanupFunc W E)
  pub vm_shutdown : Option (CleanupFunc W E)
  pub network_cleanup : Option (CleanupFunc W E)
  pub mount_cleanup : Option (CleanupFunc W E)
  pub event_close : Option (CleanupFunc W E)

-- `slices.Index` of the standard library, whose -1 is `none`.
unfoldable pub index : List ShutdownPhase → ShutdownPhase → Option ℕ
index [] p = none
index (q ∷ qs) p = if str_eq q p then some 0 else Option.map suc (index qs p)

-- Where a partial run starts; for an unknown phase it runs everything.
unfoldable pub start_index : ShutdownPhase → ℕ
unfolding index
start_index start_phase = elim (index phase_order start_phase) [ none ↦ 0 | some i ↦ i ]

module _ {W E : Type 0} where
  -- The orchestrator is its list of phases.
  unfoldable pub new_cleanup_orchestrator : CleanupPhases W E → List (CleanupPhase W E)
  new_cleanup_orchestrator ps =
      record { name = phase_hotplug_stop; fn = ps.hotplug_stop; done = false }
      ∷ record { name = phase_io_shutdown; fn = ps.io_shutdown; done = false }
      ∷ record { name = phase_conn_close; fn = ps.conn_close; done = false }
      ∷ record { name = phase_vm_shutdown; fn = ps.vm_shutdown; done = false }
      ∷ record { name = phase_network_cleanup; fn = ps.network_cleanup; done = false }
      ∷ record { name = phase_mount_cleanup; fn = ps.mount_cleanup; done = false }
      ∷ record { name = phase_event_close; fn = ps.event_close; done = false }
      ∷ []

  -- The body of the loop of `executeFrom`: `done` is set, then the function is called.
  unfoldable pub execute_phase :
      Option (CleanupFunc W E)
      → CleanupPhase W E
      → ShutdownResult E
      → W
      → CleanupPhase W E × ShutdownResult E × W
  unfolding add
  execute_phase none p r w = (p, r, w)
  execute_phase (some fn) p r w =
      if p.done
      then (p, r, w)
      else let (w', err) = fn w in (record p { done = true }, add p.name err r, w')

  -- The loop from index `i` on; the phases before it are kept.
  unfoldable pub execute_loop :
      ℕ
      → List (CleanupPhase W E)
      → ShutdownResult E
      → W
      → List (CleanupPhase W E) × ShutdownResult E × W
  unfolding execute_phase
  execute_loop i [] r w = ([], r, w)
  execute_loop (suc i) (p ∷ ps) r w = let (ps', r', w') = execute_loop i ps r w in (p ∷ ps', r', w')
  execute_loop zero (p ∷ ps) r w =
      let (p', r₁, w₁) = execute_phase p.fn p r w in
      let (ps', r', w') = execute_loop zero ps r₁ w₁ in (p' ∷ ps', r', w')

  unfoldable pub execute_from :
      ℕ → List (CleanupPhase W E) → W → List (CleanupPhase W E) × ShutdownResult E × W
  unfolding execute_loop
  execute_from start_idx c w = execute_loop start_idx c (record { errors = [] }) w

  unfoldable pub execute :
      List (CleanupPhase W E) → W → List (CleanupPhase W E) × ShutdownResult E × W
  unfolding execute_from
  execute c w = execute_from 0 c w

  unfoldable pub execute_partial :
      ShutdownPhase → List (CleanupPhase W E) → W → List (CleanupPhase W E) × ShutdownResult E × W
  unfolding execute_from
  execute_partial start_phase c w = execute_from (start_index start_phase) c w

  unfoldable pub reset : List (CleanupPhase W E) → List (CleanupPhase W E)
  reset [] = []
  reset (p ∷ ps) = record p { done = false } ∷ reset ps

  unfoldable pub completed_phases : List (CleanupPhase W E) → List ShutdownPhase
  completed_phases [] = []
  completed_phases (p ∷ ps) = if p.done then p.name ∷ completed_phases ps else completed_phases ps
