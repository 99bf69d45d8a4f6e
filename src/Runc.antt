-- ===== src/Runc.antt =====
-- `Container` of internal/guest/vminit/runc/container.go: the init, the execs, the IDs that are
-- reserved for execs in the making, and the cleanup of the mounts. A process, a cgroup and a cleanup
-- are numbers; what the process packages, the mounts and the cgroups answer are arguments. The mutex
-- makes each method of the tables one step.
pub mod Exclusion
mod Tests
use text.Mathlib.Text.{◌==◌ as str_eq}
use mathlib.Core.Option
use spinbox.Common.{
  ℕ, String, Bool, true, false, not, ◌&&◌, ◌||◌, Option, none, some, List, [], ◌∷◌, ◌++◌, map, ltb,
  ◌==◌, if◌then◌else◌,
}
use spinbox.Common.Maps.{lookup, insert, remove, values}

pub data RuncError : Type 0 where
  failed_precondition not_found : RuncError
  failed : ℕ → RuncError

pub data Result (A : Type 0) : Type 0 where
  ok : A → Result A
  err : RuncError → Result A

pub record Container : Type 0 where
  pub id : String
  pub cgroup : Option ℕ
  pub init_process : Option ℕ
  pub processes : List (String × ℕ)
  pub reserved_process : List (String × Unit {0})
  pub mount_cleanup : Option ℕ

unfoldable pub all : Container → List ℕ
unfolding values
all c = elim c.init_process [ none ↦ values c.processes | some p ↦ values c.processes ++ (p ∷ []) ]

unfoldable pub execd_processes : Container → List ℕ
unfolding values
execd_processes c = values c.processes

abbrev or_missing : RuncError → Option ℕ → Result ℕ
or_missing e none = err e
or_missing e (some p) = ok p

unfoldable pub get_process : String → Container → Result ℕ
unfolding lookup
get_process id c =
    if str_eq id ""
    then or_missing failed_precondition c.init_process
    else or_missing not_found (lookup id c.processes)

abbrev pub is_some : {A : Type 0} → Option A → Bool
is_some none = false
is_some (some a) = true

unfoldable pub reserve_process : String → Container → Container × Bool
unfolding lookup insert
reserve_process id c =
    if is_some (lookup id c.processes) || is_some (lookup id c.reserved_process)
    then (c, false)
    else (record c { reserved_process = insert id tt c.reserved_process }, true)

-- The function that `ReserveProcess` returns.
unfoldable pub cancel_reservation : String → Container → Container
unfolding remove
cancel_reservation id c = record c { reserved_process = remove id c.reserved_process }

unfoldable pub process_add : String → ℕ → Container → Container
unfolding remove insert
process_add id p c = record c {
  reserved_process = remove id c.reserved_process;
  processes = insert id p c.processes;
}

unfoldable pub process_remove : String → Container → Container
unfolding remove
process_remove id c = record c { processes = remove id c.processes }

-- What a process answers: its PID, 0 or less as 0, and the errors of its operations.
pub record Processes : Type 0 where
  pub pid : ℕ → ℕ
  pub start : ℕ → Option RuncError
  pub delete : ℕ → Option RuncError
  pub load_cgroup : ℕ → Option ℕ

-- The cgroup is loaded once there is a process with a PID.
abbrev with_cgroup : Processes → ℕ → Container → Container
with_cgroup o p c =
    if not (is_some c.cgroup) && ltb 0 (o.pid p)
    then record c { cgroup = o.load_cgroup (o.pid p) }
    else c

abbrev started : Processes → ℕ → Option RuncError → Container → Container × Result ℕ
started o p (some e) c = (c, err e)
started o p none c = (with_cgroup o p c, ok p)

abbrev start_found : Processes → Result ℕ → Container → Container × Result ℕ
start_found o (err e) c = (c, err e)
start_found o (ok p) c = started o p (o.start p) c

unfoldable pub start : Processes → String → Container → Container × Result ℕ
unfolding get_process
start o exec_id c = start_found o (get_process exec_id c) c

-- The mount cleanup that is run by a deletion, if any, is the third result.
abbrev deleted : String → ℕ → Option RuncError → Container → Container × Result ℕ × Option ℕ
deleted exec_id p (some e) c = (c, err e, none)
deleted exec_id p none c =
    if not (str_eq exec_id "")
    then (process_remove exec_id c, ok p, none)
    else (record c { mount_cleanup = none }, ok p, c.mount_cleanup)

abbrev delete_found : Processes → String → Result ℕ → Container → Container × Result ℕ × Option ℕ
delete_found o exec_id (err e) c = (c, err e, none)
delete_found o exec_id (ok p) c = deleted exec_id p (o.delete p) c

unfoldable pub delete : Processes → String → Container → Container × Result ℕ × Option ℕ
unfolding get_process process_remove
delete o exec_id c = delete_found o exec_id (get_process exec_id c) c

-- `Exec` of the container, with what the init answers.
abbrev execd : String → Result ℕ → Container → Container × Result ℕ
execd exec_id (err e) c = (c, err e)
execd exec_id (ok p) c = (process_add exec_id p c, ok p)

unfoldable pub exec : String → Result ℕ → Container → Container × Result ℕ
unfolding process_add
exec exec_id made c = elim c.init_process [
  | none ↦ (c, err (failed 0))
  | some p ↦ execd exec_id made c
]

-- An operation that is passed on to a process: `Kill`, `ResizePty`, `CloseIO`.
abbrev on_found : (ℕ → Option RuncError) → Result ℕ → Option RuncError
on_found f (err e) = some e
on_found f (ok p) = f p

unfoldable pub kill : (ℕ → Option RuncError) → String → Container → Option RuncError
unfolding get_process
kill f exec_id c = on_found f (get_process exec_id c)

abbrev has_pid_in : Processes → ℕ → List ℕ → Bool
has_pid_in o pid [] = false
has_pid_in o pid (p ∷ ps) = o.pid p == pid || has_pid_in o pid ps

unfoldable pub has_pid : Processes → ℕ → Container → Bool
unfolding all
has_pid o pid c = has_pid_in o pid (all c)

-- What is answered to the calls of `NewContainer`: the directory of the root filesystem, the options
-- file, the mounts, and the creation of the init.
pub record NewCalls : Type 0 where
  pub mkdir : Option RuncError
  pub write_options : Option RuncError
  pub mount_all : Result (Option ℕ)
  pub create : Option RuncError
  pub init_process : ℕ

-- A mount of the request: its type and whether its source is the root filesystem.
pub record Rootfs : Type 0 where
  pub mount_type : String
  pub is_rootfs : Bool

-- Whether `NewContainer` mounts: not for an empty list, nor for a single bind of the root filesystem.
unfoldable pub needs_mounts : List Rootfs → Bool
needs_mounts [] = false
needs_mounts (m ∷ []) = not (str_eq m.mount_type "bind") || not m.is_rootfs
needs_mounts (m ∷ n ∷ ms) = true

-- The second result is the cleanup that is run because the init could not be created.
abbrev created :
    Processes → NewCalls → String → Option ℕ → Option RuncError → Result Container × Option ℕ
created o n id cleanup (some e) = (err e, cleanup)
created o n id cleanup none =
    let pid = o.pid n.init_process in
    (
      ok (record {
        id = id;
        cgroup = if ltb 0 pid then o.load_cgroup pid else none;
        init_process = some n.init_process;
        processes = [];
        reserved_process = [];
        mount_cleanup = cleanup;
      }),
      none,
    )

abbrev mounted : Processes → NewCalls → String → Result (Option ℕ) → Result Container × Option ℕ
mounted o n id (err e) = (err e, none)
mounted o n id (ok cleanup) = created o n id cleanup n.create

abbrev first_error : Option RuncError → Option RuncError → Option RuncError
first_error none e = e
first_error (some e) e' = some e

abbrev has_rootfs : List Rootfs → Bool
has_rootfs [] = false
has_rootfs (m ∷ ms) = true

unfoldable pub new_container :
    Processes → NewCalls → String → List Rootfs → Result Container × Option ℕ
unfolding needs_mounts
new_container o n id rootfs =
    elim (first_error (if has_rootfs rootfs then n.mkdir else none) n.write_options) [
      | some e ↦ (err e, none)
      | none ↦ mounted o n id (if needs_mounts rootfs then n.mount_all else ok none)
    ]
