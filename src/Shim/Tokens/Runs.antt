-- ===== src/Shim/Tokens/Runs.antt =====
-- The tokens over any sequence of the calls of internal/shim/task that make them or give them back.
use spinbox.Common.{All, Bool, true, List, [], ◌∷◌, refl, arith}
use spinbox.Lifecycle.State.{set_intentional_shutdown, force_transition, shutting_down}
use spinbox.Shim.Service.{Service, asks_exit, exits}
use spinbox.Shim.Create.{CreateTaskRequest, Setup, create}
use spinbox.Shim.Delete.{delete}
use spinbox.Shim.Teardown.{
  DeleteRequest, Outside, shutdown, request_shutdown_and_exit, shutdown_rpc,
}
use spinbox.Shim.Tokens.{
  Token, vm_token, mount_token, ended-split, IsKept, IsConserved, IsSettled, IsOther,
  note-IsSettled,
}
use spinbox.Shim.Tokens.Ends.{same-IsSettled}
use spinbox.Shim.Tokens.Whole.{shutdown-IsSettled, delete-IsSettled, asks-IsOther}
use spinbox.Shim.Tokens.Creation.{LeavesNothing, create-IsKept}

pub data Call : Type 0 where
  create_call : Setup → CreateTaskRequest → Call
  delete_call : Outside → DeleteRequest → Call
  shutdown_call : Outside → Call
  exit_call : Bool → Outside → Call
  shutdown_rpc_call : Call

unfoldable pub call : Call → Service → Service
unfolding create delete shutdown request_shutdown_and_exit shutdown_rpc
call (create_call o r) s = (create o r s).0
call (delete_call o r) s = (delete o r s).0
call (shutdown_call o) s = (shutdown o s).0
call (exit_call runs_callback o) s = request_shutdown_and_exit runs_callback o s
call shutdown_rpc_call s = shutdown_rpc s

unfoldable pub run : List Call → Service → Service
unfolding call
run [] s = s
run (c ∷ cs) s = run cs (call c s)

exits-IsOther : (t : Token) → IsOther t exits
exits-IsOther (vm_token i) = (refl, refl)
exits-IsOther (mount_token m) = (refl, refl)

exit-IsSettled :
    (t : Token) (b : Bool) (o : Outside) (s : Service)
    → IsSettled t 0 s (request_shutdown_and_exit b o s)
unfolding request_shutdown_and_exit
exit-IsSettled t b o s =
    let s' : Service = record s {
      exit_begun = true;
      shutdown_requested = true;
      state_machine = (force_transition shutting_down s.state_machine).0;
    } in
    ground (
      arith,
      same-IsSettled t s s' refl refl refl,
      shutdown-IsSettled t o s',
      note-IsSettled t exits s' (exits-IsOther t),
      note-IsSettled t exits (shutdown o s').0 (exits-IsOther t),
    )

shutdown_rpc-IsSettled : (t : Token) (s : Service) → IsSettled t 0 s (shutdown_rpc s)
unfolding shutdown_rpc
shutdown_rpc-IsSettled t s =
    let s' : Service = record s { state_machine = set_intentional_shutdown true s.state_machine } in
    ground (
      arith,
      same-IsSettled t s s' refl refl refl,
      note-IsSettled t (asks_exit "shutdown rpc") s' (asks-IsOther t "shutdown rpc"),
    )

-- No creation leaves a nil pointer in the manager of the VM, whose shutdown would panic.
abbrev pub IsClean : Call → Type 0
IsClean (create_call o r) = LeavesNothing o.new_instance
IsClean _ = Unit {0}

call-IsKept : (t : Token) (c : Call) (s : Service) → IsClean c → IsKept t s → IsKept t (call c s)
unfolding call
call-IsKept t (create_call o r) s n h = create-IsKept t o r s n h
call-IsKept t (delete_call o r) s n h = ground (arith, delete-IsSettled t o r s)
call-IsKept t (shutdown_call o) s n h = ground (arith, shutdown-IsSettled t o s)
call-IsKept t (exit_call b o) s n h = ground (arith, exit-IsSettled t b o s)
call-IsKept t shutdown_rpc_call s n h = ground (arith, shutdown_rpc-IsSettled t s)

run-IsKept :
    (t : Token) (cs : List Call) (s : Service) → All IsClean cs → IsKept t s → IsKept t (run cs s)
unfolding run
run-IsKept t [] s n h = h
run-IsKept t (c ∷ cs) s n h = run-IsKept t cs (call c s) n.1 (call-IsKept t c s n.0 h)

-- Over any sequence of `Create`, `Delete`, shutdowns, requests to exit and `Shutdown` RPCs, each
-- after the one before it has ended, in which no failed `NewInstance` leaves a nil pointer, and with
-- whatever the guest, QEMU, the mounts and the network answer: as often as a VM or a set of mounts
-- was made by `Create`, its shutdown or cleanup has succeeded, or has been called once and answered
-- an error, or it is still with the service, if it was so at
-- first. None is forgotten, and none is ended more often than it was made.
pub run-IsConserved :
    (t : Token) (cs : List Call) (s : Service)
    → All IsClean cs
    → IsConserved t s
    → IsConserved t (run cs s)
run-IsConserved t cs s n h =
    let s' = run cs s in
    let kept = run-IsKept t cs s n (omega (arith, h, ended-split t s.effects)) in
    omega (arith, kept, ended-split t s'.effects)
