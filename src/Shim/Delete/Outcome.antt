-- ===== src/Shim/Delete/Outcome.antt =====
-- How `Delete` of internal/shim/task/service.go ends.
use spinbox.Common.{String, false, none, ◌≡◌, ◌≢◌, ◌⊎◌, List, [], ◌∷◌, arith}
use spinbox.Lifecycle.State.{
  created, running, deleting, compare_and_swap, try_start_deleting, try_start_deleting_during,
  is_shutting_down,
}
use spinbox.Shim.Connection.{get_client, get_or_create_client}
use spinbox.Shim.Service.{
  already_exists, ok, err, Service, is_closing, with_task_client, get_task_client,
}
use spinbox.Shim.Teardown.{Outside, DeleteResponse}
use spinbox.Shim.Delete.{delete, delete_task, delete_in_guest, delete_refusal}

-- Each deletion of a sequence is refused as one that is in progress, and does nothing.
unfoldable pub AllRefused : List (Outside × String) → Service → Type 0
unfolding delete
AllRefused [] s = Unit {0}
AllRefused ((o, id) ∷ ds) s =
    let (s', r) = delete o (record { id = id; exec_id = "" }) s in
    (r ≡ err (already_exists "delete already in progress"))
    × (s'.effects ≡ s.effects)
    × (s'.container ≡ s.container)
    × AllRefused ds s'

delete-deleting :
    (o : Outside) (id : String) (s : Service)
    → s.shutdown_requested ≡ false
    → s.state_machine.state ≡ deleting
    → let (s', r) = delete o (record { id = id; exec_id = "" }) s in
      (r ≡ err (already_exists "delete already in progress"))
      × (s'.effects ≡ s.effects)
      × (s'.container ≡ s.container)
      × (s'.shutdown_requested ≡ false)
      × (s'.state_machine.state ≡ deleting)
unfolding delete delete_task delete_in_guest try_start_deleting try_start_deleting_during
    compare_and_swap is_closing is_shutting_down delete_refusal
delete-deleting o id s n d = ground arith

deleting-AllRefused :
    (ds : List (Outside × String)) (s : Service)
    → s.shutdown_requested ≡ false
    → s.state_machine.state ≡ deleting
    → AllRefused ds s
unfolding AllRefused
deleting-AllRefused [] s n d = tt
deleting-AllRefused ((o, id) ∷ ds) s n d =
    let (r, e, c, n', d') = delete-deleting o id s n d in
    let s' = (delete o (record { id = id; exec_id = "" }) s).0 in
    (r, e, c, deleting-AllRefused ds s' n' d')

delete-failed :
    (o : Outside) (id : String) (s : Service)
    → s.shutdown_requested ≡ false
    → (s.state_machine.state ≡ running) ⊎ (s.state_machine.state ≡ created)
    → s.conn_manager.client ≡ none
    → o.dial ≡ none
    → let (s', r) = delete o (record { id = id; exec_id = "" }) s in
      ((d : DeleteResponse) → r ≢ ok d)
      × (s'.effects ≡ s.effects)
      × (s'.container ≡ s.container)
      × (s'.shutdown_requested ≡ false)
      × (s'.state_machine.state ≡ deleting)
unfolding delete delete_task delete_in_guest try_start_deleting try_start_deleting_during
    compare_and_swap is_closing is_shutting_down with_task_client get_task_client get_client
    get_or_create_client
delete-failed o id s n st c d = ground arith

-- A deletion of the container that is let through while no client can be had returns an error after
-- the state has become deleting: nothing is cleaned up and no exit is asked for. As long as only
-- deletions follow, each of them is refused as one that is in progress and does nothing either.
pub delete-no_client :
    (o : Outside) (ds : List (Outside × String)) (id : String) (s : Service)
    → s.shutdown_requested ≡ false
    → (s.state_machine.state ≡ running) ⊎ (s.state_machine.state ≡ created)
    → s.conn_manager.client ≡ none
    → o.dial ≡ none
    → let (s', r) = delete o (record { id = id; exec_id = "" }) s in
      ((d : DeleteResponse) → r ≢ ok d)
      × (s'.effects ≡ s.effects)
      × (s'.container ≡ s.container)
      × AllRefused ds s'
delete-no_client o ds id s n st c d =
    let (r, e, k, n', d') = delete-failed o id s n st c d in
    let s' = (delete o (record { id = id; exec_id = "" }) s).0 in
    (r, e, k, deleting-AllRefused ds s' n' d')
