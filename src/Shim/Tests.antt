-- ===== src/Shim/Tests.antt =====
-- Runs of the shim's task service (internal/shim/task) on concrete inputs: connections, RPCs in
-- flight, events and the event stream.
mod Containers
use spinbox.Common.{
  ℕ, zero, suc, ◌≤◌, String, Bool, true, false, Option, none, some, List, [], ◌∷◌, ◌++◌, length,
  ◌≡◌, ◌≢◌, refl, arith, ◌↔◌, ◌⊎◌, inl, inr, if◌then◌else◌,
}
use spinbox.Shim.Connection.{
  ConnectionManager, ok, err, cancelled, new_connection_manager, get_client, close,
}
use spinbox.Shim.Connection.Ownership
use spinbox.Shim.Connection.Ownership.{
  IsOwner, run-IsOwner, get_call, set_call, invalidate_call, close_call, clear_call, closings_of,
  get_client-IsOpen, get_client-closed,
}
use spinbox.Shim.Rpc
use spinbox.Shim.Rpc.{Threads, new_gate, arrive, advance_step, request_step, poll_step}
use spinbox.Shim.Rpc.Drain.{IsCounted, run-IsCounted, counted, handlers}
use spinbox.Shim.Events.{Channel, new_channel, send, panicked, event_channel_buffer, close_events}
use spinbox.Shim.Events.Order
use spinbox.Shim.Events.Order.{
  send_step, close_done_step, close_channel_step, receive_step, accepted, run-published,
  send-panicked, receive_all, receive_all-forward_done,
}
use spinbox.Shim.Service.{Service, new_task_service}
use spinbox.Shim.Stream.{
  Attempt, Reconnected, reconnect_event_stream, Envelope, Signal, received, failed, eof, aborted,
  reconnected, forward_stream,
}
use spinbox.Shim.Stream.Reconnect.{reconnect_event_stream-returns}
use spinbox.Shim.Stream.Forwarding.{sent, envelopes, exits_asked, forward_stream-sent}

new_connection_manager-IsOwner : IsOwner new_connection_manager
unfolding new_connection_manager closings_of
new_connection_manager-IsOwner = (λ c. ground arith, ground arith)

abbrev calls : List Ownership.Call
calls =
    get_call (some 7) ∷ set_call (some 8) ∷ invalidate_call ∷ get_call (some 9) ∷ close_call ∷ []

run-IsOwner_example : IsOwner (Ownership.run calls new_connection_manager)
unfolding new_connection_manager Ownership.call closings_of
run-IsOwner_example =
    run-IsOwner calls new_connection_manager (refl, (refl, (tt, (refl, (tt, tt)))))
      new_connection_manager-IsOwner

abbrev no_rpcs : Threads
no_rpcs = ([], new_gate)

no_rpcs-IsCounted : IsCounted no_rpcs
unfolding new_gate counted handlers
no_rpcs-IsCounted = ground arith

-- An RPC passes the first check before the shutdown is asked for, and is refused by the second.
abbrev steps : List Rpc.Step
steps =
    arrive false
    ∷ advance_step 0
    ∷ request_step
    ∷ advance_step 0
    ∷ poll_step
    ∷ advance_step 0
    ∷ poll_step
    ∷ []

run-IsCounted_example : IsCounted (Rpc.run steps no_rpcs)
run-IsCounted_example = run-IsCounted steps no_rpcs no_rpcs-IsCounted

abbrev event_steps : List (Order.Step ℕ)
event_steps =
    send_step true 1
    ∷ send_step true 2
    ∷ receive_step
    ∷ close_done_step
    ∷ send_step false 3
    ∷ close_channel_step
    ∷ receive_step
    ∷ receive_step
    ∷ []

run-published_example :
    let c : Channel ℕ = Order.run event_steps new_channel in
    (c.published ++ c.events ≡ accepted event_steps new_channel)
    × (length c.events ≤ event_channel_buffer)
    × (c.forward_done ≡ true → c.published ≡ accepted event_steps new_channel)
run-published_example = run-published event_steps

send-panicked_example :
    let c : Channel ℕ = Order.run event_steps new_channel in
    ((send true 4 c).1 ≡ panicked) ↔ ((c.closed ≡ true) × (true ≡ true))
send-panicked_example = send-panicked event_steps true 4

abbrev closing : Channel ℕ
closing = Order.run (send_step true 1 ∷ close_done_step ∷ close_channel_step ∷ []) new_channel

abbrev copies {ℓ} : {A : Type ℓ} → ℕ → A → List A
copies zero a = []
copies (suc n) a = a ∷ copies n a

abbrev no_vm : Attempt
no_vm = record { intentional_shutdown = false; dial = none; streams = false; took = 0; jitter = 0 }

reconnect_event_stream-returns_example :
    (r : Reconnected) × (reconnect_event_stream 900 (copies 50 no_vm) ≡ some r)
reconnect_event_stream-returns_example = reconnect_event_stream-returns 900 (copies 50 no_vm) refl

abbrev envelope : ℕ → Envelope
envelope n = record { number = n; task_exit = none }

abbrev signals : List (Service × Signal)
signals =
    (new_task_service, received (some (envelope 1)))
    ∷ (new_task_service, failed eof false (reconnected 5))
    ∷ (new_task_service, received (some (envelope 2)))
    ∷ (new_task_service, failed eof false aborted)
    ∷ (new_task_service, received (some (envelope 3)))
    ∷ []

forward_stream-sent_example :
    let (log, ends) = forward_stream signals [] in
    (sent log ≡ envelopes signals) × (exits_asked log ≤ (if ends then 1 else 0))
forward_stream-sent_example = forward_stream-sent signals
