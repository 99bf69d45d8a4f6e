-- ===== src/Shim/Events/Order.antt =====
-- Which events of internal/shim/task/service.go reach the publisher, over any interleaving of the
-- senders, the close and the forwarder.
use mathlib.Core.List.{append-nil, append_assoc}
use spinbox.Common.{
  ℕ, zero, suc, ◌≤◌, Bool, true, false, List, [], ◌∷◌, ◌++◌, length, ◌≡◌, refl, arith,
  length-append, sym, ◌↔◌, Bool-cases, inl, inr,
}
use spinbox.Shim.Events.{
  event_channel_buffer, Channel, Sent, sent, panicked, send, close_done, close_channel, receive,
  received, new_channel,
}

pub data Step (E : Type 0) : Type 0 where
  send_step : Bool → E → Step E
  close_done_step close_channel_step receive_step : Step E

module _ {E : Type 0} where
  unfoldable pub step : Step E → Channel E → Channel E
  unfolding send close_done close_channel receive
  step (send_step likes e) c = (send likes e c).0
  step close_done_step c = close_done c
  step close_channel_step c = close_channel c
  step receive_step c = receive c

  unfoldable pub run : List (Step E) → Channel E → Channel E
  unfolding step
  run [] c = c
  run (x ∷ xs) c = run xs (step x c)

  abbrev event_if_sent : Sent → E → List E
  event_if_sent sent e = e ∷ []
  event_if_sent _ e = []

  -- The event that a step puts on the channel.
  abbrev pub taken : Step E → Channel E → List E
  taken (send_step likes e) c = event_if_sent (send likes e c).1 e
  taken _ c = []

  unfoldable pub accepted : List (Step E) → Channel E → List E
  accepted [] c = []
  accepted (x ∷ xs) c = taken x c ++ accepted xs (step x c)

  received-published :
      (es : List E) (c : Channel E)
      → c.events ≡ es
      → (received es c).published ++ (received es c).events ≡ c.published ++ c.events
  received-published [] c h = ground arith
  received-published (e ∷ es) c h = ground (arith, append_assoc c.published (e ∷ []) es)

  step-published :
      (x : Step E) (c : Channel E)
      → (step x c).published ++ (step x c).events ≡ (c.published ++ c.events) ++ taken x c
  unfolding step send close_done close_channel receive
  step-published (send_step likes e) c =
      ground
        (arith, append-nil (c.published ++ c.events), append_assoc c.published c.events (e ∷ []))
  step-published close_done_step c = ground (arith, append-nil (c.published ++ c.events))
  step-published close_channel_step c = ground (arith, append-nil (c.published ++ c.events))
  step-published receive_step c =
      ground (arith, append-nil (c.published ++ c.events), received-published c.events c)

  run-published_events :
      (xs : List (Step E)) (c : Channel E)
      → (run xs c).published ++ (run xs c).events ≡ (c.published ++ c.events) ++ accepted xs c
  unfolding run accepted
  run-published_events [] c = sym (append-nil (c.published ++ c.events))
  run-published_events (x ∷ xs) c = ground (
    arith,
    run-published_events xs (step x c),
    step-published x c,
    append_assoc (c.published ++ c.events) (taken x c) (accepted xs (step x c)),
  )

  -- The channel holds no more than its buffer, it is closed after `eventsDone`, and the forwarder
  -- ends when it is closed and empty.
  abbrev pub IsOrderly : Channel E → Type 0
  IsOrderly c =
      (length c.events ≤ event_channel_buffer)
      × (c.events_done ≡ c.has_closed)
      × (c.closed ≡ true → c.has_closed ≡ true)
      × (c.forward_done ≡ true → (c.closed ≡ true) × (c.events ≡ []))

  received-IsOrderly :
      (es : List E) (c : Channel E)
      → c.events ≡ es
      → c.forward_done ≡ false
      → IsOrderly c
      → IsOrderly (received es c)
  received-IsOrderly [] c h n o = ground arith
  received-IsOrderly (e ∷ es) c h n o = ground arith

  step-IsOrderly : (x : Step E) (c : Channel E) → IsOrderly c → IsOrderly (step x c)
  unfolding step send close_done close_channel receive
  step-IsOrderly (send_step likes e) c o = ground (arith, length-append c.events (e ∷ []))
  step-IsOrderly close_done_step c o = ground arith
  step-IsOrderly close_channel_step c o = ground arith
  step-IsOrderly receive_step c o = elim (Bool-cases c.forward_done) [
    | inl d ↦ ground arith
    | inr n ↦ simp n (received-IsOrderly c.events c refl n o)
  ]

  run-IsOrderly : (xs : List (Step E)) (c : Channel E) → IsOrderly c → IsOrderly (run xs c)
  unfolding run
  run-IsOrderly [] c o = o
  run-IsOrderly (x ∷ xs) c o = run-IsOrderly xs (step x c) (step-IsOrderly x c o)

  -- Over any interleaving of senders, the two halves of the close and the forwarder: the published
  -- events followed by those in the channel are exactly the events that were sent, in their order;
  -- the channel holds at most its buffer; and when the forwarder has ended, every event that was
  -- sent has been published.
  pub run-published :
      (xs : List (Step E))
      → let c = run xs new_channel in
        (c.published ++ c.events ≡ accepted xs new_channel)
        × (length c.events ≤ event_channel_buffer)
        × (c.forward_done ≡ true → c.published ≡ accepted xs new_channel)
  unfolding new_channel
  run-published xs =
      let c = run xs new_channel in
      let o = run-IsOrderly xs new_channel (ground arith) in
      ground (arith, o, run-published_events xs new_channel, append-nil c.published)

  -- Over any interleaving, a send panics exactly if the channel is closed and `select` picks the
  -- case that sends, though the closed `eventsDone` makes the other case ready as well.
  pub send-panicked :
      (xs : List (Step E)) (likes : Bool) (e : E)
      → let c = run xs new_channel in
        ((send likes e c).1 ≡ panicked) ↔ ((c.closed ≡ true) × (likes ≡ true))
  unfolding send new_channel
  send-panicked xs likes e =
      let c = run xs new_channel in
      let o = run-IsOrderly xs new_channel (ground arith) in ground arith

  -- Receives so often that a closed channel runs empty.
  unfoldable pub receive_all : ℕ → Channel E → Channel E
  unfolding receive
  receive_all zero c = c
  receive_all (suc n) c = receive_all n (receive c)

  receive_all-events :
      (es : List E) (c : Channel E)
      → c.events ≡ es
      → c.closed ≡ true
      → c.forward_done ≡ false
      → let c' = receive_all (suc (length es)) c in
        (c'.forward_done ≡ true) × (c'.published ≡ c.published ++ es)
  unfolding receive_all receive
  receive_all-events [] c e h d = ground (arith, append-nil c.published)
  receive_all-events (x ∷ es) c e h d =
      ground (arith, receive_all-events es (receive c), append_assoc c.published (x ∷ []) es)

  -- The loop of `forward` ends on a closed channel: one round for each event that it still holds
  -- and one more, and all of them have been published in order.
  pub receive_all-forward_done :
      (c : Channel E)
      → c.closed ≡ true
      → c.forward_done ≡ false
      → let c' = receive_all (suc (length c.events)) c in
        (c'.forward_done ≡ true) × (c'.published ≡ c.published ++ c.events)
  receive_all-forward_done c h d = receive_all-events c.events c refl h d
