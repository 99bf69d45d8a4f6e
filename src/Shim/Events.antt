-- ===== src/Shim/Events.antt =====
-- The event channel of internal/shim/task/service.go: `send`, `closeEvents` and `forward`. A `select`
-- picks any of its ready cases, so which one it likes is an argument; and the case that sends is
-- ready when the channel has room, and when it is closed: then the send panics. `close_done` and
-- `close_channel` are the two halves of `closeEvents`, which runs once.
pub mod Order
use spinbox.Common.{
  ℕ, Bool, true, false, not, ◌&&◌, ◌||◌, List, [], ◌∷◌, ◌++◌, length, ltb, if◌then◌else◌,
}

abbrev pub event_channel_buffer : ℕ
event_channel_buffer = 128

-- `has_closed` is `eventsClosed`, `events_done` whether the channel of that name is closed, and
-- `closed` whether the events channel is. `published` is what `forward` has handed to the publisher.
pub record Channel (E : Type 0) : Type 0 where
  pub events : List E
  pub has_closed : Bool
  pub events_done : Bool
  pub closed : Bool
  pub published : List E
  pub forward_done : Bool

unfoldable pub new_channel : {E : Type 0} → Channel E
new_channel = record {
  events = [];
  has_closed = false;
  events_done = false;
  closed = false;
  published = [];
  forward_done = false;
}

pub data Sent : Type 0 where
  sent dropped panicked blocked : Sent

module _ {E : Type 0} where
  -- The send of an event on the channel, when its case is ready.
  abbrev pub put : E → Channel E → Channel E × Sent
  put e c = if c.closed then (c, panicked) else (record c { events = c.events ++ (e ∷ []) }, sent)

  abbrev pub can_put : Channel E → Bool
  can_put c = c.closed || ltb (length c.events) event_channel_buffer

  unfoldable pub send : Bool → E → Channel E → Channel E × Sent
  send likes_to_put e c =
      if can_put c && (likes_to_put || not c.events_done)
      then put e c
      else if c.events_done
      then (c, dropped)
      else (c, blocked)

  unfoldable pub close_done : Channel E → Channel E
  close_done c = if not c.has_closed then record c { has_closed = true; events_done = true } else c

  unfoldable pub close_channel : Channel E → Channel E
  close_channel c = if c.has_closed then record c { closed = true } else c

  unfoldable pub close_events : Channel E → Channel E
  unfolding close_done close_channel
  close_events c = close_channel (close_done c)

  -- A round of the loop of `forward`; it ends when the channel is closed and empty.
  abbrev pub received : List E → Channel E → Channel E
  received [] c = if c.closed then record c { forward_done = true } else c
  received (e ∷ es) c = record c { events = es; published = c.published ++ (e ∷ []) }

  unfoldable pub receive : Channel E → Channel E
  receive c = if c.forward_done then c else received c.events c
