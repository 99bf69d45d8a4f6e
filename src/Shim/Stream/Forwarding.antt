-- ===== src/Shim/Stream/Forwarding.antt =====
-- What the loop of `startEventForwarder` of internal/shim/task/service.go passes on, and how it ends.
use mathlib.Core.List.{append-nil, append_assoc}
use spinbox.Common.{
  ℕ, ◌+◌, ◌≤◌, Bool, Option, none, some, List, [], ◌∷◌, ◌++◌, ◌≡◌, refl, arith, if◌then◌else◌,
}
use spinbox.Shim.Service.{Service}
use spinbox.Shim.Stream.{
  Envelope, TaskExit, Signal, vm_exit, received, failed, Act, waits_for_io, sends, reconnects,
  asks_exit, wait_for_io_before_exit, handle_signal, forward_stream, reconnected, aborted,
  timed_out,
}

-- The envelopes that are sent, oldest first.
unfoldable pub sent : List Act → List Envelope
sent [] = []
sent (sends e ∷ log) = sent log ++ (e ∷ [])
sent (waits_for_io f ∷ log) = sent log
sent (reconnects c ∷ log) = sent log
sent (asks_exit r ∷ log) = sent log

unfoldable pub exits_asked : List Act → ℕ
exits_asked [] = 0
exits_asked (asks_exit r ∷ log) = 1 + exits_asked log
exits_asked (waits_for_io f ∷ log) = exits_asked log
exits_asked (reconnects c ∷ log) = exits_asked log
exits_asked (sends e ∷ log) = exits_asked log

abbrev pub ends_loop : Service → Signal → Bool
ends_loop s x = (handle_signal s x []).1

-- The envelopes of the signals up to the one that ends the loop.
abbrev pub envelope_of : Signal → List Envelope
envelope_of (received (some e)) = e ∷ []
envelope_of _ = []

unfoldable pub envelopes : List (Service × Signal) → List Envelope
unfolding handle_signal
envelopes [] = []
envelopes ((s, x) ∷ xs) =
    let rest = envelopes xs in
    if (handle_signal s x []).1 then envelope_of x else envelope_of x ++ rest

wait-sent :
    (s : Service) (e : Option TaskExit) (log : List Act)
    → (sent (wait_for_io_before_exit s e log) ≡ sent log)
      × (exits_asked (wait_for_io_before_exit s e log) ≡ exits_asked log)
unfolding wait_for_io_before_exit sent exits_asked
wait-sent s none log = (refl, refl)
wait-sent s (some e) log = ground arith

handle_signal-sent :
    (s : Service) (x : Signal) (log : List Act)
    → let (log', ends) = handle_signal s x log in
      (sent log' ≡ sent log ++ envelope_of x)
      × (ends ≡ (handle_signal s x []).1)
      × (exits_asked log' ≤ exits_asked log + (if ends then 1 else 0))
unfolding handle_signal sent exits_asked
handle_signal-sent s vm_exit log = ground (arith, append-nil (sent log))
handle_signal-sent s (received none) log = ground (arith, append-nil (sent log))
handle_signal-sent s (received (some e)) log = ground (arith, wait-sent s e.task_exit log)
handle_signal-sent s (failed e i (reconnected c)) log = ground (arith, append-nil (sent log))
handle_signal-sent s (failed e i aborted) log = ground (arith, append-nil (sent log))
handle_signal-sent s (failed e i timed_out) log = ground (arith, append-nil (sent log))

forward_stream-log :
    (xs : List (Service × Signal)) (log : List Act)
    → let (log', ends) = forward_stream xs log in
      (sent log' ≡ sent log ++ envelopes xs)
      × (exits_asked log' ≤ exits_asked log + (if ends then 1 else 0))
unfolding forward_stream envelopes
forward_stream-log [] log = ground (arith, append-nil (sent log))
forward_stream-log ((s, x) ∷ xs) log = ground (
  arith,
  handle_signal-sent s x log,
  forward_stream-log xs (handle_signal s x log).0,
  append_assoc (sent log) (envelope_of x) (envelopes xs),
)

-- Over any signals, with the service in any state at each, the loop sends exactly the envelopes
-- that it has received up to its end, in their order; and it asks for the exit of the shim at most
-- once, and not before it has ended.
pub forward_stream-sent :
    (xs : List (Service × Signal))
    → let (log, ends) = forward_stream xs [] in
      (sent log ≡ envelopes xs) × (exits_asked log ≤ (if ends then 1 else 0))
unfolding sent exits_asked
forward_stream-sent xs = ground (arith, forward_stream-log xs [])
