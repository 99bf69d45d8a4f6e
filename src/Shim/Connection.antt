-- ===== src/Shim/Connection.antt =====
-- `ConnectionManager` of internal/shim/task/connmanager.go. A client is a number, and `closings` is
-- the sequence of the clients that the manager has closed; what a dial and the close of a client
-- answer are arguments. The mutex makes each method one step: the second look of
-- `getOrCreateClient` is at the state of its own step.
pub mod Ownership
use spinbox.Common.{
  ℕ, Bool, true, false, not, ◌&&◌, Option, none, some, List, [], ◌∷◌, ◌==◌, if◌then◌else◌,
}

pub data DialError : Type 0 where
  cancelled dial_failed : DialError

pub data Result : Type 0 where
  ok : ℕ → Result
  err : DialError → Result

pub record ConnectionManager : Type 0 where
  pub client : Option ℕ
  pub closed : Bool
  pub closings : List ℕ

unfoldable pub new_connection_manager : ConnectionManager
new_connection_manager = record { client = none; closed = false; closings = [] }

-- `ttrpc.Client.Close`, noted.
abbrev pub close_client : ℕ → ConnectionManager → ConnectionManager
close_client c m = record m { closings = c ∷ m.closings }

abbrev pub dialed : Option ℕ → ConnectionManager → ConnectionManager × Result
dialed none m = (m, err dial_failed)
dialed (some c) m = (record m { client = some c }, ok c)

unfoldable pub get_or_create_client : Option ℕ → ConnectionManager → ConnectionManager × Result
get_or_create_client dial m =
    if m.closed
    then (m, err cancelled)
    else elim m.client [ some c ↦ (m, ok c) | none ↦ dialed dial m ]

-- `other` is what other goroutines do between the two looks at the manager.
unfoldable pub get_client :
    (ConnectionManager → ConnectionManager)
    → Option ℕ
    → ConnectionManager
    → ConnectionManager × Result
unfolding get_or_create_client
get_client other dial m = elim m.client [
  | some c ↦ if not m.closed then (m, ok c) else get_or_create_client dial (other m)
  | none ↦ get_or_create_client dial (other m)
]

abbrev is_client : Option ℕ → ℕ → Bool
is_client none c = false
is_client (some d) c = c == d

-- Closes the client that is cached, unless it is the new one.
unfoldable pub close_replaced : Option ℕ → ConnectionManager → ConnectionManager
close_replaced new m = elim m.client [
  | none ↦ m
  | some c ↦ if not (is_client new c) then close_client c m else m
]

abbrev close_given : Option ℕ → ConnectionManager → ConnectionManager
close_given none m = m
close_given (some c) m = close_client c m

unfoldable pub set_client : Option ℕ → ConnectionManager → ConnectionManager
unfolding close_replaced
set_client new m =
    if m.closed then close_given new m else record (close_replaced new m) { client = new }

unfoldable pub clear_client : ConnectionManager → ConnectionManager × Option ℕ
clear_client m = (record m { client = none }, m.client)

unfoldable pub invalidate : ConnectionManager → ConnectionManager
invalidate m = elim m.client [ none ↦ m | some c ↦ record (close_client c m) { client = none } ]

-- The second result is whether a client was closed: its error, if any, is returned.
unfoldable pub close : ConnectionManager → ConnectionManager × Bool
close m = if m.closed then (m, false) else elim m.client [
  | none ↦ (record m { closed = true }, false)
  | some c ↦ (record (close_client c m) { client = none; closed = true }, true)
]

unfoldable pub has_client : ConnectionManager → Bool
has_client m = elim m.client [ none ↦ false | some c ↦ not m.closed ]
