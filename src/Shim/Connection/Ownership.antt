-- ===== src/Shim/Connection/Ownership.antt =====
-- Who closes a client of internal/shim/task/connmanager.go, over any sequence of calls.
use spinbox.Common.{
  ℕ, ◌+◌, ◌≤◌, true, false, Option, none, some, List, [], ◌∷◌, ◌≡◌, ◌==◌, arith, if◌then◌else◌,
}
use spinbox.Shim.Connection.{
  ConnectionManager, ok, err, cancelled, get_client, get_or_create_client, set_client, clear_client,
  invalidate, close, close_replaced,
}

-- A call of one of the methods that change the manager, each one step. `get_client` is one or two
-- of them: a look, and `get_or_create_client`.
pub data Call : Type 0 where
  get_call : Option ℕ → Call
  set_call : Option ℕ → Call
  clear_call invalidate_call close_call : Call

unfoldable pub call : Call → ConnectionManager → ConnectionManager
unfolding get_or_create_client set_client clear_client invalidate close
call (get_call dial) m = (get_or_create_client dial m).0
call (set_call c) m = set_client c m
call clear_call m = (clear_client m).0
call invalidate_call m = invalidate m
call close_call m = (close m).0

unfoldable pub run : List Call → ConnectionManager → ConnectionManager
unfolding call
run [] m = m
run (c ∷ cs) m = run cs (call c m)

-- How often a client was closed.
unfoldable pub closings_of : ℕ → List ℕ → ℕ
closings_of c [] = 0
closings_of c (d ∷ ds) = (if c == d then 1 else 0) + closings_of c ds

-- A client that was never closed.
abbrev pub IsOpen : ConnectionManager → Option ℕ → Type 0
IsOpen m none = Unit {0}
IsOpen m (some c) = closings_of c m.closings ≡ 0

-- The client that a call brings, by a dial or from its caller, is open.
abbrev pub BringsOpen : Call → ConnectionManager → Type 0
BringsOpen (get_call dial) m = IsOpen m dial
BringsOpen (set_call c) m = IsOpen m c
BringsOpen _ m = Unit {0}

abbrev pub AllBringOpen : List Call → ConnectionManager → Type 0
AllBringOpen [] m = Unit {0}
AllBringOpen (c ∷ cs) m = BringsOpen c m × AllBringOpen cs (call c m)

-- No client is closed twice, the cached one is open, and a closed manager has none.
abbrev pub IsOwner : ConnectionManager → Type 0
IsOwner m =
    ((c : ℕ) → (closings_of c m.closings ≤ 1) × (m.client ≡ some c → closings_of c m.closings ≡ 0))
    × (m.closed ≡ true → m.client ≡ none)

call-IsOwner : (x : Call) (m : ConnectionManager) → BringsOpen x m → IsOwner m → IsOwner (call x m)
unfolding call get_or_create_client set_client clear_client invalidate close close_replaced
    closings_of
call-IsOwner (get_call none) m b (e, f) = (λ c. ground (arith, e c), ground arith)
call-IsOwner (get_call (some d)) m b (e, f) = (λ c. ground (arith, e c), ground arith)
call-IsOwner (set_call none) m b (e, f) = (λ c. ground (arith, e c), ground arith)
call-IsOwner (set_call (some d)) m b (e, f) = (λ c. ground (arith, e c), ground arith)
call-IsOwner clear_call m b (e, f) = (λ c. ground (arith, e c), ground arith)
call-IsOwner invalidate_call m b (e, f) = (λ c. ground (arith, e c), ground arith)
call-IsOwner close_call m b (e, f) = (λ c. ground (arith, e c), ground arith)

-- Over any sequence of calls in which every client that is dialed or given to the manager is one
-- that it has not closed: no client is closed twice, the client that is cached is not closed, and
-- a manager that is closed caches none.
pub run-IsOwner :
    (xs : List Call) (m : ConnectionManager) → AllBringOpen xs m → IsOwner m → IsOwner (run xs m)
unfolding run
run-IsOwner [] m b e = e
run-IsOwner (x ∷ xs) m (b, bs) e = run-IsOwner xs (call x m) bs (call-IsOwner x m b e)

-- A call of `get_client` on a manager that owns its client, whatever calls other goroutines make
-- between its two looks: a client that it returns is one that the manager has not closed and keeps
-- cached, and the manager is not closed.
pub get_client-IsOpen :
    (xs : List Call) (dial : Option ℕ) (m : ConnectionManager) (c : ℕ)
    → IsOwner m
    → AllBringOpen xs m
    → IsOpen (run xs m) dial
    → (get_client (run xs) dial m).1 ≡ ok c
    → let m' = (get_client (run xs) dial m).0 in
      (m'.closed ≡ false) × (m'.client ≡ some c) × (closings_of c m'.closings ≡ 0)
unfolding get_client get_or_create_client
get_client-IsOpen xs none m c e b o h =
    let e' = run-IsOwner xs m b e in ground (arith, e.0 c, e'.0 c)
get_client-IsOpen xs (some d) m c e b o h =
    let e' = run-IsOwner xs m b e in ground (arith, e.0 c, e'.0 c)

run-closed : (xs : List Call) (m : ConnectionManager) → m.closed ≡ true → (run xs m).closed ≡ true
unfolding run call get_or_create_client set_client clear_client invalidate close close_replaced
run-closed [] m h = h
run-closed (get_call none ∷ xs) m h = run-closed xs (call (get_call none) m) (ground arith)
run-closed (get_call (some d) ∷ xs) m h = run-closed xs (call (get_call (some d)) m) (ground arith)
run-closed (set_call none ∷ xs) m h = run-closed xs (call (set_call none) m) (ground arith)
run-closed (set_call (some d) ∷ xs) m h = run-closed xs (call (set_call (some d)) m) (ground arith)
run-closed (clear_call ∷ xs) m h = run-closed xs (call clear_call m) h
run-closed (invalidate_call ∷ xs) m h = run-closed xs (call invalidate_call m) (ground arith)
run-closed (close_call ∷ xs) m h = run-closed xs (call close_call m) (ground arith)

-- Once a manager is closed no call of `get_client` returns a client any more: whatever is called
-- after the close and between the two looks, and whatever a dial would answer, it is cancelled.
pub get_client-closed :
    (xs ys : List Call) (dial : Option ℕ) (m : ConnectionManager)
    → let m' = run xs (close m).0 in
      IsOwner m → AllBringOpen xs (close m).0 → (get_client (run ys) dial m').1 ≡ err cancelled
unfolding get_client get_or_create_client close
get_client-closed xs ys dial m e b =
    let m' = run xs (close m).0 in
    let shut = run-closed xs (close m).0 (ground arith) in
    let still = run-closed ys m' shut in ground arith
