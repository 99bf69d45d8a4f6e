-- ===== src/Lifecycle/Vm/Tests.antt =====
-- Runs of `DialClientWithRetry` of internal/shim/lifecycle/vm.go.
use spinbox.Common.{ℕ, ◌*◌, some, List, [], ◌∷◌, ◌≡◌, arith}
use spinbox.Lifecycle.Vm.{Result, err, econnrefused, Attempt, millisecond, dial_client_with_retry}
use spinbox.Lifecycle.Vm.Retry.{dial_client_with_retry-returns}

abbrev refused : Attempt ℕ ℕ
refused = record {
  manager = record { instance_of = some 1 };
  dial = λ i. err econnrefused;
  took = 5;
  late = 2;
}

abbrev attempts : List (Attempt ℕ ℕ)
attempts = refused ∷ refused ∷ refused ∷ refused ∷ []

dial_client_with_retry-returns_example :
    (r : Result ℕ) × (dial_client_with_retry (50 * millisecond) 9 attempts ≡ some r)
dial_client_with_retry-returns_example =
    dial_client_with_retry-returns (50 * millisecond) 9 attempts (omega arith)
