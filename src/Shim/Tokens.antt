-- ===== src/Shim/Tokens.antt =====
-- What is made by `Create` and given back later, in internal/shim/task: a VM and the cleanup of a
-- set of mounts are tokens, which the effects count.
pub mod Ends
pub mod Whole
pub mod Creation
pub mod Runs
use spinbox.Common.{
  ℕ, ◌+◌, Bool, true, false, Option, none, some, List, [], ◌∷◌, ◌≡◌, refl, arith, ◌==◌,
  if◌then◌else◌,
}
use spinbox.Lifecycle.Vm.{Manager}
use spinbox.Shim.Service.{
  Service, Effect, vm_created, vm_shut_down, vm_not_shut_down, mounts_not_cleaned, mounts_made,
  mounts_cleaned, Container, note, cpu_stopped, memory_stopped, io_shut_down,
}
use spinbox.Shim.Teardown.{Outside, note_all, shutdown_forwarders}

pub data Token : Type 0 where
  vm_token mount_token : ℕ → Token

abbrev pub makes : Token → Effect → Bool
makes (vm_token i) (vm_created j) = i == j
makes (mount_token m) (mounts_made n) = m == n
makes _ _ = false

-- The end of a token, released or not.
abbrev pub ends : Token → Effect → Bool
ends (vm_token i) (vm_shut_down j) = i == j
ends (mount_token m) (mounts_cleaned n) = m == n
ends (vm_token i) (vm_not_shut_down j) = i == j
ends (mount_token m) (mounts_not_cleaned n) = m == n
ends _ _ = false

unfoldable pub made : Token → List Effect → ℕ
made t [] = 0
made t (e ∷ es) = (if makes t e then 1 else 0) + made t es

unfoldable pub ended : Token → List Effect → ℕ
ended t [] = 0
ended t (e ∷ es) = (if ends t e then 1 else 0) + ended t es

-- Released: the shutdown or the cleanup has answered without an error.
abbrev pub gives_back : Token → Effect → Bool
gives_back (vm_token i) (vm_shut_down j) = i == j
gives_back (mount_token m) (mounts_cleaned n) = m == n
gives_back _ _ = false

-- Given up: it has answered an error.
abbrev pub gives_up : Token → Effect → Bool
gives_up (vm_token i) (vm_not_shut_down j) = i == j
gives_up (mount_token m) (mounts_not_cleaned n) = m == n
gives_up _ _ = false

unfoldable pub given_back : Token → List Effect → ℕ
given_back t [] = 0
given_back t (e ∷ es) = (if gives_back t e then 1 else 0) + given_back t es

unfoldable pub given_up : Token → List Effect → ℕ
given_up t [] = 0
given_up t (e ∷ es) = (if gives_up t e then 1 else 0) + given_up t es

pub ends-split :
    (t : Token) (e : Effect)
    → (if ends t e then 1 else 0)
      ≡ (if gives_back t e then 1 else 0) + (if gives_up t e then 1 else 0)
ends-split (vm_token i) e = ground arith
ends-split (mount_token m) e = ground arith

pub ended-split : (t : Token) (es : List Effect) → ended t es ≡ given_back t es + given_up t es
unfolding ended given_back given_up
ended-split t [] = omega arith
ended-split t (e ∷ es) = omega (arith, ends-split t e, ended-split t es)

abbrev pub is_some_of : ℕ → Option ℕ → ℕ
is_some_of n none = 0
is_some_of n (some k) = if n == k then 1 else 0

abbrev pub mount_in : ℕ → Option Container → ℕ
mount_in m none = 0
mount_in m (some c) = is_some_of m c.mount_cleanup

-- Whether the service still has the token.
unfoldable pub held : Token → Service → ℕ
held (vm_token i) s = is_some_of i s.vm_lifecycle.instance_of
held (mount_token m) s = mount_in m s.container

-- Each token that was made has been ended, once, or is still there.
abbrev pub IsKept : Token → Service → Type 0
IsKept t s = made t s.effects ≡ ended t s.effects + held t s

-- How many of a token the cleanup of mounts that somebody has taken stands for.
unfoldable pub taken : Token → Option ℕ → ℕ
taken (vm_token i) c = 0
taken (mount_token m) c = is_some_of m c

-- From the first state to the second nothing is made, and what is given back was in the service, or
-- was taken from it before.
abbrev pub IsSettled : Token → ℕ → Service → Service → Type 0
IsSettled t n s s' =
    (made t s'.effects ≡ made t s.effects)
    × (ended t s'.effects + held t s' ≡ ended t s.effects + held t s + n)

-- Each token that was made has been released, or given up after an error, or is still there.
abbrev pub IsConserved : Token → Service → Type 0
IsConserved t s = made t s.effects ≡ given_back t s.effects + given_up t s.effects + held t s

-- An effect that makes and ends nothing.
abbrev pub IsOther : Token → Effect → Type 0
IsOther t e = (makes t e ≡ false) × (ends t e ≡ false)

pub io-IsOther : (t : Token) (f : ℕ) → IsOther t (io_shut_down f)
io-IsOther (vm_token i) f = (refl, refl)
io-IsOther (mount_token m) f = (refl, refl)

pub note-IsSettled :
    (t : Token) (e : Effect) (s : Service) → IsOther t e → IsSettled t 0 s (note e s)
unfolding made ended held
note-IsSettled (vm_token i) e s h = ground arith
note-IsSettled (mount_token m) e s h = ground arith

pub note_all-IsSettled :
    (t : Token) (f : ℕ → Effect) (ns : List ℕ) (s : Service)
    → ((n : ℕ) → IsOther t (f n))
    → IsSettled t 0 s (note_all f ns s)
note_all-IsSettled t f [] s h = (refl, omega arith)
note_all-IsSettled t f (n ∷ ns) s h =
    ground (arith, note-IsSettled t (f n) s (h n), note_all-IsSettled t f ns (note (f n) s) h)

pub shutdown_forwarders-IsSettled :
    (t : Token) (o : Outside) (fs : List ℕ) (s : Service)
    → IsSettled t 0 s (shutdown_forwarders o fs s).0
shutdown_forwarders-IsSettled t o [] s = (refl, omega arith)
shutdown_forwarders-IsSettled t o (f ∷ fs) s = ground (
  arith,
  note-IsSettled t (io_shut_down f) s (io-IsOther t f),
  shutdown_forwarders-IsSettled t o fs (note (io_shut_down f) s),
)
