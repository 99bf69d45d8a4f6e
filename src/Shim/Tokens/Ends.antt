-- ===== src/Shim/Tokens/Ends.antt =====
-- The tokens over a shutdown and a deletion of internal/shim/task/service.go.
use spinbox.Common.{ℕ, ◌+◌, Option, none, some, List, [], ◌≡◌, ◌∙◌, refl, arith, String}
use spinbox.Common.Maps.{values}
use spinbox.Shim.Service.{Service, network_released, cpu_stopped, memory_stopped}
use spinbox.Shim.Teardown.{
  container_forwarders, note_all, Outside, stop_all_hotplug_controllers, shutdown_all_io,
  close_connection, shutdown_vm, release_network_resources, clean_up_mounts, extract_mount_cleanup,
}
use spinbox.Shim.Tokens.{
  Token, vm_token, mount_token, made, ended, held, IsOther, note-IsSettled, note_all-IsSettled,
  shutdown_forwarders-IsSettled, IsSettled, taken,
}

cpu-IsOther : (t : Token) (n : ℕ) → IsOther t (cpu_stopped n)
cpu-IsOther (vm_token i) n = (refl, refl)
cpu-IsOther (mount_token m) n = (refl, refl)

memory-IsOther : (t : Token) (n : ℕ) → IsOther t (memory_stopped n)
memory-IsOther (vm_token i) n = (refl, refl)
memory-IsOther (mount_token m) n = (refl, refl)

pub network-IsOther : (t : Token) (id : String) → IsOther t (network_released id)
network-IsOther (vm_token i) n = (refl, refl)
network-IsOther (mount_token m) n = (refl, refl)

-- Both lists of controllers are stopped.
pub stop-IsSettled :
    (t : Token) (cpu memory : List ℕ) (s : Service)
    → IsSettled t 0 s (note_all memory_stopped memory (note_all cpu_stopped cpu s))
stop-IsSettled t cpu memory s = ground (
  arith,
  note_all-IsSettled t cpu_stopped cpu s (cpu-IsOther t),
  note_all-IsSettled t memory_stopped memory (note_all cpu_stopped cpu s) (memory-IsOther t),
)

-- A state with the same effects, container and VM.
pub same-IsSettled :
    (t : Token) (s s' : Service)
    → s'.effects ≡ s.effects
    → s'.container ≡ s.container
    → s'.vm_lifecycle ≡ s.vm_lifecycle
    → IsSettled t 0 s s'
unfolding held
same-IsSettled (vm_token i) s s' e c v = ground arith
same-IsSettled (mount_token m) s s' e c v = ground arith

pub IsSettled-trans :
    (t : Token) (n k : ℕ) (s₁ s₂ s₃ : Service)
    → IsSettled t n s₁ s₂
    → IsSettled t k s₂ s₃
    → IsSettled t (n + k) s₁ s₃
IsSettled-trans t n k s₁ s₂ s₃ (a, b) (c, d) = (c ∙ a, omega arith)

pub stop_all-IsSettled :
    (t : Token) (s : Service) → IsSettled t 0 s (stop_all_hotplug_controllers s).0
unfolding stop_all_hotplug_controllers
stop_all-IsSettled t s =
    let s' : Service = record s { cpu_hotplug_controllers = []; memory_hotplug_controllers = [] } in
    let stopped =
      stop-IsSettled t (values s.cpu_hotplug_controllers) (values s.memory_hotplug_controllers)
        s' in
    IsSettled-trans t 0 0 s s' (stop_all_hotplug_controllers s).0
      (same-IsSettled t s s' refl refl refl) stopped

pub shutdown_all_io-IsSettled :
    (t : Token) (o : Outside) (s : Service) → IsSettled t 0 s (shutdown_all_io o s).0
unfolding shutdown_all_io
shutdown_all_io-IsSettled t o s =
    shutdown_forwarders-IsSettled t o (container_forwarders s.container) s

pub close_connection-IsSettled :
    (t : Token) (o : Outside) (s : Service) → IsSettled t 0 s (close_connection o s).0
unfolding close_connection
close_connection-IsSettled t o s = same-IsSettled t s (close_connection o s).0 refl refl refl

pub shutdown_vm-IsSettled :
    (t : Token) (o : Outside) (s : Service) → IsSettled t 0 s (shutdown_vm o s).0
unfolding shutdown_vm made ended held
shutdown_vm-IsSettled (vm_token i) o s = ground arith
shutdown_vm-IsSettled (mount_token i) o s = ground arith

pub release_network-IsSettled :
    (t : Token) (o : Outside) (id : String) (s : Service)
    → IsSettled t 0 s (release_network_resources o id s).0
unfolding release_network_resources
release_network-IsSettled t o id s = note-IsSettled t (network_released id) s (network-IsOther t id)

pub clean_up_mounts-IsSettled :
    (t : Token) (o : Outside) (c : Option ℕ) (s : Service)
    → IsSettled t (taken t c) s (clean_up_mounts o c s).0
unfolding clean_up_mounts made ended held taken
clean_up_mounts-IsSettled (vm_token i) o none s = ground arith
clean_up_mounts-IsSettled (vm_token i) o (some n) s = ground arith
clean_up_mounts-IsSettled (mount_token m) o none s = ground arith
clean_up_mounts-IsSettled (mount_token m) o (some n) s = ground arith

pub extract-taken :
    (t : Token) (s : Service)
    → let (s', c) = extract_mount_cleanup s in
      (s'.effects ≡ s.effects) × (held t s' + taken t c ≡ held t s)
unfolding extract_mount_cleanup held taken
extract-taken (vm_token i) s = ground arith
extract-taken (mount_token m) s = ground arith
