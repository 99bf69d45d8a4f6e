-- ===== src/Lifecycle.antt =====
-- internal/shim/lifecycle: the shim's state machine and its ordered cleanup.
pub mod State
pub mod Cleanup
pub mod Vm
