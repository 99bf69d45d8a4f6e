-- ===== src/Shim.antt =====
-- internal/shim/task: the task service of the shim, a module for each part of its state.
pub mod Connection
pub mod Rpc
pub mod Events
pub mod Service
pub mod Teardown
pub mod Delete
pub mod Create
pub mod Tokens
pub mod Exec
pub mod Pause
pub mod Query
pub mod PassOn
pub mod Stream
mod Tests
