-- ===== src/Task.antt =====
-- internal/guest/vminit/task: the task service of the guest, its tracking of process exits.
pub mod ExitTracker
pub mod Events
