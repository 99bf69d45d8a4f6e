-- ===== src/Task/ExitTracker/Tests.antt =====
-- Runs of internal/guest/vminit/task/exit_tracker.go at concrete trackers.
use spinbox.Common.{false, none, List, [], ◌∷◌}
use spinbox.Task.ExitTracker.{Exit, ContainerProcess, EarlyExitDetector, ExitTracker}

abbrev detector : EarlyExitDetector
detector = record { next_sub_id = 4; subscriptions = [] }

abbrev exits : List Exit
exits = record { pid = 7; status = 1 } ∷ record { pid = 8; status = 2 } ∷ []

abbrev exec : ContainerProcess
exec = record { pid = 8; container = 1; process = record { id = 2; is_init = false } }

abbrev killed : Exit
killed = record { pid = 8; status = 137 }

abbrev empty : ExitTracker
empty = record {
  detector = detector;
  coordinator = record { containers = λ c. none; next_channel = 0; closed_channels = [] };
  running = [];
}
