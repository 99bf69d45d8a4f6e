-- ===== src/Mounts/Overlay.antt =====
-- The layers of an overlay in internal/host/mountutil/mount.go.
use mathlib.Core.Option
