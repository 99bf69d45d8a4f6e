-- ===== src/Hotplug.antt =====
-- internal/shim/hotplug, internal/shim/cpuhotplug and internal/shim/memhotplug: the monitor that
-- paces scaling decisions, and the two controllers that it drives.
pub mod Float
pub mod Monitor
pub mod Cpu
pub mod Memory
