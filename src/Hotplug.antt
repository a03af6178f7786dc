-- ===== src/Hotplug.antt =====
-- apps/daemon/src/daemon/hotplug_ops.rs: disks and interfaces of a running instance.
pub mod Host
pub mod Operations
pub mod Running
pub mod Detach
pub mod Shift
pub mod Untouched
pub mod Failures
pub mod DiskPath
