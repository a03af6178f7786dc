-- ===== src/Cmdline.antt =====
-- backends/andler-qemu/src/cmdline.rs: the QEMU command line of an instance.
pub mod Machine
pub mod Peripherals
pub mod Drives
pub mod Nics
pub mod Build
pub mod Bootable
pub mod Taps
pub mod Ports
