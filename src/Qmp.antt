-- ===== src/Qmp.antt =====
-- backends/andler-qemu/src/qmp.rs, and the parts of backend.rs that send commands to a running QEMU:
-- the client (`Client`) and its loops (`Polling`, `Waits`), and what the backend does with it (`Backend`,
-- `Nics`). `Releases` is about a guest that releases its devices at once.
pub mod Effects
pub mod Monitor
pub mod Polling
pub mod Client
pub mod Waits
pub mod Backend
pub mod Nics
pub mod Recovery
pub mod Releases
