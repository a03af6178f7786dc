-- ===== src/Supervisor.antt =====
-- apps/daemon/src/daemon/supervisor.rs: the task that owns one instance's state, handle, config and
-- operations. The children hold its data (`State`), its instance.toml (`ConfigFile`), its readiness
-- ladder and transitions (`Transitions`), its operations (`Operations`) and its loop (`Run`).
mod State
mod ConfigFile
mod Transitions
mod Operations
mod Run
pub mod Agreement
pub mod Published
pub mod FileEdits
pub mod Persistence
pub mod Kept
pub mod Tasks
pub mod Accounting
pub mod Handlers
pub mod OneOperation
pub mod Retry
pub mod Retention
pub use State.*
pub use ConfigFile.*
pub use Transitions.*
pub use Operations.*
pub use Run.*
unfoldable pub use State.{spawn_supervisor}
unfoldable pub use ConfigFile.{parse_instance_config_toml}
unfoldable pub use Operations.{accept_operation, join_decision, start_operation}
unfoldable pub use Run.{launch, handle_command, step, run}
