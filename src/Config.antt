-- ===== src/Config.antt =====
-- core/andler-core/src/config: the configuration of an instance. The children hold the structs of
-- the files of that folder and of android_profile.rs; a path is its text, an instance id the list
-- of its bytes, and `u16`, `u32`, `u64` and `usize` are numbers.
mod Hardware
mod Network
mod Android
mod Instance
pub mod Validity
pub use Hardware.*
pub use Network.*
pub use Android.*
pub use Instance.*
unfoldable pub use Instance.{migrate_schema, validate, resolve}
