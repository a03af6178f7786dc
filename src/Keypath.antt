-- ===== src/Keypath.antt =====
-- core/andler-core/src/config/keypath.rs: the table of configuration keys. `Values` holds what the
-- setters read and the getters write, `Table` the rows, `Lookup` the functions on the table.
pub mod Values
pub mod Rows
pub mod Table
pub mod Lookup
pub mod Fixed
pub mod Setting
pub mod Drift
