-- ===== src/Rpc.antt =====
-- services/andler-rpc: the messages of proto/andler.proto and their conversions in src/convert.rs.
pub mod Messages
pub mod Requests
pub mod Errors
pub mod Enums
pub mod Devices
pub mod Inputs
pub mod Instances
pub mod Commands
pub mod Carried
pub mod RoundTrip
pub mod Exchange
pub mod Acceptance
pub mod Complete
pub mod Accepted
pub mod Received
