-- ===== src/Sdk.antt =====
-- sdk/: the client of the server on a single host, and the machine that is built on it.
pub mod Client
pub mod Machine
pub mod Calls
pub mod Host
pub mod Body
pub mod Hosted
pub mod Lost
mod Tests
