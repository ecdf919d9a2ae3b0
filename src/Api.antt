-- ===== src/Api.antt =====
-- api/: the HTTP API of a single host.
pub mod Handlers
pub mod Server
pub mod Guarantees
pub mod Paths
mod Tests
