-- ===== src/Agent.antt =====
-- agent/: the server that runs inside a sandbox.
pub mod Defaults
pub mod Environment
pub mod Process
pub mod Files
pub mod Server
pub mod Guarantees
mod Tests
