-- ===== src/Node.antt =====
-- node/server.go: the API of one node over its orchestrator, and how it joins its control plane.
pub mod Handlers
pub mod Routes
pub mod Guarantees
pub mod Valid
pub mod Control
pub mod Joining
mod Tests
