-- ===== src/ControlPlane.antt =====
-- controlplane/: nodes, sandboxes, projects and users over a database, and the scaler.
pub mod Types
pub mod Db
pub mod Nodes
pub mod Auth
pub mod Handlers
pub mod Scaler
pub mod Cloud
pub mod Aws
pub mod Gcp
pub mod Azure
pub mod Histories
mod Tests
