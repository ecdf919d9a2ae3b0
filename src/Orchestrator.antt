-- ===== src/Orchestrator.antt =====
-- orchestrator/: the sandboxes of one node.
pub mod Store
pub mod Calls
pub mod Valid
pub mod Expiry
pub mod Runs
pub mod Lifecycle
pub mod Transitions
pub mod Creation
pub mod Backing
mod Tests
