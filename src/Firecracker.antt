-- ===== src/Firecracker.antt =====
-- runtime/firecracker/: the microVM backend.
pub mod Config
pub mod Vm
pub mod Backend
mod Tests
