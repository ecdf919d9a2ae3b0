-- ===== src/Network.antt =====
-- network/: the address slots of the VMs, the host commands, and the pool of slots.
pub mod Slot
pub mod Host
pub mod Pool
mod Tests
