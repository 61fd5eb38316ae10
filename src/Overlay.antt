-- ===== src/Overlay.antt =====
-- The VXLAN overlay of the host: address plan, allocations, recovery.
pub mod Subnet
pub mod Links
pub mod Names
pub mod Recovery
pub mod Networks
pub mod Manager
mod Tests
