-- ===== src/Tramp.antt =====
-- Trampoline payments, libs/gl-plugin/src/tramp.rs.
pub mod Allocation
pub mod ErrorCode
pub mod Order
pub mod Payment
pub mod Service
mod Tests
