-- ===== src/Client.antt =====
-- How a device talks to its node and to the scheduler, libs/gl-client/src.
pub mod Service
pub mod Tls
pub mod Credentials
pub mod Scheduler
pub mod NewDevice
