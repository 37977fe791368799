-- ===== src/Proxy.antt =====
-- The signer proxy (libs/gl-signerproxy) and the service that it talks to (libs/gl-plugin/src/hsm.rs).
pub mod Wire
pub mod Requests
pub mod Staging
mod Tests
