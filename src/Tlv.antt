-- ===== src/Tlv.antt =====
-- Onion payloads as TLV streams, libs/gl-plugin/src/tlv.rs.
pub mod Proto
pub mod Stream
mod Tests
