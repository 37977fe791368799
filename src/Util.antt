-- ===== src/Util.antt =====
-- libs/gl-util.
pub mod Error
