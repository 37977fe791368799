-- ===== src/Persist.antt =====
-- The signer state of libs/gl-client/src/persist.rs: a map from keys to versioned JSON values, which
-- the signer, the node and its storage exchange and merge.
pub mod Map
pub mod Merge
pub mod Wire
pub mod Store
pub mod Persister
