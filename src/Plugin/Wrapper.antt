-- ===== src/Plugin/Wrapper.antt =====
-- `WrappedNodeServer` of libs/gl-plugin/src/node/wrapper.rs: the node that callers see in front of
-- core-lightning's gRPC server.
pub mod RouteHints
pub mod Methods
