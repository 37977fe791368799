-- ===== src/Plugin.antt =====
-- The plugin of the node, libs/gl-plugin/src: how it hands requests to the signer, what it does for the
-- callers of its services and for the hooks of core-lightning.
pub mod Stager
pub mod Context
pub mod Node
pub mod Awaitables
pub mod Lsp
pub mod Peers
pub mod Invoices
pub mod Layer
pub mod Messages
pub mod Wrapper
pub mod Hooks
pub mod RpcWait
mod Tests
