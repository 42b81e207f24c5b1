-- ===== src/Provider.antt =====
-- internal/provider: what is injected into an agent's context.
pub mod Prefetch
pub mod Condense
pub mod Snapshot
pub mod Server
pub mod Derive
pub mod Turns
pub mod Retrieve
pub mod Recall
pub mod Hooks
pub mod Edit
pub mod Daemon
