-- ===== src/Tests.antt =====
-- Sample data, and the theorems applied to it.
pub mod Samples
pub mod Store
pub mod Found
pub mod Mcp
pub mod Core
pub mod Write
pub mod Rules
pub mod Provider
pub mod Server
pub mod Extractor
pub mod Watcher
pub mod Embedder
pub mod Lru
pub mod Recall
pub mod Vector
