-- ===== src/Core.antt =====
-- internal/core: the engines.
pub mod Risk
pub mod Attribution
pub mod Gate
pub mod Decay
pub mod Surprise
pub mod Separation
pub mod Retrieval
pub mod Conflict
pub mod Update
pub mod Link
pub mod Write
pub mod Reconsolidation
pub mod Extractor
pub mod Consolidation
