-- ===== src/Models.antt =====
-- The data types of internal/models, one child for each file.
pub mod Common
pub mod Episodic
pub mod Semantic
pub mod Pitfall
pub mod Conflict
