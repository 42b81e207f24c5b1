-- ===== src/Core/Extractor.antt =====
-- internal/core/pitfall_extractor.go: pitfalls from clusters of debug memories. The parts are
-- `Cluster`, which groups the memories of an entity, `Parse` and `Draft`, which make a pitfall of a group,
-- `Merge`, which joins pitfalls that say the same, and `Pipeline`, which runs them.
pub mod Cluster
pub mod Parse
pub mod Draft
pub mod Merge
pub mod Pipeline
