-- ===== src/Store/Memory.antt =====
-- internal/store/memory: the in-process backend, whose mutex makes each method one step.
pub mod State
pub mod Episodics
pub mod Search
pub mod Pitfalls
pub mod Conflicts
pub mod Edges
pub mod Backend
pub mod Matched
pub mod Found
pub mod Feedback
pub mod Has
