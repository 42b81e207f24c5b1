-- ===== src/Store.antt =====
-- internal/store/memory_store.go: the requests, the graph's edges, and the interface that the
-- engines use. `Memory` is the in-process backend of internal/store/memory.
pub mod Lru
pub mod Memory
pub mod WorkingMemory
use vatbrain.Prelude.{Bool, String, List, Option}
use vatbrain.Prelude.Int.{ℤ}
use vatbrain.Prelude.Result.{Action, Done}
use vatbrain.Prelude.Text.{Text}
use vatbrain.Models.Common.{Uuid, Time, TaskType, MemoryType}
use vatbrain.Models.Episodic.{EpisodicMemory}
use vatbrain.Models.Semantic.{SemanticMemory}
use vatbrain.Models.Pitfall.{PitfallMemory, PitfallStatus, PitfallFeedbackAction}
use vatbrain.Models.Conflict.{RuleConflict, ConflictStatus}

pub record EpisodicSearchRequest (W : Type 0) : Type 0 where
  pub project_id : String
  pub language : String
  pub task_type : TaskType
  pub min_weight : W
  pub limit : ℤ
  pub include_obsolete : Bool
  pub embedding : Option (List W)
  pub surprise_boost : W
  pub occurred_after : Time
  pub occurred_before : Time
  pub sort_by_occurred_at : Bool
  pub query : Text
  pub rrf_k : ℤ

pub record SemanticSearchRequest : Type 0 where
  pub project_id : String
  pub memory_type : MemoryType
  pub limit : ℤ

pub record PitfallSearchRequest (W : Type 0) : Type 0 where
  pub project_id : String
  pub language : String
  pub entity_id : String
  pub root_cause_category : String
  pub min_weight : W
  pub limit : ℤ

pub record EpisodicScanItem (W : Type 0) : Type 0 where
  pub id : Uuid
  pub summary : Text
  pub task_type : TaskType
  pub project_id : String
  pub language : String
  pub entity_group : String
  pub entity_id : String
  pub weight : W
  pub last_accessed : Time
  pub occurred_at : Time

-- a value of the map `Properties`
pub data Property (W : Type 0) : Type 0 where
  text : String → Property W
  number : W → Property W
  instant : Time → Property W
  uuid : Uuid → Property W

pub record Edge (W : Type 0) : Type 0 where
  pub from_id : Uuid
  pub to_id : Uuid
  pub edge_type : String
  pub properties : List (String × Property W)
  pub created_at : Time

-- `MemoryStore`, over a type of stores. Operations that read the clock take its reading.
pub record MemoryStore (W S : Type 0) : Type 0 where
  pub write_episodic : EpisodicMemory W → Action S Done
  pub get_episodic : Uuid → Action S (EpisodicMemory W)
  pub search_episodic : EpisodicSearchRequest W → Action S (List (EpisodicMemory W))
  pub touch_episodic : Uuid → Time → Action S Done
  pub update_episodic_weight : Uuid → W → W → Action S Done
  pub mark_obsolete : Uuid → Time → Action S Done
  pub write_semantic : SemanticMemory W → Action S Done
  pub search_semantic : SemanticSearchRequest → Action S (List (SemanticMemory W))
  pub create_edge : Uuid → Uuid → String → List (String × Property W) → Time → Action S Done
  pub get_edges : Uuid → String → String → Action S (List (Edge W))
  pub scan_recent : Time → ℤ → Action S (List (EpisodicScanItem W))
  pub write_pitfall : PitfallMemory W → Action S Done
  pub get_pitfall : Uuid → Action S (PitfallMemory W)
  pub search_pitfall : PitfallSearchRequest W → Action S (List (PitfallMemory W))
  pub search_pitfall_by_entity : String → String → Action S (List (PitfallMemory W))
  pub touch_pitfall : Uuid → Time → Action S Done
  pub update_pitfall_status : Uuid → PitfallStatus → Time → Action S Done
  pub add_pitfall_counters : Uuid → ℤ → ℤ → Time → Action S Done
  pub apply_pitfall_feedback : Uuid → PitfallFeedbackAction → Time → Action S Done

-- `RuleConflictStore`, which a backend may have beside `MemoryStore`.
pub record RuleConflictStore (W S : Type 0) : Type 0 where
  pub list_rule_conflicts : String → ℤ → Action S (List RuleConflict)
  pub save_rule_conflict : RuleConflict → Action S Done
  pub resolve_rule_conflict : Uuid → ConflictStatus → Uuid → Text → Time → Action S Done
  pub mark_semantic_obsolete : Uuid → Time → Action S Done
