-- ===== src/Models/Semantic.antt =====
-- internal/models/semantic_memory.go.
use vatbrain.Prelude.{String, List, Option}
use vatbrain.Prelude.Text.{Text}
use vatbrain.Models.Common.{Uuid, Time, SourceType, MemoryType, TrustLevel}

pub record SemanticMemory (W : Type 0) : Type 0 where
  pub id : Uuid
  pub type : MemoryType
  pub content : Text
  pub source_type : SourceType
  pub trust_level : TrustLevel
  pub weight : W
  pub effective_frequency : W
  pub created_at : Time
  pub last_accessed_at : Option Time
  pub obsoleted_at : Option Time
  pub entity_group : String
  pub consolidation_run_id : Option Uuid
  pub backtest_accuracy : W
  pub source_episodic_ids : List Uuid
  pub surprise_score : W
