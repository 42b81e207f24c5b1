-- ===== src/Models/Episodic.antt =====
-- internal/models/episodic_memory.go. `W` is `float64`, and a vector component too.
use vatbrain.Prelude.{Bool, String, List, Option, if◌then◌else◌}
use vatbrain.Prelude.Text.{Text}
use vatbrain.Models.Common.{Uuid, Time, is_zero, SourceType, TaskType, TrustLevel}

pub record EpisodicMemory (W : Type 0) : Type 0 where
  pub id : Uuid
  pub project_id : String
  pub language : String
  pub task_type : TaskType
  pub summary : Text
  pub source_type : SourceType
  pub trust_level : TrustLevel
  pub weight : W
  pub effective_frequency : W
  pub created_at : Time
  pub last_accessed_at : Option Time
  pub obsoleted_at : Option Time
  pub entity_group : String
  pub embedding_id : String
  pub context_vector : List W
  pub full_snapshot_uri : String
  pub is_correction : Bool
  pub surprise_score : W
  pub occurred_at : Time

-- `EffectiveOccurredAt`
unfoldable pub effective_occurred_at : {W : Type 0} → EpisodicMemory W → Time
effective_occurred_at m = if is_zero m.occurred_at then m.created_at else m.occurred_at
