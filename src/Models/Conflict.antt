-- ===== src/Models/Conflict.antt =====
-- internal/models/rule_conflict.go.
use vatbrain.Prelude.{String, Option}
use vatbrain.Prelude.Text.{Text}
use vatbrain.Models.Common.{Uuid, Time}

pub data ConflictStatus : Type 0 where
  pending auto_resolved manual_resolved dismissed : ConflictStatus

pub data ConflictBasis : Type 0 where
  polarity llm : ConflictBasis

-- `resolution` is the winner's id as a text in the source, and empty at first. `reason` holds a
-- message that the model does not print.
pub record RuleConflict : Type 0 where
  pub id : Uuid
  pub rule_a_id : Uuid
  pub rule_b_id : Uuid
  pub entity_group : String
  pub basis : ConflictBasis
  pub status : ConflictStatus
  pub resolution : Option Uuid
  pub reason : Text
  pub created_at : Time
  pub resolved_at : Option Time
