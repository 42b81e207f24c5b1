-- ===== src/Models/Pitfall.antt =====
-- internal/models/pitfall_memory.go: the pitfall record, its Workbench status and its feedback.
use vatbrain.Prelude.{
  ℕ, String, ◌≡◌, refl, Bool, true, false, ◌&&◌, List, Option, ltb, leb, if◌then◌else◌,
}
use vatbrain.Prelude.Text.{Text}
use vatbrain.Float.{Float64, zero_f, one_f, of_nat, neg}
use vatbrain.Models.Common.{Uuid, Time, SourceType, TrustLevel}

pub data PitfallStatus : Type 0 where
  proposed confirmed suppressed obsolete : PitfallStatus
  other : String → PitfallStatus

-- `Normalize`: an empty or unknown status is proposed.
unfoldable pub normalize : PitfallStatus → PitfallStatus
normalize (PitfallStatus.other _) = PitfallStatus.proposed
normalize s = s

pub data PitfallFeedbackAction : Type 0 where
  adopted ignored recurred : PitfallFeedbackAction
  other : String → PitfallFeedbackAction

-- `PitfallFeedbackAction.IsValid`
unfoldable pub is_valid_feedback : PitfallFeedbackAction → Bool
is_valid_feedback (PitfallFeedbackAction.other _) = false
is_valid_feedback _ = true

abbrev pub pitfall_protection_level_max : ℕ
pitfall_protection_level_max = 3

pub record PitfallMemory (W : Type 0) : Type 0 where
  pub id : Uuid
  pub entity_id : String
  pub entity_type : String
  pub project_id : String
  pub language : String
  pub signature : Text
  pub signature_embedding_id : String
  pub root_cause_category : String
  pub fix_strategy : Text
  pub was_user_corrected : Bool
  pub occurrence_count : ℕ
  pub last_occurred_at : Option Time
  pub source_type : SourceType
  pub trust_level : TrustLevel
  pub weight : W
  pub created_at : Time
  pub updated_at : Time
  pub obsoleted_at : Option Time
  pub source_episodic_ids : List Uuid
  pub status : PitfallStatus
  pub times_shown : ℕ
  pub times_suppressed : ℕ
  pub times_adopted : ℕ
  pub protection_level : ℕ

module _ {W : Type 0} ⦃d : Float64 W⦄ where
  -- `WeightDelta`
  unfoldable pub weight_delta : PitfallFeedbackAction → W
  weight_delta PitfallFeedbackAction.adopted = d.ratio 1 10
  weight_delta PitfallFeedbackAction.ignored = neg (d.ratio 1 10)
  weight_delta PitfallFeedbackAction.recurred = d.ratio 5 100
  weight_delta _ = zero_f

  -- the switch of `Injectable`
  injectable_as : PitfallStatus → PitfallMemory W → Bool
  injectable_as PitfallStatus.confirmed p = true
  injectable_as PitfallStatus.proposed p = leb 2 p.occurrence_count && d.le (d.ratio 6 10) p.weight
  injectable_as _ p = false

  unfoldable pub injectable : PitfallMemory W → Bool
  unfolding normalize injectable_as
  injectable p = injectable_as (normalize p.status) p

  unfoldable pub interference_rate : PitfallMemory W → W
  interference_rate p =
      let r = d.div (of_nat p.times_suppressed) (of_nat p.times_shown) in
      if ltb 0 p.times_shown then if d.lt one_f r then one_f else r else zero_f

-- Normalizing a status again changes nothing.
pub normalize_idem : (s : PitfallStatus) → normalize (normalize s) ≡ normalize s
unfolding normalize
normalize_idem (PitfallStatus.other t) = refl
normalize_idem _ = refl
