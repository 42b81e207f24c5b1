-- ===== src/Mcp/Listing.antt =====
-- The handlers of internal/mcp/pitfall_workbench.go that read pitfalls. The formats of a date and of a time
-- are parameters, as is `uuid.Parse`.
use vatbrain.Prelude.{
  ℕ, Bool, ◌||◌, String, string_eq, ◌==◌, List, Option, none, some, map, keep, if◌then◌else◌,
}
use vatbrain.Prelude.Int.{ℤ, pos, positive}
use vatbrain.Prelude.Result.{Action, pure, ◌>>=◌}
use vatbrain.Prelude.Text.{Text}
use vatbrain.Float.{Float64, zero_f}
use vatbrain.Models.Common.{Uuid, Time}
use vatbrain.Models.Pitfall.{PitfallMemory, PitfallStatus, normalize, injectable, interference_rate}
use vatbrain.Store.{MemoryStore, PitfallSearchRequest}
use vatbrain.Mcp.Workbench.{require_string, parsed}

pub record PitfallSummary (W : Type 0) : Type 0 where
  pub pitfall_id : Uuid
  pub entity_id : String
  pub entity_type : String
  pub project_id : String
  pub signature : Text
  pub root_cause_category : String
  pub fix_strategy : Text
  pub status : PitfallStatus
  pub was_user_corrected : Bool
  pub occurrence_count : ℕ
  pub last_occurred_at : String
  pub weight : W
  pub trust_level : ℕ
  pub injectable : Bool
  pub interference_rate : W
  pub times_shown : ℕ
  pub times_suppressed : ℕ

pub record ExplainOutput (W : Type 0) : Type 0 where
  pub summary : PitfallSummary W
  pub source_episodic_ids : List Uuid
  pub created_at : String
  pub updated_at : String

-- the string of a status
unfoldable pub status_string : PitfallStatus → String
status_string PitfallStatus.proposed = "proposed"
status_string PitfallStatus.confirmed = "confirmed"
status_string PitfallStatus.suppressed = "suppressed"
status_string PitfallStatus.obsolete = "obsolete"
status_string (PitfallStatus.other s) = s

module _ {W : Type 0} ⦃d : Float64 W⦄ where
  unfoldable pub to_pitfall_summary : (Time → String) → PitfallMemory W → PitfallSummary W
  to_pitfall_summary date p = record {
    pitfall_id = p.id;
    entity_id = p.entity_id;
    entity_type = p.entity_type;
    project_id = p.project_id;
    signature = p.signature;
    root_cause_category = p.root_cause_category;
    fix_strategy = p.fix_strategy;
    status = normalize p.status;
    was_user_corrected = p.was_user_corrected;
    occurrence_count = p.occurrence_count;
    last_occurred_at = elim p.last_occurred_at [ none ↦ "" | some t ↦ date t ];
    weight = p.weight;
    trust_level = p.trust_level;
    injectable = injectable p;
    interference_rate = interference_rate p;
    times_shown = p.times_shown;
    times_suppressed = p.times_suppressed;
  }

  unfoldable pub list_request : (project root_cause : String) → ℤ → PitfallSearchRequest W
  list_request project root_cause top_k = record {
    project_id = project;
    language = "";
    entity_id = "";
    root_cause_category = root_cause;
    min_weight = zero_f;
    limit = if positive top_k then top_k else pos 20;
  }

  unfoldable pub has_status : String → PitfallMemory W → Bool
  unfolding status_string
  has_status status p = status == "" || status_string (normalize p.status) == status

  unfoldable pub explained : (date stamp : Time → String) → PitfallMemory W → ExplainOutput W
  unfolding to_pitfall_summary
  explained date stamp p = record {
    summary = to_pitfall_summary date p;
    source_episodic_ids = p.source_episodic_ids;
    created_at = stamp p.created_at;
    updated_at = stamp p.updated_at;
  }

module _ {W S : Type 0} ⦃d : Float64 W⦄ (store : MemoryStore W S) (date : Time → String) where
  -- A missing filter is "", and a missing `top_k` is 20.
  unfoldable pub list_pitfalls :
      (project status root_cause : String) → ℤ → Action S (List (PitfallSummary W))
  unfolding list_request has_status to_pitfall_summary
  list_pitfalls project status root_cause top_k = do
    ps ← store.search_pitfall (list_request project root_cause top_k)
    pure (map (to_pitfall_summary date) (keep (has_status status) ps))

  unfoldable pub explain_pitfall :
      (stamp : Time → String) → (String → Option Uuid) → Option String → Action S (ExplainOutput W)
  unfolding explained require_string parsed
  explain_pitfall stamp parse_uuid arg = do
    text ← require_string arg
    id ← parsed (parse_uuid text)
    p ← store.get_pitfall id
    pure (explained date stamp p)
