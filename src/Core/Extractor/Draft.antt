-- ===== src/Core/Extractor/Draft.antt =====
-- The making of a pitfall in internal/core/pitfall_extractor.go, by a language model or without one.
-- The model's client is a parameter: it answers a system prompt and a user prompt, or fails.
pub mod Traced
use vatbrain.Prelude.{
  ℕ, suc, ◌≡◌, refl, ◌-◌, Bool, false, String, List, [], ◌∷◌, ◌++◌, Option, none, some, map, any,
  length, nat_eq, string_eq, ◌==◌, if◌then◌else◌,
}
use vatbrain.Prelude.Format.{starts_with, truncate_runes, decimal}
use vatbrain.Prelude.Result.{Result, ok, err, llm_failed, decode_failed}
use vatbrain.Prelude.Text.{Text, codes}
use vatbrain.Float.{Float64, zero_f, one_f, neg, of_nat}
use vatbrain.Models.Common.{Uuid, Time, SourceType, TrustLevel}
use vatbrain.Models.Pitfall.{PitfallMemory, PitfallStatus}
use vatbrain.Store.{EpisodicScanItem}
use vatbrain.Core.Extractor.Parse.{PitfallLlmOutput, Decoder, parse_pitfall_response}
use vatbrain.Core.Extractor.Cluster.{char_bigram_overlap}

abbrev pub LlmClient : Type 0
LlmClient = Text → Text → Option Text

-- `RootCause.IsValid`
unfoldable pub is_valid_root_cause : String → Bool
is_valid_root_cause c =
    any (λ k. c == k)
      ("CONCURRENCY" ∷ "RESOURCE_EXHAUSTION" ∷ "CONFIG" ∷ "CONTRACT_VIOLATION" ∷ "LOGIC_ERROR"
        ∷ "UNKNOWN" ∷ [])

-- `inferEntityType`
unfoldable pub infer_entity_type : String → String
infer_entity_type id =
    let has = λ (p : String). starts_with (codes id) (codes p) in
    if has "func:"
    then "FUNCTION"
    else if has "module:"
    then "MODULE"
    else if has "api:"
    then "API"
    else if has "config:"
    then "CONFIG"
    else if has "query:"
    then "QUERY"
    else "FUNCTION"

abbrev pub pitfall_system_prompt : Text
pitfall_system_prompt =
    codes
      "You are an error pattern analyst. Given a cluster of debug sessions about the same code entity, extract a structured pitfall memory.\n\nOutput ONLY valid JSON, no markdown:\n{\n  \"signature\": \"one-line error pattern description\",\n  \"root_cause_category\": \"CONCURRENCY|RESOURCE_EXHAUSTION|CONFIG|CONTRACT_VIOLATION|LOGIC_ERROR|UNKNOWN\",\n  \"fix_strategy\": \"≤500 chars: how the issue was resolved\",\n  \"confidence\": 0.0-1.0\n}\n\nRules:\n- signature should be a reusable pattern, not a specific traceback\n- If summaries are insufficient to determine root cause → category=UNKNOWN\n- fix_strategy must be actionable (\"increase timeout\" not \"fix the bug\")"

module _ {W : Type 0} ⦃d : Float64 W⦄ where
  prompt_lines : ℕ → List (EpisodicScanItem W) → Text
  prompt_lines i [] = []
  prompt_lines i (ep ∷ eps) =
      codes "["
      ++ decimal i
      ++ codes "] "
      ++ truncate_runes 500 ep.summary
      ++ 10 ∷ prompt_lines (suc i) eps

  unfoldable pub build_pitfall_extraction_prompt :
      (entity project language : String) → List (EpisodicScanItem W) → Text
  unfolding prompt_lines
  build_pitfall_extraction_prompt entity project language eps =
      codes "Entity: "
      ++ codes entity
      ++ codes "\nProject: "
      ++ codes project
      ++ codes " | Language: "
      ++ codes language
      ++ codes "\nTotal debug sessions for this entity: "
      ++ decimal (length eps)
      ++ codes "\n\nDebug session summaries:\n"
      ++ prompt_lines 0 eps
      ++ codes "\nAnalyze these "
      ++ decimal (length eps)
      ++ codes " debug sessions and extract structured error patterns.\n"

  -- the overlaps of a summary with those at the other positions
  overlap_with : ℕ → Text → W → ℕ → List (EpisodicScanItem W) → W
  overlap_with i s total j [] = total
  overlap_with i s total j (ep ∷ eps) =
      overlap_with i s (if i == j then total else d.add total (char_bigram_overlap s ep.summary))
        (suc j) eps

  -- the loop over the summaries, with the best so far and its average
  most_shared : List (EpisodicScanItem W) → Text → W → ℕ → List (EpisodicScanItem W) → Text
  unfolding overlap_with
  most_shared all best score i [] = best
  most_shared all best score i (ep ∷ eps) =
      let avg = d.div (overlap_with i ep.summary zero_f 0 all) (of_nat (length all - 1)) in
      let better = d.lt score avg in
      most_shared all (if better then ep.summary else best) (if better then avg else score) (suc i)
        eps

  unfoldable pub representative_summary : List (EpisodicScanItem W) → Text
  unfolding most_shared
  representative_summary [] = []
  representative_summary (ep ∷ []) = ep.summary
  representative_summary (ep ∷ f ∷ eps) =
      most_shared (ep ∷ f ∷ eps) ep.summary (neg one_f) 0 (ep ∷ f ∷ eps)

  -- what both ways to make a pitfall set
  unfoldable pub drafted :
      Uuid
      → Time
      → (entity : String) → List (EpisodicScanItem W)
      → (signature : Text) → (cause : String) (fix : Text) → TrustLevel
      → (project language : String) → PitfallMemory W
  drafted id now entity eps signature cause fix trust project language = record {
    id = id;
    entity_id = entity;
    entity_type = infer_entity_type entity;
    project_id = project;
    language = language;
    signature = signature;
    signature_embedding_id = "";
    root_cause_category = cause;
    fix_strategy = fix;
    was_user_corrected = false;
    occurrence_count = length eps;
    last_occurred_at = none;
    source_type = SourceType.inferred;
    trust_level = trust;
    weight = one_f;
    created_at = now;
    updated_at = now;
    obsoleted_at = none;
    source_episodic_ids = map (λ (ep : EpisodicScanItem W). ep.id) eps;
    status = PitfallStatus.other "";
    times_shown = 0;
    times_suppressed = 0;
    times_adopted = 0;
    protection_level = 0;
  }

  -- the project and the language of the first memory
  project_of : List (EpisodicScanItem W) → String
  project_of [] = ""
  project_of (ep ∷ eps) = ep.project_id

  language_of : List (EpisodicScanItem W) → String
  language_of [] = ""
  language_of (ep ∷ eps) = ep.language

  unfoldable pub extract_heuristic :
      Uuid → Time → String → List (EpisodicScanItem W) → PitfallMemory W
  unfolding drafted project_of language_of
  extract_heuristic id now entity eps =
      let representative = representative_summary eps in
      drafted id now entity eps (truncate_runes 200 (codes entity ++ codes ": " ++ representative))
        "UNKNOWN" (truncate_runes 200 representative) 2 (project_of eps) (language_of eps)

  -- from the decoded answer, with the root cause unknown if it is none of the known ones
  of_output :
      Uuid
      → Time
      → String
      → List (EpisodicScanItem W)
      → Result (PitfallLlmOutput W)
      → Result (PitfallMemory W)
  unfolding drafted project_of language_of is_valid_root_cause
  of_output id now entity eps (err e) = err decode_failed
  of_output id now entity eps (ok o) = ok (
      drafted id now entity eps o.signature
        (if is_valid_root_cause o.root_cause_category then o.root_cause_category else "UNKNOWN")
        o.fix_strategy 3 (project_of eps) (language_of eps))

  -- from the answer of the client
  of_response :
      Decoder W
      → Uuid
      → Time
      → String
      → List (EpisodicScanItem W)
      → Option Text
      → Result (PitfallMemory W)
  unfolding of_output
  of_response decoder id now entity eps none = err llm_failed
  of_response decoder id now entity eps (some response) =
      of_output id now entity eps (parse_pitfall_response decoder response)

  unfoldable pub extract_with_llm :
      Decoder W
      → LlmClient
      → Uuid
      → Time
      → String
      → List (EpisodicScanItem W)
      → Result (PitfallMemory W)
  unfolding of_response project_of language_of
  extract_with_llm decoder llm id now entity eps = of_response decoder id now entity eps (
      llm pitfall_system_prompt
        (build_pitfall_extraction_prompt entity (project_of eps) (language_of eps) eps))

  -- `extractFromSubCluster`
  unfoldable pub extract_from_sub_cluster :
      Decoder W
      → Option LlmClient
      → Uuid
      → Time
      → String
      → List (EpisodicScanItem W)
      → Result (PitfallMemory W)
  unfolding extract_heuristic extract_with_llm
  extract_from_sub_cluster decoder none id now entity eps = ok (extract_heuristic id now entity eps)
  extract_from_sub_cluster decoder (some llm) id now entity eps =
      extract_with_llm decoder llm id now entity eps
