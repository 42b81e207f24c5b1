-- ===== src/Watcher/Refiner.antt =====
-- internal/watcher/refiner.go: a raw memory becomes an episodic one, by a language model or by
-- keywords. `Refine` returns no error.
use vatbrain.Prelude.{
  false, nat_eq, String, string_eq, ◌==◌, List, [], ◌∷◌, ◌++◌, Option, none, some, any,
  if◌then◌else◌,
}
use vatbrain.Prelude.Dict.{values}
use vatbrain.Prelude.Format.{is_empty, trim_space, trim_prefix}
use vatbrain.Prelude.Text.{Text, codes, text_eq}
use vatbrain.Float.{Float64, zero_f, one_f}
use vatbrain.Models.Common.{
  Uuid, Time, is_zero, task_debug, task_feature, task_refactor, task_review, SourceType,
  default_trust_level,
}
use vatbrain.Models.Episodic.{EpisodicMemory}
use vatbrain.Core.Extractor.Draft.{LlmClient}
use vatbrain.Watcher.Seen.{RawMemory}
use vatbrain.Watcher.Keywords.{
  extract_entity_id, infer_language, infer_task_type, cut_runes, value_of, build_summary,
  joined_values,
}

pub record Refiner (W : Type 0) : Type 0 where
  pub llm_client : Option LlmClient
  pub embedder : Option (Text → Option (List W))
  pub system_prompt : Text

abbrev pub default_refine_system_prompt : Text
default_refine_system_prompt =
    codes
      "You are a memory refinement engine for an AI agent memory system.\nYour task is to analyze a raw memory entry and extract structured metadata.\n\nInput fields:\n- provider: the agent that produced this memory\n- project: project identifier\n- memory_type: type from the agent's own classification (user, feedback, project, reference)\n- content: the raw memory text\n\nOutput a JSON object with these fields:\n{\n  \"summary\": \"One concise paragraph describing what this memory is about (≤500 chars)\",\n  \"language\": \"go | typescript | python | rust | proto | zh | unknown\",\n  \"task_type\": \"debug | feature | refactor | review | unknown\",\n  \"entity_id\": \"a code entity reference like func:Name, pkg:name, file:path/to/file.go, or empty string\",\n  \"project_id\": \"normalized project identifier\",\n  \"key_entities\": [\"list\", \"of\", \"key\", \"entity\", \"names\"],\n  \"confidence\": 0.0-1.0\n}\n\nOnly respond with the JSON object, no other text."

-- `NewRefiner`
unfoldable pub new_refiner :
    {W : Type 0} → Option LlmClient → Option (Text → Option (List W)) → Text → Refiner W
new_refiner llm embed prompt = record {
  llm_client = llm;
  embedder = embed;
  system_prompt = if is_empty prompt then default_refine_system_prompt else prompt;
}

pub record RefineOutput (W : Type 0) : Type 0 where
  pub summary : Text
  pub language : String
  pub task_type : String
  pub entity_id : String
  pub project_id : String
  pub key_entities : List String
  pub confidence : W

without_prefix : Text → Text → Text
without_prefix m s = elim (trim_prefix m s) [ none ↦ s | some t ↦ t ]

-- `strings.TrimSuffix`
without_suffix : Text → Text → Text
without_suffix m [] = []
without_suffix m (c ∷ s) = let rest = without_suffix m s in if (c ∷ s) == m then [] else c ∷ rest

-- Code fences around the answer are taken off.
unfoldable pub unfenced_json : Text → Text
unfolding without_prefix without_suffix
unfenced_json resp = trim_space (
    without_suffix (codes "```")
      (without_prefix (codes "```") (without_prefix (codes "```json") (trim_space resp))))

unfoldable pub refine_prompt : RawMemory → Text
unfolding value_of
refine_prompt raw =
    codes "provider: "
    ++ codes raw.provider_name
    ++ codes "\nproject: "
    ++ codes raw.project_id
    ++ codes "\nmemory_type: "
    ++ codes (value_of "memory_type" raw.metadata)
    ++ codes "\ncontent:\n"
    ++ codes raw.content

module _ {W : Type 0} ⦃d : Float64 W⦄ where
  unfoldable pub refine_heuristic : RawMemory → RefineOutput W
  unfolding joined_values
  refine_heuristic raw =
      let content =
        if raw.content == "" then joined_values (values raw.front_matter) else raw.content in
      record {
        summary = build_summary content raw.front_matter;
        language = infer_language raw.project_id content;
        task_type = infer_task_type content;
        entity_id = extract_entity_id content;
        project_id = raw.project_id;
        key_entities = [];
        confidence = if content == "" then d.ratio 3 10 else d.ratio 6 10;
      }

  module _ (decode : Text → Option (RefineOutput W)) where
    decoded_answer : Option Text → Option (RefineOutput W)
    unfolding unfenced_json
    decoded_answer none = none
    decoded_answer (some resp) = decode (unfenced_json resp)

    -- `refineWithLLM`, which is `none` where it fails
    unfoldable pub refine_with_llm : LlmClient → Text → RawMemory → Option (RefineOutput W)
    unfolding decoded_answer refine_prompt
    refine_with_llm llm system raw = decoded_answer (llm system (refine_prompt raw))

    or_heuristic : Option (RefineOutput W) → RawMemory → RefineOutput W
    or_heuristic none raw = refine_heuristic raw
    or_heuristic (some out) raw = out

    unfoldable pub refine_output : Option LlmClient → Text → RawMemory → RefineOutput W
    unfolding or_heuristic refine_with_llm
    refine_output none system raw = refine_heuristic raw
    refine_output (some llm) system raw = or_heuristic (refine_with_llm llm system raw) raw

  vector_of : Option (Text → Option (List W)) → Text → List W
  vector_of none t = []
  vector_of (some embed) t = elim (embed t) [ none ↦ [] | some v ↦ v ]

  -- the memory of an output that is trusted
  unfoldable pub refined_memory :
      Refiner W → Uuid → Time → RawMemory → RefineOutput W → EpisodicMemory W
  unfolding vector_of cut_runes
  refined_memory r id now raw out =
      let known =
        any (λ t. out.task_type == t)
          (task_debug ∷ task_feature ∷ task_refactor ∷ task_review ∷ []) in
      let summary =
        if is_empty out.summary then cut_runes 500 (codes raw.content) else out.summary in
      record {
        id = id;
        project_id = if out.project_id == "" then raw.project_id else out.project_id;
        language = out.language;
        task_type = if known then out.task_type else task_feature;
        summary = summary;
        source_type = SourceType.llm;
        trust_level = default_trust_level;
        weight = one_f;
        effective_frequency = one_f;
        created_at = if is_zero raw.modified_at then now else raw.modified_at;
        last_accessed_at = none;
        obsoleted_at = none;
        entity_group = out.entity_id;
        embedding_id = "";
        context_vector = vector_of r.embedder summary;
        full_snapshot_uri = "";
        is_correction = false;
        surprise_score = zero_f;
        occurred_at = 0;
      }

  -- `Refine`: `none` where the confidence is below the threshold
  unfoldable pub refine :
      (Text → Option (RefineOutput W))
      → Refiner W
      → Uuid
      → Time
      → RawMemory
      → Option (EpisodicMemory W)
  refine decode r id now raw =
      let out = refine_output decode r.llm_client r.system_prompt raw in
      if d.lt out.confidence (d.ratio 1 2) then none else some (refined_memory r id now raw out)
