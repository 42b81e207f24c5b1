-- ===== src/Core/Consolidation/Rules.antt =====
-- The rules of internal/core/consolidation_engine.go: the clusters of a scan, the text of a rule, its
-- backtest, and the memory that holds it.
use Prim.Native.String.{◌++◌ as str_append}
use vatbrain.Prelude.{
  ℕ, suc, ◌+◌, ◌-◌, ◌&&◌, String, string_eq, List, [], ◌∷◌, ◌++◌, Option, none, some, keep, length,
  take, map, ltb, leb, if◌then◌else◌,
}
use vatbrain.Prelude.Dict.{Dict, empty, lookup, insert, values}
use vatbrain.Prelude.Format.{trim_space, decimal}
use vatbrain.Prelude.Text.{Text, codes}
use vatbrain.Float.{Float64, zero_f, one_f, of_nat}
use vatbrain.Models.Common.{Uuid, Time, TaskType, SourceType, memory_pattern, default_trust_level}
use vatbrain.Models.Semantic.{SemanticMemory}
use vatbrain.Store.{EpisodicScanItem}
use vatbrain.Vector.{cosine_similarity, has_magnitude}
use vatbrain.Core.Extractor.Draft.{LlmClient}

pub record PatternCluster (W : Type 0) : Type 0 where
  pub project_id : String
  pub task_type : TaskType
  pub episodics : List (EpisodicScanItem W)

or_else : Option Text → Text → Text
or_else none t = t
or_else (some s) t = s

module _ {W : Type 0} where
  with_item : EpisodicScanItem W → Option (PatternCluster W) → PatternCluster W
  with_item ep none = record {
    project_id = ep.project_id;
    task_type = ep.task_type;
    episodics = ep ∷ [];
  }
  with_item ep (some c) = record c { episodics = c.episodics ++ ep ∷ [] }

  pattern_key : EpisodicScanItem W → String
  pattern_key ep = str_append ep.project_id (str_append "|" ep.task_type)

  pattern_loop :
      Dict String (PatternCluster W) → List (EpisodicScanItem W) → Dict String (PatternCluster W)
  unfolding with_item pattern_key
  pattern_loop groups [] = groups
  pattern_loop groups (ep ∷ eps) =
      let key = pattern_key ep in
      pattern_loop (insert key (with_item ep (lookup key groups)) groups) eps

  unfoldable pub cluster_by_pattern : List (EpisodicScanItem W) → ℕ → List (PatternCluster W)
  unfolding pattern_loop
  cluster_by_pattern eps min =
      keep (λ (c : PatternCluster W). leb min (length c.episodics))
        (values (pattern_loop empty eps))

  bullets : List (EpisodicScanItem W) → Text
  bullets [] = []
  bullets (ep ∷ []) = codes "- " ++ ep.summary
  bullets (ep ∷ f ∷ eps) = codes "- " ++ ep.summary ++ 10 ∷ bullets (f ∷ eps)

  numbered : ℕ → List (EpisodicScanItem W) → Text
  numbered i [] = []
  numbered i (ep ∷ eps) =
      codes "[" ++ decimal i ++ codes "] " ++ ep.summary ++ 10 ∷ numbered (suc i) eps

  concatenated : PatternCluster W → Text
  unfolding bullets
  concatenated cl =
      codes "Pattern in "
      ++ codes cl.project_id
      ++ codes "/"
      ++ codes cl.task_type
      ++ codes ":\n"
      ++ bullets cl.episodics

  rule_prompt : PatternCluster W → Text
  unfolding numbered
  rule_prompt cl =
      codes "Project: "
      ++ codes cl.project_id
      ++ codes " | TaskType: "
      ++ codes cl.task_type
      ++ codes "\n\nMemories:\n"
      ++ numbered 0 cl.episodics

  unfoldable pub extract_rule : Option LlmClient → PatternCluster W → Text
  unfolding concatenated rule_prompt or_else
  extract_rule none cl = concatenated cl
  extract_rule (some llm) cl =
      or_else
        (llm
          (codes
            "You are a knowledge extraction engine. Given a set of episodic memories about the same project and task type, extract a concise, reusable rule or pattern. Output only the rule text, no markdown formatting.")
          (rule_prompt cl))
        (concatenated cl)

module _ {W : Type 0} ⦃d : Float64 W⦄ where
  -- a score of the model, if it is one from 0 to 1
  valid_score : Option W → Option W
  valid_score none = none
  valid_score (some score) = if d.le zero_f score && d.le score one_f then some score else none

  scored_answer : (Text → Option W) → Option Text → Option W
  unfolding valid_score
  scored_answer scan none = none
  scored_answer scan (some resp) = valid_score (scan (trim_space resp))

  judge_prompt : Text → ℕ → PatternCluster W → Text
  unfolding numbered
  judge_prompt rule size cl =
      codes "Rule: "
      ++ rule
      ++ codes "\n\nEpisodic memories:\n"
      ++ numbered 0 (take size cl.episodics)

  -- the answer of the model, where it gives a valid score
  judged : (Text → Option W) → LlmClient → PatternCluster W → Option W
  unfolding scored_answer judge_prompt
  judged scan llm cl =
      let size = if ltb 20 (length cl.episodics) then 20 else length cl.episodics in
      scored_answer scan (
        llm
          (codes
            "You are a rule validator. Given a candidate rule and a set of episodic memories, rate how well the rule describes the pattern on a scale from 0.0 to 1.0. Output ONLY the numeric score.")
          (judge_prompt (extract_rule (some llm) cl) size cl))

  -- the similarities to the rule, added up and counted
  add_compared : List W → Option (List W) → W × ℕ → W × ℕ
  add_compared rule none t = t
  add_compared rule (some v) (total, n) =
      if has_magnitude v then (d.add total (cosine_similarity rule v), n + 1) else (total, n)

  compared : (Text → Option (List W)) → List W → W × ℕ → List (EpisodicScanItem W) → W × ℕ
  unfolding add_compared
  compared embed rule t [] = t
  compared embed rule t (ep ∷ eps) =
      compared embed rule (add_compared rule (embed ep.summary) t) eps

  average_of : W × ℕ → W
  average_of (total, n) = if ltb 0 n then d.div total (of_nat n) else d.ratio 1 2

  by_rule_embedding : (Text → Option (List W)) → PatternCluster W → Option (List W) → W
  unfolding compared average_of
  by_rule_embedding embed cl none = d.ratio 1 2
  by_rule_embedding embed cl (some rule) =
      if has_magnitude rule
      then average_of (compared embed rule (zero_f, 0) cl.episodics)
      else d.ratio 1 2

  -- the backtest without an answer of a model
  by_embedding : Option LlmClient → Option (Text → Option (List W)) → PatternCluster W → W
  unfolding by_rule_embedding
  by_embedding llm none cl = d.ratio 1 2
  by_embedding llm (some embed) cl = by_rule_embedding embed cl (embed (extract_rule llm cl))

  or_embedding : Option W → W → W
  or_embedding none w = w
  or_embedding (some score) w = score

  unfoldable pub backtest :
      (Text → Option W) → Option LlmClient → Option (Text → Option (List W)) → PatternCluster W → W
  unfolding judged by_embedding or_embedding
  backtest scan none emb cl = by_embedding none emb cl
  backtest scan (some llm) emb cl =
      if ltb (length cl.episodics) 3
      then zero_f
      else or_embedding (judged scan llm cl) (by_embedding (some llm) emb cl)

  -- the running average of the accuracies, the new one included
  unfoldable pub running_average : W → ℕ → W → W
  running_average average n accuracy =
      if ltb 1 n
      then d.div (d.add (d.mul average (of_nat (n - 1))) accuracy) (of_nat n)
      else accuracy

  unfoldable pub rule_memory : Uuid → Uuid → Time → PatternCluster W → Text → W → SemanticMemory W
  rule_memory run id now cl content accuracy = record {
    id = id;
    type = memory_pattern;
    content = content;
    source_type = SourceType.inferred;
    trust_level = default_trust_level;
    weight = one_f;
    effective_frequency = one_f;
    created_at = now;
    last_accessed_at = none;
    obsoleted_at = none;
    entity_group =
        str_append "consolidation:" (str_append cl.project_id (str_append ":" cl.task_type));
    consolidation_run_id = some run;
    backtest_accuracy = accuracy;
    source_episodic_ids = map (λ (ep : EpisodicScanItem W). ep.id) cl.episodics;
    surprise_score = zero_f;
  }
