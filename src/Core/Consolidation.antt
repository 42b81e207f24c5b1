-- ===== src/Core/Consolidation.antt =====
-- internal/core/consolidation_engine.go: rules and pitfalls from the memories of a scan. The two lines
-- of a run are goroutines; the model runs the rules first, and the pitfalls on the store that they
-- leave. The list `order` of the source is the order of a dictionary here. The client of a language
-- model answers two prompts, and the score in its answer, read by `Sscanf`, is a parameter.
pub mod Rules
pub mod Reported
pub mod Gated
pub mod Whole
pub mod Failing
use vatbrain.Prelude.{
  ℕ, suc, ◌+◌, ◌*◌, ◌-◌, Bool, true, false, not, ◌&&◌, String, string_eq, ◌==◌, List, [], ◌∷◌, ◌++◌,
  Option, none, some, keep, length, take, map, ltb, leb, if◌then◌else◌,
}
use vatbrain.Prelude.Dict.{Dict, empty, lookup, insert, values}
use vatbrain.Prelude.Format.{is_empty, trim_space, decimal}
use vatbrain.Prelude.Int.{pos}
use vatbrain.Prelude.Result.{Action, Done, Result, Error, ok, err, pure, store_failed, ◌>>=◌, ◌>>◌}
use vatbrain.Prelude.Text.{Text, codes}
use vatbrain.Float.{Float64, zero_f, one_f, of_nat}
use vatbrain.Models.Common.{Uuid, Time, TaskType, SourceType, memory_pattern, default_trust_level}
use vatbrain.Models.Pitfall.{PitfallMemory}
use vatbrain.Models.Semantic.{SemanticMemory}
use vatbrain.Store.{MemoryStore, EpisodicScanItem, Property}
use vatbrain.Vector.{cosine_similarity, has_magnitude}
use vatbrain.Core.Extractor.Draft.{LlmClient}
use vatbrain.Core.Extractor.Parse.{Decoder}
use vatbrain.Core.Consolidation.Rules.{
  PatternCluster, cluster_by_pattern, extract_rule, backtest, running_average, rule_memory,
}
use vatbrain.Core.Extractor.Pipeline.{PitfallExtractor, ExtractResult, extract}

-- The hours to scan are a span in nanoseconds.
pub record ConsolidationEngine (W : Type 0) : Type 0 where
  pub span_to_scan : ℕ
  pub min_cluster_size : ℕ
  pub accuracy_threshold : W
  pub llm_client : Option LlmClient
  pub pitfall_extractor : Option (PitfallExtractor W)

-- 24 hours, clusters of three, and the threshold 0.7
unfoldable pub default_consolidation_engine : {W : Type 0} ⦃d : Float64 W⦄ → ConsolidationEngine W
default_consolidation_engine ⦃d = d⦄ = record {
  span_to_scan = 24 * 3600 * 1000000000;
  min_cluster_size = 3;
  accuracy_threshold = d.ratio 7 10;
  llm_client = none;
  pitfall_extractor = none;
}

pub record ConsolidationRunResult (W : Type 0) : Type 0 where
  pub run_id : Uuid
  pub started_at : Time
  pub completed_at : Option Time
  pub episodics_scanned : ℕ
  pub candidate_rules_found : ℕ
  pub rules_persisted : ℕ
  pub average_accuracy : W
  pub pitfalls_extracted : ℕ
  pub pitfalls_merged : ℕ
  pub pitfalls_persisted : ℕ
  pub rules_error : Option Error
  pub pitfall_error : Option Error

-- `if err != nil { return }`, on a store
abbrev pub proceed : {R S : Type 0} → Result Done × S → R → (S → R × S) → R × S
proceed (ok _, s) stop go = go s
proceed (err e, s) stop go = (stop, s)

-- what the rule line has done
pub record RuleRun (W : Type 0) : Type 0 where
  pub rules_persisted : ℕ
  pub average_accuracy : W
  pub error : Option Error

-- what the pitfall line has done
pub record PitfallRun : Type 0 where
  pub pitfalls_persisted : ℕ
  pub error : Option Error

module _ {W S : Type 0} ⦃d : Float64 W⦄ (store : MemoryStore W S) (run : Uuid)
    (stamp : Uuid → Uuid → Time) where
  -- the DERIVED_FROM edges of a rule or a pitfall
  unfoldable pub derived_edges : Uuid → List Uuid → Action S Done
  derived_edges id [] = pure tt
  derived_edges id (source ∷ sources) =
      store.create_edge id source "DERIVED_FROM" (("run_id", Property.uuid run) ∷ [])
        (stamp id source)
      >> derived_edges id sources

  unfoldable pub persist_rule : SemanticMemory W → Action S Done
  persist_rule sem = store.write_semantic sem >> derived_edges sem.id sem.source_episodic_ids

  unfoldable pub persist_pitfall : PitfallMemory W → Action S Done
  persist_pitfall p = store.write_pitfall p >> derived_edges p.id p.source_episodic_ids

  module _ (engine : ConsolidationEngine W) (scan : Text → Option W) (fresh : ℕ → Uuid)
      (clock : ℕ → Time) (emb : Option (Text → Option (List W))) where
    -- The loop over the clusters; an error ends it.
    unfoldable pub rule_loop : List (PatternCluster W) → RuleRun W → S → RuleRun W × S
    rule_loop [] r s = (r, s)
    rule_loop (cl ∷ cls) r s =
        let n = r.rules_persisted in
        let accuracy = backtest scan engine.llm_client emb cl in
        let sem =
          rule_memory run (fresh n) (clock n) cl (extract_rule engine.llm_client cl) accuracy in
        elim (d.lt accuracy engine.accuracy_threshold) [
          | true ↦ rule_loop cls r s
          | false ↦
              proceed (persist_rule sem s) (record r { error = some store_failed })
                (λ s'.
                  rule_loop cls
                    (record r {
                      rules_persisted = n + 1;
                      average_accuracy = running_average r.average_accuracy (n + 1) accuracy;
                    })
                    s')
        ]

  unfoldable pub pitfall_loop : List (PitfallMemory W) → PitfallRun → S → PitfallRun × S
  pitfall_loop [] r s = (r, s)
  pitfall_loop (p ∷ ps) r s =
      proceed (persist_pitfall p s) (record r { error = some store_failed })
        (λ s'. pitfall_loop ps (record r { pitfalls_persisted = r.pitfalls_persisted + 1 }) s')

unfoldable pub no_rules : {W : Type 0} ⦃d : Float64 W⦄ → RuleRun W
no_rules = record { rules_persisted = 0; average_accuracy = zero_f; error = none }

unfoldable pub no_pitfalls : PitfallRun
no_pitfalls = record { pitfalls_persisted = 0; error = none }

-- What a run reads from outside: the clock at its start and its end, the identifiers and the times of
-- the rules and of the pitfalls, and the times of the edges.
pub record Readings : Type 0 where
  pub started : Time
  pub completed : Time
  pub rule_id : ℕ → Uuid
  pub rule_time : ℕ → Time
  pub pitfall_id : ℕ → Uuid
  pub pitfall_time : ℕ → Time
  pub edge_time : Uuid → Uuid → Time

module _ {W S : Type 0} ⦃d : Float64 W⦄ (store : MemoryStore W S) (engine : ConsolidationEngine W)
    (scan : Text → Option W) (decoder : Decoder W) (emb : Option (Text → Option (List W)))
    (run : Uuid) (readings : Readings) where
  -- `Extract`, or nothing where there is no extractor
  unfoldable pub extracted : List (EpisodicScanItem W) → ExtractResult W
  extracted eps = elim engine.pitfall_extractor [
    | none ↦ record { pitfalls = []; candidates_found = 0; merged = 0 }
    | some pe ↦ extract pe decoder readings.pitfall_id readings.pitfall_time eps
  ]

  unfoldable empty_result : ConsolidationRunResult W
  empty_result = record {
    run_id = run;
    started_at = readings.started;
    completed_at = some readings.completed;
    episodics_scanned = 0;
    candidate_rules_found = 0;
    rules_persisted = 0;
    average_accuracy = zero_f;
    pitfalls_extracted = 0;
    pitfalls_merged = 0;
    pitfalls_persisted = 0;
    rules_error = none;
    pitfall_error = none;
  }

  -- Both lines, on the memories of the scan. What the pitfall line adds to `CandidateRulesFound` is
  -- overwritten by the number of the rule line.
  unfoldable pub both_lines : List (EpisodicScanItem W) → S → ConsolidationRunResult W × S
  unfolding empty_result extracted
  both_lines eps s =
      let clusters = cluster_by_pattern eps engine.min_cluster_size in
      let (rules, s₁) =
        rule_loop store run readings.edge_time engine scan readings.rule_id readings.rule_time emb
          clusters no_rules s in
      let found = extracted eps in
      let (pits, s₂) = pitfall_loop store run readings.edge_time found.pitfalls no_pitfalls s₁ in
      (
        record empty_result {
          episodics_scanned = length eps;
          candidate_rules_found = length clusters;
          rules_persisted = rules.rules_persisted;
          average_accuracy = rules.average_accuracy;
          pitfalls_extracted = length found.pitfalls + found.merged;
          pitfalls_merged = found.merged;
          pitfalls_persisted = pits.pitfalls_persisted;
          rules_error = rules.error;
          pitfall_error = pits.error;
        },
        s₂,
      )

  unfoldable after_scan :
      Result (List (EpisodicScanItem W)) → S → Result (ConsolidationRunResult W) × S
  unfolding both_lines empty_result
  after_scan (err e) s = (err store_failed, s)
  after_scan (ok []) s = (ok empty_result, s)
  after_scan (ok (ep ∷ eps)) s = let (r, s') = both_lines (ep ∷ eps) s in (ok r, s')

  -- `Run`
  unfoldable pub run_consolidation : Action S (ConsolidationRunResult W)
  unfolding after_scan
  run_consolidation s =
      let since = readings.started - engine.span_to_scan in
      let (r, s') = store.scan_recent since (pos 1000) s in after_scan r s'
