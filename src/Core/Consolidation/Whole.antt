-- ===== src/Core/Consolidation/Whole.antt =====
-- What a run of internal/core/consolidation_engine.go reports and leaves in the in-memory store.
use vatbrain.Prelude.{◌+◌, ◌≤◌, ◌≡◌, List, Option, none, nat_eq}
use vatbrain.Prelude.Text.{Text}
use vatbrain.Float.{Float64}
use vatbrain.Models.Common.{Uuid}
use vatbrain.Store.Memory.State.{Store}
use vatbrain.Core.Consolidation.{ConsolidationEngine, ConsolidationRunResult, Readings}
use vatbrain.Core.Consolidation.Gated.{RulesTraced}
use vatbrain.Core.Consolidation.Reported.{Keeps, PitfallsTraced}
use vatbrain.Core.Extractor.Parse.{Decoder}

module _ {W : Type 0} ⦃d : Float64 W⦄ (engine : ConsolidationEngine W) (scan : Text → Option W)
    (decoder : Decoder W) (emb : Option (Text → Option (List W))) (run : Uuid)
    (readings : Readings) where
  -- The report of a run from `s` to `t`.
  pub record Reports (s : Store W) (r : ConsolidationRunResult W) (t : Store W) : Type 0 where
    pub no_error : (r.rules_error ≡ none) × (r.pitfall_error ≡ none)
    pub rules_counted : r.rules_persisted ≤ r.candidate_rules_found
    pub pitfalls_counted : r.pitfalls_persisted + r.pitfalls_merged ≡ r.pitfalls_extracted
    pub kept : Keeps run readings.edge_time s t
    pub rules_traced : RulesTraced run readings.edge_time engine s t
    pub pitfalls_traced : PitfallsTraced run readings.edge_time s t
