-- ===== src/Tests/Rules.antt =====
-- The theorems on rule conflicts and retrieval of internal/core, applied to sample data.
use vatbrain.Prelude.{
  ◌≡◌, refl, false, some, none, [], ◌∷◌, All, ℕ, arith, nat_eq, string_eq, if◌then◌else◌,
}
use vatbrain.Prelude.Dict.{empty, insert, lookup}
use vatbrain.Prelude.Int.{pos}
use vatbrain.Prelude.Result.{ok}
use vatbrain.Prelude.Text.{Text, codes}
use vatbrain.Float.{zero_f}
use vatbrain.Float.Fixed.{Fixed, fixed_float}
use vatbrain.Models.Common.{Uuid, SourceType}
use vatbrain.Models.Conflict.{RuleConflict, ConflictStatus, ConflictBasis}
use vatbrain.Models.Semantic.{SemanticMemory}
use vatbrain.Store.{Property}
use vatbrain.Store.Memory.Backend.{memory_store, memory_conflicts}
use vatbrain.Store.Memory.State.{Store, new_store}
use vatbrain.Core.Conflict.{default_conflict_detector, detect, resolve}
use vatbrain.Core.Conflict.Detected.{IsConflict, detect-IsConflict}
use vatbrain.Core.Conflict.Resolved.{resolve_retires_lower}
use vatbrain.Core.Retrieval.{RetrieveRequest, SearchContext, retrieve}
use vatbrain.Core.Retrieval.Sound.{Passes, IsScored, retrieve-Passes}
use vatbrain.Tests.Samples.{memory}

abbrev rule : Uuid → ℕ → Text → SemanticMemory Fixed
rule id trust content = record {
  id = id;
  type = "RULE";
  content = content;
  source_type = SourceType.debug;
  trust_level = trust;
  weight = some (pos 1000);
  effective_frequency = some (pos 1000);
  created_at = 10;
  last_accessed_at = none;
  obsoleted_at = none;
  entity_group = "vatbrain";
  consolidation_run_id = none;
  backtest_accuracy = some (pos 800);
  source_episodic_ids = [];
  surprise_score = some (pos 0);
}

abbrev for : SemanticMemory Fixed
for = rule 1 5 (codes "always use the yaml library")

abbrev against : SemanticMemory Fixed
against = rule 2 3 (codes "never use the yaml library")

abbrev two_rules : Store Fixed
two_rules = record new_store { semantics = insert 1 for (insert 2 against empty) }

abbrev no_text : SemanticMemory Fixed → SemanticMemory Fixed → Text
no_text a b = []

abbrev verdict : ℕ → ℕ → Text
verdict a b = []

detect-IsConflict_example :
    All
      (IsConflict no_text (for ∷ against ∷ []) (
        if fixed_float.le (some (pos 250)) zero_f
        then fixed_float.ratio 25 100
        else some (pos 250)))
      (detect no_text default_conflict_detector (for ∷ against ∷ []))
detect-IsConflict_example = detect-IsConflict no_text default_conflict_detector (for ∷ against ∷ [])

abbrev open_conflict : RuleConflict
open_conflict = record {
  id = 9;
  rule_a_id = 1;
  rule_b_id = 2;
  entity_group = "vatbrain";
  basis = ConflictBasis.polarity;
  status = ConflictStatus.pending;
  resolution = none;
  reason = [];
  created_at = 20;
  resolved_at = none;
}

abbrev in_conflict : Store Fixed
in_conflict = record two_rules { rule_conflicts = insert 9 open_conflict empty }

resolve_retires_lower_example :
    let settled =
      resolve memory_store verdict
        (some memory_conflicts)
        open_conflict
        for
        against
        30
        in_conflict in
    let t = settled.1 in
    (resolve memory_store verdict (some memory_conflicts) open_conflict against for 30 in_conflict
      ≡ settled)
    × (settled.0
        ≡ ok (record { status = ConflictStatus.auto_resolved; winner_id = 1; loser_id = 2 }))
    × (lookup 2 t.semantics ≡ some (record against { obsoleted_at = some 30 }))
    × (lookup 1 t.semantics ≡ lookup 1 in_conflict.semantics)
    × (lookup 9 t.rule_conflicts
        ≡ some (record open_conflict {
          status = ConflictStatus.auto_resolved;
          resolution = some 1;
          reason = [];
          resolved_at = some 30;
        }))
    × (t.edges
        ≡ record {
          from_id = 1;
          to_id = 2;
          edge_type = "CONFLICTS_WITH";
          properties = ("resolution", Property.text "winner") ∷ [];
          created_at = 30;
        }
          ∷ [])
unfolding lookup insert
resolve_retires_lower_example =
    resolve_retires_lower verdict open_conflict for against 30 in_conflict 1 (omega arith) refl refl
      (λ e. ground arith)

abbrev sample_context : SearchContext
sample_context = record {
  project_id = "vatbrain";
  language = "go";
  task_type = "debug";
  entity_id = "";
  active_files = [];
  session_id = "";
}

abbrev sample_retrieval : RetrieveRequest Fixed
sample_retrieval = record {
  query = codes "pool";
  query_embedding = some (pos 1000) ∷ [];
  context = sample_context;
  episodic_candidates = memory 1 10 none ∷ memory 2 20 none ∷ [];
  candidate_embeddings = (1, some (pos 1000) ∷ []) ∷ (3, some (pos 500) ∷ []) ∷ [];
  top_k = pos 5;
  include_dormant = false;
  cooling_threshold = some (pos 10);
}

retrieve-Passes_example :
    All
      (λ r. Passes sample_retrieval r.memory_id × IsScored sample_retrieval r)
      (retrieve (pos 500) sample_retrieval).results
retrieve-Passes_example = retrieve-Passes (pos 500) sample_retrieval
