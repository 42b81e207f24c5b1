-- ===== src/Tests/Write.antt =====
-- The theorems on updates and the write path of internal/core, applied to sample data.
use vatbrain.Prelude.{
  ◌≡◌, refl, true, false, none, some, Option, String, List, [], ◌∷◌, string_eq, ℕ, nat_eq,
}
use vatbrain.Prelude.Dict.{empty, insert, lookup}
use vatbrain.Prelude.Int.{pos}
use vatbrain.Prelude.Result.{ok}
use vatbrain.Prelude.Text.{Text, codes}
use vatbrain.Float.Fixed.{Fixed, fixed_float}
use vatbrain.Models.Common.{Uuid, Time}
use vatbrain.Models.Episodic.{EpisodicMemory, effective_occurred_at}
use vatbrain.Store.Memory.Backend.{memory_store}
use vatbrain.Store.Memory.Has.{MemoriesAreKeyed}
use vatbrain.Store.Memory.State.{Store, new_store}
use vatbrain.Core.Decay.{default_weight_decay_engine}
use vatbrain.Core.Gate.{WriteEvent, default_significance_gate, evaluate}
use vatbrain.Core.Reconsolidation.{
  CorrectionDetail, ReconsolidationResult, default_reconsolidation_engine, process_episodic,
  process_semantic, amend_semantic,
}
use vatbrain.Core.Reconsolidation.Stale.{process_episodic-access}
use vatbrain.Core.Reconsolidation.Traced.{
  Outcome, raised, passed_over, refused, ids, Follows, process_semantic-accounts,
}
use vatbrain.Store.{Edge}
use vatbrain.Store.Memory.Edges.{get_edges}
use vatbrain.Core.Surprise.{surprise_score}
use vatbrain.Core.Update.{default_update_tracker, uncovered, detect_update}
use vatbrain.Core.Conflict.Directive.{
  detect_polarity, same_polarity, bigram_dice, char_bigram_set, common, add_once,
}
use vatbrain.Prelude.Format.{contains}
use vatbrain.Store.Memory.Search.{search_episodic}
use vatbrain.Core.Write.{
  candidates_request, WriteDeps, PreparedWrite, prepare_write_event, tracker_or_default, draft,
}
use vatbrain.Core.Write.Steps.{write_memory}
use vatbrain.Core.Write.Accepted.{Accepts, write_memory-remembers}
use vatbrain.Tests.Samples.{memory, two_memories}

abbrev explain : EpisodicMemory Fixed → EpisodicMemory Fixed → Fixed → String
explain new old sim = "newer"

two_memories-MemoriesAreKeyed : MemoriesAreKeyed two_memories
unfolding insert
two_memories-MemoriesAreKeyed = record { keyed = (refl, (refl, tt)) }

-- Two memories of the project, of which the second covers the first.
abbrev newer_fact : EpisodicMemory Fixed
newer_fact = record (memory 2 20 none) { summary = codes "the pool is slow" }

abbrev restated : Store Fixed
restated = record new_store { episodics = insert 1 (memory 1 10 none) (insert 2 newer_fact empty) }

-- the second covers the first
covered_fact : uncovered default_update_tracker newer_fact (memory 1 10 none) ≡ false
unfolding uncovered detect_polarity same_polarity bigram_dice effective_occurred_at char_bigram_set
    common add_once contains
covered_fact = refl

abbrev one_vector : Text → Option (List Fixed)
one_vector t = some (some (pos 1000) ∷ [])

abbrev sample_deps : WriteDeps Fixed
sample_deps = record {
  gate = some default_significance_gate;
  pattern_sep = some (some (pos 850));
  weight_decay = some default_weight_decay_engine;
  embedder = one_vector;
  surprise = none;
  skip_link_on_write = false;
  update_tracker = none;
}

abbrev confirmed_event : WriteEvent
confirmed_event = record {
  summary = codes "remember to close the pool";
  user_confirmed = true;
  is_correction = false;
  caused_behavior_change = false;
  subsequent_reference_count = 0;
  occurred_at = 0;
}

abbrev prepared : PreparedWrite Fixed
prepared = record {
  gate = record { should_persist = true; reason = "user_confirmed" };
  surprise = some (pos 0);
  threshold = some (pos 850);
  decay = default_weight_decay_engine;
}

abbrev ticks : ℕ → Time
ticks k = 50

write_memory-remembers_example :
    (candidates : List (EpisodicMemory Fixed)) × (search_episodic
        (candidates_request "vatbrain" (some (pos 1000) ∷ []))
        two_memories
      ≡ (ok candidates, two_memories))
    × Accepts sample_deps explain 5 40 ticks confirmed_event "vatbrain" "go" "" "debug"
        (detect_update explain
          (tracker_or_default sample_deps.update_tracker)
          (draft confirmed_event "" 40)
          candidates)
        (write_memory memory_store sample_deps explain 5 40 ticks confirmed_event "vatbrain" "go" ""
          "debug"
          (record { store = two_memories; working_mem = none }))
unfolding prepare_write_event evaluate surprise_score lookup insert
write_memory-remembers_example =
    write_memory-remembers sample_deps explain 5 40 ticks confirmed_event "vatbrain" "go" "" "debug"
      prepared (some (pos 1000) ∷ []) two_memories none refl refl refl two_memories-MemoriesAreKeyed
      refl

abbrev detail : CorrectionDetail
detail = record { original = codes "a"; corrected_to = codes "b" }

abbrev sample_edge : Edge Fixed
sample_edge = record {
  from_id = 9;
  to_id = 1;
  edge_type = "DERIVED_FROM";
  properties = [];
  created_at = 5;
}

abbrev derived : Store Fixed
derived = record two_memories {
  edges = sample_edge ∷ record sample_edge { to_id = 7 } ∷ sample_edge ∷ [];
}

abbrev sample_edges : List (Edge Fixed)
sample_edges = sample_edge ∷ record sample_edge { to_id = 7 } ∷ sample_edge ∷ []

process_semantic-accounts_example :
    (r : ReconsolidationResult Fixed) × (u : Store Fixed) × (os : List (Outcome × Uuid))
    × (process_semantic memory_store default_reconsolidation_engine detail true 9 derived
        ≡ (ok r, u))
    × Follows memory_store default_reconsolidation_engine
        (amend_semantic memory_store default_reconsolidation_engine detail true)
        (9 ∷ [])
        sample_edges
        os
        derived
        u
    × (r.updated_ids ≡ ids raised os)
    × (r.skipped_ids ≡ ids passed_over os)
    × (r.failed_ids ≡ ids refused os)
unfolding get_edges
process_semantic-accounts_example =
    process_semantic-accounts memory_store default_reconsolidation_engine detail true 9 sample_edges
      derived derived refl refl

process_episodic-access_example :
    let by_user =
      (process_episodic memory_store default_reconsolidation_engine detail true 1 60
        two_memories).1 in
    let inferred =
      (process_episodic memory_store default_reconsolidation_engine detail false 1 60
        two_memories).1 in
    ((a : EpisodicMemory Fixed) × (lookup 1 by_user.episodics ≡ some a)
      × (a.weight ≡ some (pos 1500))
      × (a.last_accessed_at ≡ none))
    × ((b : EpisodicMemory Fixed) × (lookup 1 inferred.episodics ≡ some b)
        × (b.weight ≡ some (pos 1500))
        × (b.last_accessed_at ≡ some 60))
unfolding lookup insert
process_episodic-access_example =
    process_episodic-access default_reconsolidation_engine detail 1 60 two_memories
      (memory 1 10 none) refl refl
