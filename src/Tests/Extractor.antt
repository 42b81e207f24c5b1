-- ===== src/Tests/Extractor.antt =====
-- The theorems on internal/core/pitfall_extractor.go and internal/core/consolidation_engine.go, applied
-- to three memories of a scan.
use vatbrain.Prelude.{
  String, ◌≡◌, ◌≤◌, ◌+◌, List, false, [], ◌∷◌, Option, some, none, length, map, All, arith, nat_eq,
}
use vatbrain.Prelude.Dict.{insert, empty}
use vatbrain.Prelude.Int.{pos}
use vatbrain.Prelude.Result.{err, store_failed}
use vatbrain.Prelude.Text.{Text, codes}
use vatbrain.Float.Fixed.{Fixed, fixed_float, Fixed-IsOrdered}
use vatbrain.Models.Common.{Uuid}
use vatbrain.Models.Pitfall.{PitfallMemory}
use vatbrain.Store.{MemoryStore, EpisodicScanItem}
use vatbrain.Store.Memory.Backend.{memory_store}
use vatbrain.Store.Memory.State.{Store, new_store}
use vatbrain.Core.Consolidation.{ConsolidationEngine, Readings}
use vatbrain.Core.Extractor.Cluster.{Member, items_of, members, sub_cluster, threshold_for}
use vatbrain.Core.Extractor.Cluster.Settled.{IsSettled, sub_cluster-IsSettled}
use vatbrain.Core.Extractor.Merge.{deduplicate_pitfalls}
use vatbrain.Core.Extractor.Merge.Kept.{Accounts, deduplicate_pitfalls-Accounts}
use vatbrain.Core.Extractor.Parse.{Decoder}
use vatbrain.Core.Extractor.Pipeline.{PitfallExtractor, extract}
use vatbrain.Core.Extractor.Pipeline.Grounded.{IsGrounded}
use vatbrain.Core.Extractor.Pipeline.Accounted.{extract-IsGrounded}
use vatbrain.Tests.Samples.{sample_pitfall, memory}

abbrev item : Uuid → String → EpisodicScanItem Fixed
item id entity = record {
  id = id;
  summary = codes "the pool leaks connections under load";
  task_type = "debug";
  project_id = "vatbrain";
  language = "go";
  entity_group = "";
  entity_id = entity;
  weight = some (pos 1000);
  last_accessed = 100;
  occurred_at = 90;
}

abbrev items : List (EpisodicScanItem Fixed)
items = item 1 "func:NewRedisPool" ∷ item 2 "func:NewRedisPool" ∷ item 3 "func:Close" ∷ []

abbrev one_signal : Text → Option (List Fixed)
one_signal t = some (some (pos 1000) ∷ [])

sub_cluster-IsSettled_example :
    let ms = members one_signal items in
    (cs : List (List (Member Fixed))) × (sub_cluster one_signal (some (pos 700)) items
      ≡ map items_of cs)
    × IsSettled (threshold_for (some (pos 700)) ms) ms cs
sub_cluster-IsSettled_example =
    sub_cluster-IsSettled Fixed-IsOrdered one_signal (some (pos 700)) items (omega arith)

abbrev two_pitfalls : List (PitfallMemory Fixed)
two_pitfalls = sample_pitfall ∷ record sample_pitfall { id = 8; occurrence_count = 5 } ∷ []

deduplicate_pitfalls-Accounts_example :
    (length (deduplicate_pitfalls one_signal (some (pos 850)) two_pitfalls) ≤ length two_pitfalls)
    × Accounts two_pitfalls (deduplicate_pitfalls one_signal (some (pos 850)) two_pitfalls)
deduplicate_pitfalls-Accounts_example =
    deduplicate_pitfalls-Accounts one_signal (some (pos 850)) two_pitfalls

abbrev no_decoder : Decoder Fixed
no_decoder = record { array = λ t. none; object = λ t out. (out, false) }

abbrev extractor : PitfallExtractor Fixed
extractor = record {
  min_cluster_size = 2;
  merge_threshold = some (pos 700);
  dedup_threshold = some (pos 850);
  embedder = one_signal;
  llm_client = none;
}

extract-IsGrounded_example :
    let r = extract extractor no_decoder (λ n. 100 + n) (λ n. 200 + n) items in
    (length r.pitfalls + r.merged ≤ r.candidates_found) × All (IsGrounded items 2) r.pitfalls
extract-IsGrounded_example =
    extract-IsGrounded extractor no_decoder (λ n. 100 + n) (λ n. 200 + n) items

abbrev engine : ConsolidationEngine Fixed
engine = record {
  span_to_scan = 1000;
  min_cluster_size = 2;
  accuracy_threshold = some (pos 700);
  llm_client = none;
  pitfall_extractor = some extractor;
}

abbrev readings : Readings
readings = record {
  started = 1000;
  completed = 1001;
  rule_id = λ n. 300 + n;
  rule_time = λ n. 1000;
  pitfall_id = λ n. 100 + n;
  pitfall_time = λ n. 1000;
  edge_time = λ a b. 1000;
}

abbrev two_memories : Store Fixed
two_memories = record new_store {
  episodics = insert 2 (memory 2 500 none) (insert 1 (memory 1 400 (some 600)) empty);
}

-- a store that refuses every pitfall
abbrev full_store : MemoryStore Fixed (Store Fixed)
full_store = record memory_store { write_pitfall = λ p s. (err store_failed, s) }
