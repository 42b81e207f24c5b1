-- ===== src/Tests/Samples.antt =====
-- A pitfall and a store that holds it, in thousandths.
use vatbrain.Prelude.{true, false, Option, some, none, [], nat_eq}
use vatbrain.Prelude.Dict.{empty, insert}
use vatbrain.Prelude.Int.{pos}
use vatbrain.Prelude.Text.{codes}
use vatbrain.Float.Fixed.{Fixed}
use vatbrain.Models.Common.{Uuid, Time, SourceType}
use vatbrain.Models.Episodic.{EpisodicMemory}
use vatbrain.Store.{EpisodicSearchRequest}
use vatbrain.Models.Pitfall.{PitfallMemory, PitfallStatus}
use vatbrain.Store.Memory.State.{Store, new_store}

abbrev pub sample_pitfall : PitfallMemory Fixed
sample_pitfall = record {
  id = 7;
  entity_id = "func:NewRedisPool";
  entity_type = "FUNCTION";
  project_id = "vatbrain";
  language = "go";
  signature = codes "pool exhausted";
  signature_embedding_id = "";
  root_cause_category = "RESOURCE";
  fix_strategy = codes "close the connections";
  was_user_corrected = false;
  occurrence_count = 3;
  last_occurred_at = some 100;
  source_type = SourceType.debug;
  trust_level = 4;
  weight = some (pos 900);
  created_at = 10;
  updated_at = 100;
  obsoleted_at = none;
  source_episodic_ids = [];
  status = PitfallStatus.confirmed;
  times_shown = 4;
  times_suppressed = 0;
  times_adopted = 1;
  protection_level = 3;
}

abbrev pub one_pitfall : Store Fixed
one_pitfall = record new_store { pitfalls = insert 7 sample_pitfall empty }

-- A memory created and last accessed at the given times.
abbrev pub memory : Uuid → Time → Option Time → EpisodicMemory Fixed
memory id created accessed = record {
  id = id;
  project_id = "vatbrain";
  language = "go";
  task_type = "debug";
  summary = codes "the pool leaks";
  source_type = SourceType.debug;
  trust_level = 4;
  weight = some (pos 1000);
  effective_frequency = some (pos 1000);
  created_at = created;
  last_accessed_at = accessed;
  obsoleted_at = none;
  entity_group = "func:NewRedisPool";
  embedding_id = "";
  context_vector = [];
  full_snapshot_uri = "";
  is_correction = false;
  surprise_score = some (pos 0);
  occurred_at = 0;
}

abbrev pub two_memories : Store Fixed
two_memories = record new_store {
  episodics = insert 1 (memory 1 10 none) (insert 2 (memory 2 20 none) empty);
}

-- The newest memory of the project.
abbrev pub sample_request : EpisodicSearchRequest Fixed
sample_request = record {
  project_id = "vatbrain";
  language = "";
  task_type = "";
  min_weight = some (pos 0);
  limit = pos 1;
  include_obsolete = false;
  embedding = none;
  surprise_boost = some (pos 0);
  occurred_after = 0;
  occurred_before = 0;
  sort_by_occurred_at = true;
  query = [];
  rrf_k = pos 0;
}
