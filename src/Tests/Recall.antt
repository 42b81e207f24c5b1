-- ===== src/Tests/Recall.antt =====
-- The theorems on the recall of internal/provider, applied to a store with a pitfall and a memory.
use vatbrain.Prelude.{
  ◌≤◌, ◌≡◌, refl, false, List, [], ◌∷◌, Option, some, none, if◌then◌else◌, length, All, nat_eq,
  string_eq,
}
use vatbrain.Prelude.Dict.{insert, empty, lookup}
use vatbrain.Prelude.Format.{is_empty}
use vatbrain.Prelude.Int.{pos}
use vatbrain.Prelude.Result.{ok}
use vatbrain.Prelude.Text.{Text, codes}
use vatbrain.Float.Fixed.{Fixed, fixed_float}
use vatbrain.Models.Common.{Uuid, Time}
use vatbrain.Store.{EpisodicScanItem}
use vatbrain.Store.Memory.Backend.{memory_store}
use vatbrain.Store.Memory.State.{Store}
use vatbrain.Provider.Derive.{TimeWindow}
use vatbrain.Provider.Recall.{
  WarmJob, warm_text, keep_prefetch, build_prefetch, handle_queue_prefetch, handle_prefetch,
  queued_is_served, text_or, store_or,
}
use vatbrain.Provider.Retrieve.{lexical_recall, limit_or, pitfall_request, retrieve_pitfalls}
use vatbrain.Provider.Retrieve.Kept.{
  IsRecalled, lexical_recall-IsRecalled, Surfaces, retrieve_pitfalls-Surfaces,
}
use vatbrain.Provider.Server.{Server, SessionState, session_for}
use vatbrain.Tests.Samples.{one_pitfall}

abbrev item : Uuid → Text → EpisodicScanItem Fixed
item id summary = record {
  id = id;
  summary = summary;
  task_type = "debug";
  project_id = "vatbrain";
  language = "go";
  entity_group = "";
  entity_id = "";
  weight = some (pos 1000);
  last_accessed = 100;
  occurred_at = 90;
}

abbrev scanned : List (EpisodicScanItem Fixed)
scanned = item 1 (codes "pool exhausted") ∷ item 2 (codes "dark mode") ∷ []

abbrev window : TimeWindow
window = record { after = 50; before = 200; sort_newest = false }

lexical_recall-IsRecalled_example :
    let ms = lexical_recall "vatbrain" window (codes "pool") 5 scanned in
    (length ms ≤ 5) × All (IsRecalled "vatbrain" window (codes "pool") scanned) ms
lexical_recall-IsRecalled_example =
    lexical_recall-IsRecalled "vatbrain" window (codes "pool") 5 scanned

abbrev no_embedder : Text → Option (List Fixed)
no_embedder t = none

retrieve_pitfalls-Surfaces_example :
    let (r, s') =
      (memory_store {W = Fixed}).search_pitfall (pitfall_request "vatbrain") one_pitfall in
    let (q, t) =
      retrieve_pitfalls memory_store no_embedder "vatbrain" (codes "pool") (pos 0) one_pitfall in
    Surfaces (codes "pool") (limit_or 3 (pos 0)) r q × (t ≡ s')
retrieve_pitfalls-Surfaces_example =
    retrieve_pitfalls-Surfaces memory_store no_embedder "vatbrain" (codes "pool") (pos 0)
      one_pitfall

abbrev day : Time → Text
day t = codes "2026-01-01"

abbrev session : SessionState
session = record { project_id = "vatbrain"; agent_context = "" }

abbrev server : Server (Store Fixed)
server = record {
  store = one_pitfall;
  working_mem = none;
  sessions = insert "s" session empty;
  prefetch_cache = empty;
  memory_write = empty;
}

started : session_for "s" server ≡ some session
unfolding session_for lookup insert
started = refl

abbrev job : WarmJob
job = record { session_id = "s"; project_id = "vatbrain"; query = codes "pool" }

queued_is_served_example :
    let other = codes "other" in
    let text = (warm_text memory_store no_embedder day 100 job server).0 in
    let kept = if is_empty text then lookup "s" server.prefetch_cache else some text in
    let (early, searched_early) =
      build_prefetch memory_store no_embedder day 200 "vatbrain" other one_pitfall in
    let (cold, searched) =
      build_prefetch memory_store no_embedder day 200 "vatbrain" other one_pitfall in
    let (r, s₁) = handle_prefetch memory_store no_embedder day 200 "s" other server in
    let (r', s₂) =
      handle_prefetch memory_store no_embedder day 200 "s" other (keep_prefetch job text server) in
    (handle_queue_prefetch "s" (codes "pool") server ≡ (ok job, server))
    × (r ≡ ok (text_or early (lookup "s" server.prefetch_cache)))
    × (lookup "s" s₁.prefetch_cache ≡ none)
    × (r' ≡ ok (text_or cold kept))
    × (s₂.store ≡ store_or searched one_pitfall kept)
    × (lookup "s" s₂.prefetch_cache ≡ none)
    × (s₂.sessions ≡ server.sessions)
queued_is_served_example =
    queued_is_served memory_store no_embedder day 100 200 "s" (codes "pool") (codes "other") session
      server server server started started
