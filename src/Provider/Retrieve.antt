-- ===== src/Provider/Retrieve.antt =====
-- The retrieval of internal/provider/retrieve.go over any store. Scores are sorted as in the rest of the
-- model: `sort.Slice` is an insertion sort, one of the orders that it may give where scores tie.
pub mod Kept
use vatbrain.Prelude.{
  ℕ, ◌+◌, Bool, true, false, not, ◌&&◌, ◌||◌, string_eq, nat_eq, ◌==◌, String, List, [], ◌∷◌, ◌++◌,
  Option, none, some, map, any, length, keep, take, drop, if◌then◌else◌,
}
use vatbrain.Prelude.Format.{contains}
use vatbrain.Prelude.Int.{ℤ, pos, positive, pos_part}
use vatbrain.Prelude.Result.{Action, Result, ok, err, store_failed}
use vatbrain.Prelude.Sort.{sort_by}
use vatbrain.Prelude.Text.{Text, codes}
use vatbrain.Float.{Float64, zero_f}
use vatbrain.Vector.{has_magnitude}
use vatbrain.Models.Common.{Time, is_zero, before, after, SourceType}
use vatbrain.Models.Episodic.{EpisodicMemory, effective_occurred_at}
use vatbrain.Models.Pitfall.{PitfallMemory, injectable}
use vatbrain.Store.{MemoryStore, EpisodicScanItem, EpisodicSearchRequest, PitfallSearchRequest}
use vatbrain.Core.Conflict.Directive.{lower_rune}
use vatbrain.Embedder.Expand.{expand_query, entity_refs, without_at}
use vatbrain.Provider.Condense.{char_bigrams, bigram_overlap, bigram_overlap_from_sets}
use vatbrain.Provider.Derive.{TimeWindow, parse_relative_time}

pub record Scored (W A : Type 0) : Type 0 where
  pub item : A
  pub score : W

-- a limit, or the default where it is not positive
unfoldable pub limit_or : ℕ → ℤ → ℕ
limit_or default limit = if positive limit then pos_part limit else default

module _ {W : Type 0} ⦃d : Float64 W⦄ where
  -- those with a score, the highest first, and as many as the limit has
  unfoldable pub by_score : {A : Type 0} → List (Scored W A) → List (Scored W A)
  by_score xs =
      sort_by (λ a b. d.lt b.score a.score) (keep (λ (x : Scored W _). d.lt zero_f x.score) xs)

  -- the guards of the loop over the scan
  unfoldable pub in_window : String → TimeWindow → EpisodicScanItem W → Bool
  in_window project w item =
      (project == "" || item.project_id == project)
      && (is_zero w.after || not (before item.occurred_at w.after))
      && (is_zero w.before || not (after item.occurred_at w.before))

  -- the memory of a scanned item; the scan has no other fields
  unfoldable pub of_item : EpisodicScanItem W → EpisodicMemory W
  of_item item = record {
    id = item.id;
    project_id = item.project_id;
    language = item.language;
    task_type = item.task_type;
    summary = item.summary;
    source_type = SourceType.other "";
    trust_level = 0;
    weight = item.weight;
    effective_frequency = zero_f;
    created_at = 0;
    last_accessed_at = none;
    obsoleted_at = none;
    entity_group = "";
    embedding_id = "";
    context_vector = [];
    full_snapshot_uri = "";
    is_correction = false;
    surprise_score = zero_f;
    occurred_at = item.occurred_at;
  }

  -- The loop over the scan: an identifier that is in the pool is passed over.
  unfoldable pub pool_of :
      String
      → TimeWindow
      → Text
      → List ℕ
      → List (EpisodicScanItem W)
      → List (Scored W (EpisodicMemory W))
  unfolding in_window of_item
  pool_of project w query seen [] = []
  pool_of project w query seen (item ∷ items) =
      let pass = in_window project w item && not (any (λ i. i == item.id) seen) in
      let rest = pool_of project w query (if pass then item.id ∷ seen else seen) items in
      if pass
      then record { item = of_item item; score = bigram_overlap query item.summary } ∷ rest
      else rest

  -- `SortNewest`: the first ones, the newest of them first
  unfoldable pub newest_first : Bool → ℕ → List (EpisodicMemory W) → List (EpisodicMemory W)
  newest_first newest limit ms =
      if newest
      then sort_by (λ a b. after (effective_occurred_at a) (effective_occurred_at b))
          (take limit ms)
        ++ drop limit ms
      else ms

  -- the lexical fallback, on the scanned items
  unfoldable pub lexical_recall :
      String → TimeWindow → Text → ℕ → List (EpisodicScanItem W) → List (EpisodicMemory W)
  unfolding newest_first pool_of
  lexical_recall project w query limit items = take limit (
      newest_first w.sort_newest limit (
        map (λ (x : Scored W (EpisodicMemory W)). x.item)
          (by_score (pool_of project w query [] items))))

  -- the request of the search by an embedding
  unfoldable pub fused_request : String → TimeWindow → Text → ℕ → List W → EpisodicSearchRequest W
  fused_request project w query limit v = record {
    project_id = project;
    language = "";
    task_type = "";
    min_weight = zero_f;
    limit = pos limit;
    include_obsolete = false;
    embedding = some v;
    surprise_boost = d.ratio 1 4;
    occurred_after = w.after;
    occurred_before = w.before;
    sort_by_occurred_at = w.sort_newest;
    query = query;
    rrf_k = pos 0;
  }

  -- the score of a pitfall: its overlap, and a boost for each reference to its entity
  boosted : List Text → PitfallMemory W → W → W
  boosted [] p s = s
  boosted (e ∷ es) p s = boosted es p (
      if contains (map lower_rune (codes p.entity_id)) (map lower_rune (without_at e))
      then d.add s (d.ratio 3 10)
      else s)

  unfoldable pub scored_pitfall : Text → PitfallMemory W → Scored W (PitfallMemory W)
  unfolding boosted
  scored_pitfall query p = record {
    item = p;
    score =
        boosted (entity_refs query) p
          (bigram_overlap_from_sets (char_bigrams query) (char_bigrams p.signature));
  }

  unfoldable pub ranked_pitfalls : Text → ℕ → List (PitfallMemory W) → List (PitfallMemory W)
  unfolding scored_pitfall by_score
  ranked_pitfalls query limit ps = take limit (
      map (λ (x : Scored W (PitfallMemory W)). x.item)
        (by_score (map (scored_pitfall query) (keep injectable ps))))

  unfoldable pub ranked :
      Text → ℕ → Result (List (PitfallMemory W)) → Result (List (PitfallMemory W))
  unfolding ranked_pitfalls
  ranked query limit (ok ps) = ok (ranked_pitfalls query limit ps)
  ranked query limit (err e) = err store_failed

  unfoldable pub pitfall_request : String → PitfallSearchRequest W
  pitfall_request project = record {
    project_id = project;
    language = "";
    entity_id = "";
    root_cause_category = "";
    min_weight = d.ratio 1 2;
    limit = pos 50;
  }

  recalled :
      String
      → TimeWindow
      → Text
      → ℕ
      → Result (List (EpisodicScanItem W))
      → Result (List (EpisodicMemory W))
  unfolding lexical_recall
  recalled project w query limit (ok items) = ok (lexical_recall project w query limit items)
  recalled project w query limit (err e) = err store_failed

module _ {W S : Type 0} ⦃d : Float64 W⦄ (store : MemoryStore W S)
    (embed : Text → Option (List W)) where
  lexical_search : String → TimeWindow → Text → ℕ → Action S (List (EpisodicMemory W))
  unfolding recalled
  lexical_search project w query limit s =
      let (r, s') = store.scan_recent 0 (pos 500) s in (recalled project w query limit r, s')

  by_vector : String → TimeWindow → Text → ℕ → Option (List W) → Action S (List (EpisodicMemory W))
  unfolding lexical_search fused_request
  by_vector project w query limit none = lexical_search project w query limit
  by_vector project w query limit (some v) =
      if has_magnitude v
      then store.search_episodic (fused_request project w query limit v)
      else lexical_search project w query limit

  -- `RetrieveEpisodic`, at the time `now`
  unfoldable pub retrieve_episodic : Time → String → Text → ℤ → Action S (List (EpisodicMemory W))
  unfolding by_vector limit_or
  retrieve_episodic now project query limit =
      let expanded = expand_query query in
      by_vector project (parse_relative_time query now) expanded (limit_or 5 limit) (embed expanded)

  -- `RetrievePitfalls`
  unfoldable pub retrieve_pitfalls : String → Text → ℤ → Action S (List (PitfallMemory W))
  unfolding ranked pitfall_request limit_or
  retrieve_pitfalls project query limit s =
      let (r, s') = store.search_pitfall (pitfall_request project) s in
      (ranked query (limit_or 3 limit) r, s')
