-- ===== src/Store/Memory/Search.antt =====
-- `SearchEpisodic`, `SearchSemantic` and `ScanRecent` of internal/store/memory/memory_store.go.
use vatbrain.Prelude.{
  Bool, not, ◌&&◌, ◌||◌, List, [], ◌∷◌, map, Option, none, some, length, keep, take, is_some, ltb,
  nat_eq, string_eq, ◌!=◌, if◌then◌else◌,
}
use vatbrain.Prelude.Dict.{values}
use vatbrain.Prelude.Int.{ℤ, cut_limit, positive, pos_part}
use vatbrain.Prelude.Result.{Action, ok}
use vatbrain.Prelude.Sort.{sort_by}
use vatbrain.Float.{Float64}
use vatbrain.Vector.{is_empty, cosine_similarity}
use vatbrain.Models.Common.{Time, is_zero, before, after}
use vatbrain.Models.Episodic.{EpisodicMemory, effective_occurred_at}
use vatbrain.Models.Semantic.{SemanticMemory}
use vatbrain.Store.{EpisodicSearchRequest, SemanticSearchRequest, EpisodicScanItem}
use vatbrain.Store.Memory.State.{Store}

pub record Scored (W : Type 0) : Type 0 where
  pub mem : EpisodicMemory W
  pub score : W

module _ {W : Type 0} ⦃d : Float64 W⦄ where
  -- The `continue` tests of the loop: the memory is skipped if one holds.
  unfoldable pub skipped : EpisodicSearchRequest W → EpisodicMemory W → Bool
  unfolding effective_occurred_at
  skipped req m =
      (req.project_id != "" && m.project_id != req.project_id)
      || (req.language != "" && m.language != req.language)
      || (req.task_type != "" && m.task_type != req.task_type)
      || d.lt m.weight req.min_weight
      || (not req.include_obsolete && is_some m.obsoleted_at)
      || (not (is_zero req.occurred_after) && before (effective_occurred_at m) req.occurred_after)
      || (not (is_zero req.occurred_before) && after (effective_occurred_at m) req.occurred_before)

  unfoldable pub candidates_of : EpisodicSearchRequest W → Store W → List (EpisodicMemory W)
  candidates_of req s = keep (λ m. not (skipped req m)) (values s.episodics)

  unfoldable pub scored_of : List W → List (EpisodicMemory W) → List (Scored W)
  scored_of q [] = []
  scored_of q (m ∷ ms) =
      let rest = scored_of q ms in
      if is_empty m.context_vector || length m.context_vector != length q
      then rest
      else record { mem = m; score = cosine_similarity q m.context_vector } ∷ rest

  abbrev pub higher_score : Scored W → Scored W → Bool
  higher_score a b = d.lt b.score a.score

  abbrev pub newer : EpisodicMemory W → EpisodicMemory W → Bool
  newer a b = after (effective_occurred_at a) (effective_occurred_at b)

  unfoldable pub ranked_by_embedding :
      List W → EpisodicSearchRequest W → List (EpisodicMemory W) → List (EpisodicMemory W)
  unfolding scored_of
  ranked_by_embedding q req ms =
      let results = sort_by higher_score (scored_of q ms) in
      let top = take (cut_limit req.limit 10 (length results)) results in
      map (λ (x : Scored W). x.mem)
        (if req.sort_by_occurred_at then sort_by (λ a b. newer a.mem b.mem) top else top)

  -- the last two keys of `heavier`
  fresher : Option Time → Option Time → EpisodicMemory W → EpisodicMemory W → Bool
  fresher (some t) (some u) a b = after t u
  fresher _ _ a b = after a.created_at b.created_at

  -- The default order: by weight, then by last access if both have one, or else by creation.
  unfoldable pub heavier : EpisodicMemory W → EpisodicMemory W → Bool
  unfolding fresher
  heavier a b =
      if d.eq a.weight b.weight
      then fresher a.last_accessed_at b.last_accessed_at a b
      else d.lt b.weight a.weight

  unfoldable pub ranked_by_weight :
      EpisodicSearchRequest W → List (EpisodicMemory W) → List (EpisodicMemory W)
  ranked_by_weight req ms =
      take (cut_limit req.limit 10 (length ms))
        (if req.sort_by_occurred_at then sort_by newer ms else sort_by heavier ms)

  -- The embedding is used if it is given and something is left to rank.
  unfoldable pub ranked :
      Option (List W) → EpisodicSearchRequest W → List (EpisodicMemory W) → List (EpisodicMemory W)
  ranked none req ms = ranked_by_weight req ms
  ranked (some q) req ms =
      if is_empty ms then ranked_by_weight req ms else ranked_by_embedding q req ms

  unfoldable pub search_episodic :
      EpisodicSearchRequest W → Action (Store W) (List (EpisodicMemory W))
  unfolding ranked
  search_episodic req s = (ok (ranked req.embedding req (candidates_of req s)), s)

  unfoldable pub search_semantic :
      SemanticSearchRequest → Action (Store W) (List (SemanticMemory W))
  search_semantic req s =
      let matching =
        keep
          (λ (m : SemanticMemory W). not (
            (req.memory_type != "" && m.type != req.memory_type)
            || (req.project_id != "" && m.entity_group != req.project_id)))
          (values s.semantics) in
      (
        ok (
            take (cut_limit req.limit 10 (length matching))
              (sort_by (λ a b. d.lt b.weight a.weight) matching)),
        s,
      )

  last_access : EpisodicMemory W → Option Time → Time
  last_access m none = m.created_at
  last_access m (some t) = t

  scan_item : EpisodicMemory W → EpisodicScanItem W
  unfolding last_access
  scan_item m = record {
    id = m.id;
    summary = m.summary;
    task_type = m.task_type;
    project_id = m.project_id;
    language = m.language;
    entity_group = m.entity_group;
    entity_id = m.entity_group;
    weight = m.weight;
    last_accessed = last_access m m.last_accessed_at;
    occurred_at = effective_occurred_at m;
  }

  unfoldable pub scan_recent : Time → ℤ → Action (Store W) (List (EpisodicScanItem W))
  unfolding scan_item
  scan_recent since limit s =
      let recent =
        keep (λ (m : EpisodicMemory W). not (before m.created_at since || is_some m.obsoleted_at))
          (values s.episodics) in
      let items =
        sort_by
          (λ (a : EpisodicScanItem W) (b : EpisodicScanItem W).
            after a.last_accessed b.last_accessed)
          (map scan_item recent) in
      (
        ok (
            if positive limit && ltb (pos_part limit) (length items)
            then take (pos_part limit) items
            else items),
        s,
      )
