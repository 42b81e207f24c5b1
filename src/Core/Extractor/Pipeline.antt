-- ===== src/Core/Extractor/Pipeline.antt =====
-- The run of internal/core/pitfall_extractor.go over the memories of a scan. The identifier and the
-- time of a pitfall are parameters, by the number of the attempt; an error of one attempt is logged.
pub mod Grounded
pub mod Accounted
use vatbrain.Prelude.{
  ℕ, suc, ◌+◌, ◌-◌, Bool, not, ◌&&◌, String, string_eq, ◌==◌, List, [], ◌∷◌, ◌++◌, Option, none,
  some, keep, length, take, ltb, leb, if◌then◌else◌,
}
use vatbrain.Prelude.Dict.{Dict, empty, lookup, insert, values}
use vatbrain.Prelude.Format.{is_empty}
use vatbrain.Prelude.Result.{Result, ok, err}
use vatbrain.Prelude.Text.{Text}
use vatbrain.Float.{Float64}
use vatbrain.Models.Common.{Uuid, Time, task_debug}
use vatbrain.Models.Pitfall.{PitfallMemory}
use vatbrain.Store.{EpisodicScanItem}
use vatbrain.Core.Extractor.Cluster.{sub_cluster}
use vatbrain.Core.Extractor.Draft.{LlmClient, extract_from_sub_cluster}
use vatbrain.Core.Extractor.Parse.{Decoder}
use vatbrain.Core.Extractor.Merge.{deduplicate_pitfalls}

pub record PitfallExtractor (W : Type 0) : Type 0 where
  pub min_cluster_size : ℕ
  pub merge_threshold : W
  pub dedup_threshold : W
  pub embedder : Text → Option (List W)
  pub llm_client : Option LlmClient

pub record EntityGroup (W : Type 0) : Type 0 where
  pub entity_id : String
  pub episodics : List (EpisodicScanItem W)

-- the state of the loops
pub record Extraction (W : Type 0) : Type 0 where
  pub extracted : List (PitfallMemory W)
  pub candidates_found : ℕ
  pub attempts : ℕ

pub record ExtractResult (W : Type 0) : Type 0 where
  pub pitfalls : List (PitfallMemory W)
  pub candidates_found : ℕ
  pub merged : ℕ

module _ {W : Type 0} where
  unfoldable pub is_debug : EpisodicScanItem W → Bool
  is_debug ep = ep.task_type == task_debug && not (ep.entity_id == "")

  with_episode : EpisodicScanItem W → Option (EntityGroup W) → EntityGroup W
  with_episode ep none = record { entity_id = ep.entity_id; episodics = ep ∷ [] }
  with_episode ep (some g) = record g { episodics = g.episodics ++ ep ∷ [] }

  group_loop : Dict String (EntityGroup W) → List (EpisodicScanItem W) → Dict String (EntityGroup W)
  unfolding with_episode
  group_loop groups [] = groups
  group_loop groups (ep ∷ eps) =
      group_loop (insert ep.entity_id (with_episode ep (lookup ep.entity_id groups)) groups) eps

  -- `groupByEntityID`
  unfoldable pub group_by_entity_id : List (EpisodicScanItem W) → List (EntityGroup W)
  unfolding group_loop
  group_by_entity_id eps = values (group_loop empty eps)

module _ {W : Type 0} ⦃d : Float64 W⦄ (pe : PitfallExtractor W) (decoder : Decoder W)
    (fresh : ℕ → Uuid) (clock : ℕ → Time) where
  add_extracted : Extraction W → Result (PitfallMemory W) → Extraction W
  add_extracted st (ok p) = record st {
    extracted = st.extracted ++ p ∷ [];
    attempts = st.attempts + 1;
  }
  add_extracted st (err e) = record st { attempts = st.attempts + 1 }

  -- the loop over the sub-clusters of an entity
  unfoldable pub extract_clusters :
      String → Extraction W → List (List (EpisodicScanItem W)) → Extraction W
  unfolding add_extracted
  extract_clusters entity st [] = st
  extract_clusters entity st (sc ∷ scs) =
      let r =
        extract_from_sub_cluster decoder pe.llm_client (fresh st.attempts) (clock st.attempts)
          entity sc in
      extract_clusters entity
        (if ltb (length sc) pe.min_cluster_size then st else add_extracted st r) scs

  -- one entity, whose memories are cut to `maxEpisodicsPerEntity`
  unfoldable pub extract_group : Extraction W → EntityGroup W → Extraction W
  unfolding extract_clusters
  extract_group st g =
      let scs = sub_cluster pe.embedder pe.merge_threshold (take 50 g.episodics) in
      if ltb (length g.episodics) pe.min_cluster_size
      then st
      else extract_clusters g.entity_id
          (record st { candidates_found = st.candidates_found + length scs }) scs

  extract_groups : Extraction W → List (EntityGroup W) → Extraction W
  unfolding extract_group
  extract_groups st [] = st
  extract_groups st (g ∷ gs) = extract_groups (extract_group st g) gs

  -- `Extract`, which returns no error
  unfoldable pub extract : List (EpisodicScanItem W) → ExtractResult W
  unfolding extract_groups
  extract eps =
      let debug_eps = keep is_debug eps in
      let st =
        extract_groups (record { extracted = []; candidates_found = 0; attempts = 0 })
          (group_by_entity_id debug_eps) in
      let deduped = deduplicate_pitfalls pe.embedder pe.dedup_threshold st.extracted in
      if is_empty debug_eps
      then record { pitfalls = []; candidates_found = 0; merged = 0 }
      else record {
        pitfalls = deduped;
        candidates_found = st.candidates_found;
        merged = length st.extracted - length deduped;
      }
