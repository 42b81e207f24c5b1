-- ===== src/Core/Retrieval.antt =====
-- internal/core/retrieval_engine.go: two-stage retrieval, a filter by context and a ranking by
-- similarity. The times that the stages take are left out.
pub mod Sound
use vatbrain.Prelude.{
  ℕ, Bool, true, false, not, ◌&&◌, ◌||◌, String, List, [], ◌∷◌, map, keep, any, take, length, ltb,
  is_some, nat_eq, string_eq, ◌==◌, ◌!=◌, if◌then◌else◌,
}
use vatbrain.Prelude.Int.{ℤ, positive, pos_part}
use vatbrain.Prelude.Sort.{sort_by}
use vatbrain.Prelude.Text.{Text}
use vatbrain.Float.{Float64, zero_f, one_f}
use vatbrain.Models.Common.{Uuid, TaskType, is_valid_task}
use vatbrain.Models.Episodic.{EpisodicMemory}
use vatbrain.Vector.{cosine_similarity}

-- internal/models/context.go
pub record SearchContext : Type 0 where
  pub project_id : String
  pub language : String
  pub task_type : TaskType
  pub entity_id : String
  pub active_files : List String
  pub session_id : String

pub record HardFilterResult (W : Type 0) : Type 0 where
  pub memory_id : Uuid
  pub weight : W
  pub language : String

pub record ContextFilterStats : Type 0 where
  pub total_candidates : ℕ
  pub after_filter : ℕ

pub record RankedResult (W : Type 0) : Type 0 where
  pub memory_id : Uuid
  pub relevance_score : W

-- A map of embeddings is a list with one pair for each key.
pub record RetrieveRequest (W : Type 0) : Type 0 where
  pub query : Text
  pub query_embedding : List W
  pub context : SearchContext
  pub episodic_candidates : List (EpisodicMemory W)
  pub candidate_embeddings : List (Uuid × List W)
  pub top_k : ℤ
  pub include_dormant : Bool
  pub cooling_threshold : W

pub record RetrieveResult (W : Type 0) : Type 0 where
  pub results : List (RankedResult W)
  pub filter_stats : ContextFilterStats

abbrev pub top_of : ℤ → ℕ → ℕ
top_of k n = if not (positive k) || ltb n (pos_part k) then n else pos_part k

module _ {W : Type 0} ⦃d : Float64 W⦄ where
  -- the `continue` tests of the loop
  unfoldable pub excluded : SearchContext → W → EpisodicMemory W → Bool
  excluded ctx threshold m =
      m.project_id != ctx.project_id || is_some m.obsoleted_at || d.lt m.weight threshold

  unfoldable pub apply_hard_constraints :
      List (EpisodicMemory W) → SearchContext → W → List (HardFilterResult W)
  apply_hard_constraints candidates ctx threshold =
      map
        (λ (m : EpisodicMemory W). record {
          memory_id = m.id;
          weight = m.weight;
          language = m.language;
        })
        (keep (λ m. not (excluded ctx threshold m)) candidates)

  boosted : SearchContext → HardFilterResult W → HardFilterResult W
  boosted ctx c =
      let task = if is_valid_task ctx.task_type then d.add one_f (d.ratio 2 10) else one_f in
      let boost =
        if ctx.language != "" && c.language == ctx.language
        then d.add task (d.ratio 1 10)
        else task in
      record c { weight = d.mul c.weight boost }

  unfoldable pub apply_soft_weights :
      List (HardFilterResult W) → SearchContext → List (HardFilterResult W)
  unfolding boosted
  apply_soft_weights candidates ctx = map (boosted ctx) candidates

  unfoldable pub filter_and_rank :
      List (EpisodicMemory W)
      → SearchContext
      → W
      → ℕ
      → List (HardFilterResult W) × ContextFilterStats
  filter_and_rank candidates ctx threshold max_candidates =
      let soft = take max_candidates (
        sort_by (λ (a : HardFilterResult W) (b : HardFilterResult W). d.lt b.weight a.weight)
          (apply_soft_weights (apply_hard_constraints candidates ctx threshold) ctx)) in
      (soft, record { total_candidates = length candidates; after_filter = length soft })

  abbrev pub more_relevant : RankedResult W → RankedResult W → Bool
  more_relevant a b = d.lt b.relevance_score a.relevance_score

  -- `Rank`
  unfoldable pub rank : List W → List (Uuid × List W) → List (RankedResult W)
  rank query embeddings = sort_by more_relevant (
      map
        (λ (e : Uuid × List W). record {
          memory_id = e.0;
          relevance_score = cosine_similarity query e.1;
        })
        embeddings)

  abbrev pub threshold_of : W → W
  threshold_of t = if d.le t zero_f then d.ratio 1 100 else t

  -- `Retrieve`, with the engine's `MaxCandidates`.
  unfoldable pub retrieve : ℤ → RetrieveRequest W → RetrieveResult W
  retrieve max_candidates req =
      let max = if positive max_candidates then pos_part max_candidates else 500 in
      let (filtered, stats) =
        filter_and_rank req.episodic_candidates req.context (threshold_of req.cooling_threshold)
          max in
      let restricted =
        keep (λ (e : Uuid × List W). any (λ (f : HardFilterResult W). f.memory_id == e.0) filtered)
          req.candidate_embeddings in
      let ranked = rank req.query_embedding restricted in
      record { results = take (top_of req.top_k (length ranked)) ranked; filter_stats = stats }
