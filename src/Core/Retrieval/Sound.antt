-- ===== src/Core/Retrieval/Sound.antt =====
-- What internal/core/retrieval_engine.go returns.
use vatbrain.Prelude.{
  ℕ, ◌≡◌, refl, ◌∙◌, false, not, List, All, In, In-All, any, any-All, keep-All_imp, is_some-none,
  All-map, All-take, keep, if◌then◌else◌, nat_eq, string_eq, true, none, ◌==◌, arith,
}
use vatbrain.Prelude.Int.{ℤ, positive, pos_part}
use vatbrain.Prelude.Sort.{All-sort_by}
use vatbrain.Float.{Float64, zero_f}
use vatbrain.Models.Common.{Uuid}
use vatbrain.Models.Episodic.{EpisodicMemory}
use vatbrain.Vector.{cosine_similarity}
use vatbrain.Core.Retrieval.{
  HardFilterResult, RankedResult, RetrieveRequest, excluded, apply_hard_constraints, boosted,
  apply_soft_weights, filter_and_rank, rank, retrieve, threshold_of, more_relevant,
}

module _ {W : Type 0} ⦃d : Float64 W⦄ where
  -- The memory belongs to the project, is active, and is not below the threshold, which is 0.01 where
  -- the request gives none that is positive.
  pub record IsEligible (req : RetrieveRequest W) (m : EpisodicMemory W) : Type 0 where
    pub project : m.project_id ≡ req.context.project_id
    pub active : m.obsoleted_at ≡ none
    pub warm :
        d.lt m.weight
          (if d.le req.cooling_threshold zero_f then d.ratio 1 100 else req.cooling_threshold)
        ≡ false

  -- The memory of that id is a candidate that is eligible.
  abbrev pub Passes : RetrieveRequest W → Uuid → Type 0
  Passes req id =
      (m : EpisodicMemory W) × In m req.episodic_candidates × (m.id ≡ id) × IsEligible req m

  excluded-IsEligible :
      (req : RetrieveRequest W) (m : EpisodicMemory W)
      → not (excluded req.context (threshold_of req.cooling_threshold) m) ≡ true
      → IsEligible req m
  unfolding excluded
  excluded-IsEligible req m h = record {
    project = ground (arith, string_eq.beq_iff m.project_id req.context.project_id, h);
    active = is_some-none m.obsoleted_at (ground (arith, h));
    warm = ground (arith, h);
  }

  -- The score is the similarity of the query to an embedding of that id.
  abbrev pub IsScored : RetrieveRequest W → RankedResult W → Type 0
  IsScored req r =
      (v : List W) × In (r.memory_id, v) req.candidate_embeddings
      × (r.relevance_score ≡ cosine_similarity req.query_embedding v)

  filtered-Passes :
      (req : RetrieveRequest W) (n : ℕ)
      → All
          (λ (f : HardFilterResult W). Passes req f.memory_id)
          (filter_and_rank req.episodic_candidates req.context
            (threshold_of req.cooling_threshold)
            n).0
  unfolding filter_and_rank apply_hard_constraints apply_soft_weights boosted
  filtered-Passes req n =
      let ok = λ (m : EpisodicMemory W).
        not (excluded req.context (threshold_of req.cooling_threshold) m) in
      let kept : All (λ m. Passes req m.id) (keep ok req.episodic_candidates) =
        keep-All_imp (λ m. In m req.episodic_candidates) (λ m. Passes req m.id) ok _
          (λ m h e. (m, h, refl, excluded-IsEligible req m e)) (In-All _ _ (λ m h. h)) in
      let hard =
        All-map _ (λ m. Passes req m.id) (λ (f : HardFilterResult W). Passes req f.memory_id) _
          (λ m h. h) kept in
      let soft =
        All-map (boosted req.context) (λ (f : HardFilterResult W). Passes req f.memory_id)
          (λ (f : HardFilterResult W). Passes req f.memory_id) _ (λ f h. h) hard in
      All-take _ n _ (All-sort_by _ _ _ soft)

  -- Every result is a candidate of the project that is active and not below the cooling threshold, whose score is the
  -- similarity of an embedding of its own to the query.
  pub retrieve-Passes :
      (max_candidates : ℤ) (req : RetrieveRequest W)
      → All (λ r. Passes req r.memory_id × IsScored req r) (retrieve max_candidates req).results
  unfolding retrieve rank
  retrieve-Passes max_candidates req =
      let max = if positive max_candidates then pos_part max_candidates else 500 in
      let filtered =
        (filter_and_rank req.episodic_candidates req.context (threshold_of req.cooling_threshold)
          max).0 in
      let among =
        λ (e : Uuid × List W). any (λ (f : HardFilterResult W). f.memory_id == e.0) filtered in
      let restricted : All (λ e. Passes req e.0 × In e req.candidate_embeddings)
          (keep among req.candidate_embeddings) =
        keep-All_imp (λ e. In e req.candidate_embeddings) _ among _
          (λ e h k. (
            any-All (λ (f : HardFilterResult W). Passes req f.memory_id) (Passes req e.0) _ filtered
                (λ f (m, i, same, ok) eq. (m, i, same ∙ (nat_eq.beq_iff f.memory_id e.0).0 eq, ok))
                (filtered-Passes req max) k,
            h,
          ))
          (In-All _ _ (λ e h. h)) in
      let scored =
        All-map _ _ (λ r. Passes req r.memory_id × IsScored req r) _
          (λ e (p, i). (p, (e.1, i, refl))) restricted in
      All-take _ _ _ (All-sort_by more_relevant _ _ scored)
