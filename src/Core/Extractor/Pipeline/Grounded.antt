-- ===== src/Core/Extractor/Pipeline/Grounded.antt =====
-- The evidence of the groups and the pitfalls of internal/core/pitfall_extractor.go.
use mathlib.Core.Path.{subst}
use vatbrain.Prelude.{
  ℕ, ◌≤◌, ◌≡◌, ◌==◌, refl, sym, inl, inr, Bool-cases, Option-cases, true, String, string_eq, List,
  [], ◌∷◌, length, length-append, keep, All, All-append, In, In-All, keep-All_imp, ltb, arith,
}
use vatbrain.Prelude.Dict.{Dict, empty, lookup, insert}
use vatbrain.Prelude.Dict.Entries.{AllPairs, insert-AllPairs, lookup-AllPairs, values-AllPairs}
use vatbrain.Models.Common.{task_debug}
use vatbrain.Models.Pitfall.{PitfallMemory}
use vatbrain.Store.{EpisodicScanItem}
use vatbrain.Core.Extractor.Merge.{absorb, merge_pitfall}
use vatbrain.Core.Extractor.Pipeline.{
  EntityGroup, is_debug, with_episode, group_loop, group_by_entity_id,
}

module _ {W : Type 0} where
  -- The memory is a debug memory of the entity.
  abbrev pub IsEvidence : List (EpisodicScanItem W) → String → EpisodicScanItem W → Type 0
  IsEvidence eps entity ep = In ep eps × (ep.task_type ≡ task_debug) × (ep.entity_id ≡ entity)

  is_debug-task : (ep : EpisodicScanItem W) → is_debug ep ≡ true → ep.task_type ≡ task_debug
  unfolding is_debug
  is_debug-task ep dbg =
      let same : (ep.task_type == task_debug) ≡ true = ground (arith, dbg) in
      (string_eq.beq_iff ep.task_type task_debug).0 same

  -- The pitfall stands on debug memories of its entity, as many as it occurred and not too few.
  pub record IsGrounded (eps : List (EpisodicScanItem W)) (min : ℕ) (p : PitfallMemory W)
      : Type 0 where
    pub counted : p.occurrence_count ≡ length p.source_episodic_ids
    pub enough : min ≤ p.occurrence_count
    pub evident :
        All
          (λ id. (ep : EpisodicScanItem W) × IsEvidence eps p.entity_id ep × (ep.id ≡ id))
          p.source_episodic_ids

  pub merge_pitfall-IsGrounded :
      (eps : List (EpisodicScanItem W)) (min : ℕ) (a b : PitfallMemory W)
      → a.entity_id ≡ b.entity_id
      → IsGrounded eps min a
      → IsGrounded eps min b
      → IsGrounded eps min (merge_pitfall a b)
  unfolding merge_pitfall absorb
  merge_pitfall-IsGrounded eps min a b e h k =
      let len = length-append a.source_episodic_ids b.source_episodic_ids in
      let len' = length-append b.source_episodic_ids a.source_episodic_ids in
      elim (Bool-cases (ltb a.occurrence_count b.occurrence_count)) [
        | inl f ↦ rw f (record {
          counted = omega (arith, len', h.counted, k.counted);
          enough = omega (arith, h.enough);
          evident = All-append _ b.source_episodic_ids a.source_episodic_ids k.evident (
              subst
                (λ en.
                  All (λ id. (ep : EpisodicScanItem W) × IsEvidence eps en ep × (ep.id ≡ id))
                    a.source_episodic_ids)
                e h.evident);
        })
        | inr f ↦ rw f (record {
          counted = omega (arith, len, h.counted, k.counted);
          enough = omega (arith, h.enough);
          evident = All-append _ a.source_episodic_ids b.source_episodic_ids h.evident (
              subst
                (λ en.
                  All (λ id. (ep : EpisodicScanItem W) × IsEvidence eps en ep × (ep.id ≡ id))
                    b.source_episodic_ids)
                (sym e) k.evident);
        })
      ]

  -- A group has evidence for its entity only.
  abbrev IsGroup : List (EpisodicScanItem W) → String → EntityGroup W → Type 0
  IsGroup eps k g = (g.entity_id ≡ k) × All (IsEvidence eps k) g.episodics

  with_episode-IsGroup :
      (eps : List (EpisodicScanItem W)) (groups : Dict String (EntityGroup W))
      (ep : EpisodicScanItem W)
      → AllPairs (IsGroup eps) groups.entries
      → In ep eps
      → is_debug ep ≡ true
      → IsGroup eps ep.entity_id (with_episode ep (lookup ep.entity_id groups))
  unfolding with_episode
  with_episode-IsGroup eps groups ep h i dbg = elim (Option-cases (lookup ep.entity_id groups)) [
    | inl e ↦ rw (e, with_episode) (refl, ((i, is_debug-task ep dbg, refl), tt))
    | inr (g, e) ↦
        let (same, all) = lookup-AllPairs (IsGroup eps) ep.entity_id groups h e in
        rw (e, with_episode)
          (
            same,
            All-append (IsEvidence eps ep.entity_id) g.episodics (ep ∷ []) all
                ((i, is_debug-task ep dbg, refl), tt),
          )
  ]

  group_loop-IsGroup :
      (eps rest : List (EpisodicScanItem W)) (groups : Dict String (EntityGroup W))
      → AllPairs (IsGroup eps) groups.entries
      → All (λ ep. In ep eps × (is_debug ep ≡ true)) rest
      → AllPairs (IsGroup eps) (group_loop groups rest).entries
  unfolding group_loop
  group_loop-IsGroup eps [] groups h hs = h
  group_loop-IsGroup eps (ep ∷ rest) groups h ((i, dbg), hs) =
      let g = with_episode ep (lookup ep.entity_id groups) in
      group_loop-IsGroup eps rest (insert ep.entity_id g groups)
        (insert-AllPairs (IsGroup eps) ep.entity_id g groups
          (with_episode-IsGroup eps groups ep h i dbg) h)
        hs

  pub group_by_entity_id-IsGroup :
      (eps : List (EpisodicScanItem W))
      → All
          (λ (g : EntityGroup W). All (IsEvidence eps g.entity_id) g.episodics)
          (group_by_entity_id (keep is_debug eps))
  unfolding group_by_entity_id
  group_by_entity_id-IsGroup eps =
      let debug_eps = keep is_debug eps in
      values-AllPairs (IsGroup eps)
        (λ (g : EntityGroup W). All (IsEvidence eps g.entity_id) g.episodics)
        (group_loop empty debug_eps)
        (λ k g h. subst (λ l. All (IsEvidence eps l) g.episodics) (sym h.0) h.1)
        (group_loop-IsGroup eps debug_eps empty tt (
          keep-All_imp (λ ep. In ep eps) (λ ep. In ep eps × (is_debug ep ≡ true)) is_debug eps
            (λ ep i e. (i, e)) (In-All (λ ep. In ep eps) eps (λ ep i. i))))
