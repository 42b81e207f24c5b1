-- ===== src/Core/Extractor/Pipeline/Accounted.antt =====
-- What a run of internal/core/pitfall_extractor.go returns.
use mathlib.Core.Path.{subst}
use vatbrain.Prelude.{
  length-map, ℕ, ◌+◌, ◌≤◌, ◌≡◌, refl, sym, ap, ◌∙◌, inl, inr, Bool-cases, String, string_eq, List,
  [], ◌∷◌, length, length-append, keep, take, All, All-take, All-map, All-append, ltb, arith,
}
use vatbrain.Prelude.Format.{is_empty}
use vatbrain.Prelude.Result.{Result, ok, err}
use vatbrain.Float.{Float64}
use vatbrain.Models.Common.{Uuid, Time}
use vatbrain.Models.Pitfall.{PitfallMemory}
use vatbrain.Store.{EpisodicScanItem}
use vatbrain.Core.Extractor.Cluster.{sub_cluster}
use vatbrain.Core.Extractor.Cluster.Each.{sub_cluster-All}
use vatbrain.Core.Extractor.Draft.{extract_from_sub_cluster}
use vatbrain.Core.Extractor.Draft.Traced.{IsDraftOf, OnOk, extract_from_sub_cluster-IsDraftOf}
use vatbrain.Core.Extractor.Parse.{Decoder}
use vatbrain.Core.Extractor.Merge.Held.{deduplicate_pitfalls-holds}
use vatbrain.Core.Extractor.Merge.Kept.{deduplicate_pitfalls-Accounts}
use vatbrain.Core.Extractor.Pipeline.{
  PitfallExtractor, EntityGroup, Extraction, is_debug, group_by_entity_id, add_extracted,
  extract_clusters, extract_group, extract_groups, extract,
}
use vatbrain.Core.Extractor.Pipeline.Grounded.{
  IsEvidence, IsGrounded, merge_pitfall-IsGrounded, group_by_entity_id-IsGroup,
}

module _ {W : Type 0} ⦃d : Float64 W⦄ where
  IsDraftOf-IsGrounded :
      (eps sc : List (EpisodicScanItem W)) (min : ℕ) (entity : String) (p : PitfallMemory W)
      → IsDraftOf entity sc p
      → min ≤ length sc
      → All (IsEvidence eps entity) sc
      → IsGrounded eps min p
  IsDraftOf-IsGrounded eps sc min entity p (same, counted, traced) h hs =
      let len = length-map (λ (ep : EpisodicScanItem W). ep.id) sc in
      record {
        counted = counted ∙ sym len ∙ ap length (sym traced);
        enough = omega arith;
        evident = subst (All _) (sym traced) (
            All-map (λ (ep : EpisodicScanItem W). ep.id) (IsEvidence eps entity) _ sc
              (λ ep k. (ep, subst (λ l. IsEvidence eps l ep) (sym same) k, refl)) hs);
      }

module _ {W : Type 0} ⦃d : Float64 W⦄ (pe : PitfallExtractor W) (decoder : Decoder W)
    (fresh : ℕ → Uuid) (clock : ℕ → Time) (eps : List (EpisodicScanItem W)) where
  abbrev AreGrounded : List (PitfallMemory W) → Type 0
  AreGrounded ps = All (IsGrounded eps pe.min_cluster_size) ps

  -- What the loops have made so far: no more pitfalls than candidates, all of them grounded.
  record IsSound (st : Extraction W) : Type 0 where
    few : length st.extracted ≤ st.candidates_found
    grounded : AreGrounded st.extracted

  -- The loop over the sub-clusters makes a pitfall of each at most.
  record Extends (more : ℕ) (st st' : Extraction W) : Type 0 where
    same : st'.candidates_found ≡ st.candidates_found
    few : length st'.extracted ≤ length st.extracted + more
    grounded : AreGrounded st.extracted → AreGrounded st'.extracted

  add_extracted-Extends :
      (st : Extraction W) (entity : String) (sc : List (EpisodicScanItem W))
      (r : Result (PitfallMemory W))
      → OnOk (IsDraftOf entity sc) r
      → pe.min_cluster_size ≤ length sc
      → All (IsEvidence eps entity) sc
      → Extends 1 st (add_extracted pe decoder fresh clock st r)
  unfolding add_extracted
  add_extracted-Extends st entity sc (ok p) h m k = record {
    same = refl;
    few = omega (arith, length-append st.extracted (p ∷ []));
    grounded = λ g.
        All-append (IsGrounded eps pe.min_cluster_size) st.extracted (p ∷ []) g
          (IsDraftOf-IsGrounded eps sc pe.min_cluster_size entity p h m k, tt);
  }
  add_extracted-Extends st entity sc (err e) h m k = record {
    same = refl;
    few = omega arith;
    grounded = λ g. g;
  }

  extract_clusters-Extends :
      (entity : String) (scs : List (List (EpisodicScanItem W))) (st : Extraction W)
      → All (All (IsEvidence eps entity)) scs
      → Extends (length scs) st (extract_clusters pe decoder fresh clock entity st scs)
  unfolding extract_clusters
  extract_clusters-Extends entity [] st h = record {
    same = refl;
    few = omega arith;
    grounded = λ g. g;
  }
  extract_clusters-Extends entity (sc ∷ scs) st (h, hs) =
      let r =
        extract_from_sub_cluster decoder pe.llm_client (fresh st.attempts) (clock st.attempts)
          entity sc in
      let st' = add_extracted pe decoder fresh clock st r in
      elim (Bool-cases (ltb (length sc) pe.min_cluster_size)) [
        | inl e ↦ rw e (
            let rest = extract_clusters-Extends entity scs st hs in
            record { same = rest.same; few = omega (arith, rest.few); grounded = rest.grounded })
        | inr e ↦ rw e (
            let rest = extract_clusters-Extends entity scs st' hs in
            let one =
              add_extracted-Extends st entity sc r
                (extract_from_sub_cluster-IsDraftOf decoder pe.llm_client _ _ entity sc)
                (ground arith) h in
            record {
              same = rest.same ∙ one.same;
              few = omega (arith, rest.few, one.few);
              grounded = λ g. rest.grounded (one.grounded g);
            })
      ]

  extract_group-IsSound :
      (st : Extraction W) (g : EntityGroup W)
      → All (IsEvidence eps g.entity_id) g.episodics
      → IsSound st
      → IsSound (extract_group pe decoder fresh clock st g)
  unfolding extract_group
  extract_group-IsSound st g h s =
      let scs = sub_cluster pe.embedder pe.merge_threshold (take 50 g.episodics) in
      let st' = record st { candidates_found = st.candidates_found + length scs } in
      let all =
        sub_cluster-All (IsEvidence eps g.entity_id) pe.embedder pe.merge_threshold
          (take 50 g.episodics) (All-take (IsEvidence eps g.entity_id) 50 g.episodics h) in
      let x = extract_clusters-Extends g.entity_id scs st' all in
      elim (Bool-cases (ltb (length g.episodics) pe.min_cluster_size)) [
        | inl e ↦ rw e s
        | inr e ↦
            rw e (record {
              few = omega (arith, x.few, x.same, s.few);
              grounded = x.grounded s.grounded;
            })
      ]

  extract_groups-IsSound :
      (gs : List (EntityGroup W)) (st : Extraction W)
      → All (λ (g : EntityGroup W). All (IsEvidence eps g.entity_id) g.episodics) gs
      → IsSound st
      → IsSound (extract_groups pe decoder fresh clock st gs)
  unfolding extract_groups
  extract_groups-IsSound [] st h s = s
  extract_groups-IsSound (g ∷ gs) st (h, hs) s =
      extract_groups-IsSound gs (extract_group pe decoder fresh clock st g) hs
        (extract_group-IsSound st g h s)

  -- The pitfalls that a run returns and those that it merged away are no more than the candidates that it
  -- reports, and every pitfall occurred as often as it has sources, at least the minimal size of a
  -- cluster, and its sources are debug memories of the scan of its own entity.
  pub extract-IsGrounded :
      let r = extract pe decoder fresh clock eps in
      (length r.pitfalls + r.merged ≤ r.candidates_found)
      × All (IsGrounded eps pe.min_cluster_size) r.pitfalls
  unfolding extract
  extract-IsGrounded =
      let st₀ : Extraction W = record { extracted = []; candidates_found = 0; attempts = 0 } in
      let gs = group_by_entity_id (keep is_debug eps) in
      let st = extract_groups pe decoder fresh clock st₀ gs in
      let s =
        extract_groups-IsSound gs st₀ (group_by_entity_id-IsGroup eps)
          (record { few = omega arith; grounded = tt }) in
      let acc = deduplicate_pitfalls-Accounts pe.embedder pe.dedup_threshold st.extracted in
      elim (Bool-cases (is_empty (keep is_debug eps))) [
        | inl e ↦ rw e (omega arith, tt)
        | inr e ↦ rw e (
          omega (arith, s.few, acc.0),
          deduplicate_pitfalls-holds (IsGrounded eps pe.min_cluster_size)
              (merge_pitfall-IsGrounded eps pe.min_cluster_size) pe.embedder pe.dedup_threshold
              st.extracted s.grounded,
        )
      ]
