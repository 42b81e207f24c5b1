-- ===== src/Core/Extractor/Cluster/Settled.antt =====
-- The clusters that internal/core/pitfall_extractor.go ends with.
use mathlib.Core.List.{Perm, append-nil}
use mathlib.Core.List.Perm
use mathlib.Core.Path.{subst}
use vatbrain.Prelude.{
  ℕ, zero, suc, ◌<◌, ◌≤◌, ◌≡◌, refl, sym, ap, ◌∙◌, inl, inr, Option, none, Option-cases, List, [],
  ◌∷◌, ◌++◌, length, length-append, All, map, get_or, set, arith, Bool-cases, leb, false,
}
use vatbrain.Prelude.Text.{Text}
use vatbrain.Float.{Float64}
use vatbrain.Store.{EpisodicScanItem}
use vatbrain.Float.Laws.{IsOrdered}
use vatbrain.Core.Extractor.Cluster.{
  Member, members, singletons, items_of, threshold_for, sub_cluster, no_best, best_from, chosen,
  merge_at, merge_closest,
}
use vatbrain.Core.Extractor.Cluster.Closest.{Pairwise, IsFar, chosen-IsFar, chosen-placed}
use vatbrain.Core.Extractor.Cluster.Joined.{concat, length-merge_at, merge_at-perm, concat-map-map}
use vatbrain.Core.Extractor.Cluster.Each.{All-without_nth}

module _ {W : Type 0} ⦃d : Float64 W⦄ where
  chosen-none : (threshold : W) → chosen threshold (best_from no_best 0 []) ≡ none
  unfolding chosen best_from no_best
  chosen-none threshold = ground arith

  -- The loop ends by its test where it has fuel for each cluster.
  pub merge_closest-ends :
      (threshold : W) (n : ℕ) (cs : List (List (Member W)))
      → length cs ≤ n
      → let out = merge_closest threshold n cs in
        (chosen threshold (best_from no_best 0 out) ≡ none) × Perm (concat out) (concat cs)
  unfolding merge_closest
  merge_closest-ends threshold zero [] h = (chosen-none threshold, Perm.refl _)
  merge_closest-ends threshold zero (c ∷ cs) h = absurd (omega arith)
  merge_closest-ends threshold (suc n) cs h =
      elim (Option-cases (chosen threshold (best_from no_best 0 cs))) [
        | inl e ↦ rw (e, merge_closest) (e, Perm.refl _)
        | inr ((i, j), e) ↦
            let (p, q) = chosen-placed threshold cs i j e in
            let len = length-merge_at i j cs p q in
            let (f, g) = merge_closest-ends threshold n (merge_at i j cs) (omega arith) in
            rw (e, merge_closest) (f, Perm.trans g (merge_at-perm i j cs p q))
      ]

  joined-some_left :
      (i : ℕ) (y : List (Member W)) (cs : List (List (Member W)))
      → All (λ c. 0 < length c) cs
      → All (λ c. 0 < length c) (set cs i (get_or cs i [] ++ y))
  joined-some_left i y [] h = tt
  joined-some_left zero y (c ∷ cs) (h, hs) = (omega (arith, length-append c y), hs)
  joined-some_left (suc i) y (c ∷ cs) (h, hs) = (h, joined-some_left i y cs hs)

  merge_closest-some_left :
      (threshold : W) (n : ℕ) (cs : List (List (Member W)))
      → All (λ c. 0 < length c) cs
      → All (λ c. 0 < length c) (merge_closest threshold n cs)
  unfolding merge_closest merge_at
  merge_closest-some_left threshold zero cs h = h
  merge_closest-some_left threshold (suc n) cs h =
      elim (Option-cases (chosen threshold (best_from no_best 0 cs))) [
        | inl e ↦ rw (e, merge_closest) h
        | inr ((i, j), e) ↦
            rw (e, merge_closest)
              (merge_closest-some_left threshold n (merge_at i j cs)
                (All-without_nth _ j _ (joined-some_left i (get_or cs j []) cs h)))
      ]

  concat-singletons : (ms : List (Member W)) → concat (singletons ms) ≡ ms
  unfolding singletons
  concat-singletons [] = refl
  concat-singletons (m ∷ ms) = ap (λ l. m ∷ l) (concat-singletons ms)

  length-singletons : (ms : List (Member W)) → length (singletons ms) ≡ length ms
  unfolding singletons
  length-singletons [] = refl
  length-singletons (m ∷ ms) = ap suc (length-singletons ms)

  singletons-some_left : (ms : List (Member W)) → All (λ c. 0 < length c) (singletons ms)
  unfolding singletons
  singletons-some_left [] = tt
  singletons-some_left (m ∷ ms) = (omega arith, singletons-some_left ms)

  items_of-members :
      (embedder : Text → Option (List W)) (eps : List (EpisodicScanItem W))
      → items_of (members embedder eps) ≡ eps
  unfolding members
  items_of-members embedder [] = refl
  items_of-members embedder (ep ∷ eps) = ap (λ l. ep ∷ l) (items_of-members embedder eps)

  length-members :
      (embedder : Text → Option (List W)) (eps : List (EpisodicScanItem W))
      → length (members embedder eps) ≡ length eps
  unfolding members
  length-members embedder [] = refl
  length-members embedder (ep ∷ eps) = ap suc (length-members embedder eps)

  -- The clusters of an entity have each of its memories once.
  pub sub_cluster-partition :
      (embedder : Text → Option (List W)) (merge_threshold : W) (eps : List (EpisodicScanItem W))
      → Perm (concat (sub_cluster embedder merge_threshold eps)) eps
  unfolding sub_cluster
  sub_cluster-partition embedder merge_threshold eps =
      let ms = members embedder eps in
      let out = merge_closest (threshold_for merge_threshold ms) (length eps) (singletons ms) in
      let len = length-singletons ms ∙ length-members embedder eps in
      let (e, p) =
        merge_closest-ends (threshold_for merge_threshold ms) (length eps) (singletons ms)
          (omega (arith, len)) in
      elim (Bool-cases (leb (length eps) 1)) [
        | inl f ↦ rw f (subst (λ l. Perm l eps) (sym (append-nil eps)) (Perm.refl eps))
        | inr f ↦ rw f (
            subst (λ l. Perm (concat (map items_of out)) l) (items_of-members embedder eps)
              (subst (λ l. Perm l (items_of ms))
                (sym (concat-map-map (λ (m : Member W). m.item) out))
                (Perm.map (λ (m : Member W). m.item)
                  (subst (λ l. Perm (concat out) l) (concat-singletons ms) p))))
      ]

  -- What the clusters of two memories or more are: the memories with their embeddings, each in one
  -- cluster, none of which is empty, and every two of which are far apart.
  pub record IsSettled (threshold : W) (ms : List (Member W)) (cs : List (List (Member W)))
      : Type 0 where
    pub all_placed : Perm (concat cs) ms
    pub some_left : All (λ c. 0 < length c) cs
    pub far : Pairwise (IsFar threshold) cs

  -- The loop of `subCluster` ends, and by its own test: the clusters of two memories or more have each of
  -- them once, none is empty, and every two of them are not similar at all or less so than the
  -- threshold, which is the lower one where no embedding has a signal.
  pub sub_cluster-IsSettled :
      IsOrdered W
      → (embedder : Text → Option (List W)) (merge_threshold : W) (eps : List (EpisodicScanItem W))
      → 1 < length eps
      → let ms = members embedder eps in
        (cs : List (List (Member W))) × (sub_cluster embedder merge_threshold eps ≡ map items_of cs)
        × IsSettled (threshold_for merge_threshold ms) ms cs
  unfolding sub_cluster
  sub_cluster-IsSettled laws embedder merge_threshold eps h =
      let ms = members embedder eps in
      let threshold = threshold_for merge_threshold ms in
      let out = merge_closest threshold (length eps) (singletons ms) in
      let len = length-singletons ms ∙ length-members embedder eps in
      let (e, p) = merge_closest-ends threshold (length eps) (singletons ms) (omega (arith, len)) in
      let many : leb (length eps) 1 ≡ false = ground arith in
      (
        out,
        rw many refl,
        record {
          all_placed = subst (λ l. Perm (concat out) l) (concat-singletons ms) p;
          some_left =
              merge_closest-some_left threshold (length eps) (singletons ms)
                (singletons-some_left ms);
          far = chosen-IsFar laws threshold out e;
        },
      )
