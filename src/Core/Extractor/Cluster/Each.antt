-- ===== src/Core/Extractor/Cluster/Each.antt =====
-- What holds of each memory holds in its cluster, in internal/core/pitfall_extractor.go.
use vatbrain.Prelude.{
  ℕ, zero, suc, inl, inr, Option, Option-cases, List, [], ◌∷◌, ◌++◌, length, All, All-append,
  All-map, get_or, set, Bool-cases, leb,
}
use vatbrain.Prelude.Text.{Text}
use vatbrain.Float.{Float64}
use vatbrain.Store.{EpisodicScanItem}
use vatbrain.Core.Extractor.Cluster.{
  Member, members, singletons, items_of, threshold_for, sub_cluster, no_best, best_from, chosen,
  without_nth, merge_at, merge_closest,
}

module _ {W : Type 0} ⦃d : Float64 W⦄ where
  pub All-without_nth :
      (P : List (Member W) → Type 0) (i : ℕ) (cs : List (List (Member W)))
      → All P cs
      → All P (without_nth i cs)
  unfolding without_nth
  All-without_nth P i [] h = tt
  All-without_nth P zero (c ∷ cs) (h, hs) = hs
  All-without_nth P (suc i) (c ∷ cs) (h, hs) = (h, All-without_nth P i cs hs)

  -- A property of every memory is one of the memories in every cluster.
  module _ (P : Member W → Type 0) where
    get_or-All : (i : ℕ) (cs : List (List (Member W))) → All (All P) cs → All P (get_or cs i [])
    get_or-All i [] h = tt
    get_or-All zero (c ∷ cs) (h, hs) = h
    get_or-All (suc i) (c ∷ cs) (h, hs) = get_or-All i cs hs

    joined-All :
        (i : ℕ) (y : List (Member W)) (cs : List (List (Member W)))
        → All P y
        → All (All P) cs
        → All (All P) (set cs i (get_or cs i [] ++ y))
    joined-All i y [] k h = tt
    joined-All zero y (c ∷ cs) k (h, hs) = (All-append P c y h k, hs)
    joined-All (suc i) y (c ∷ cs) k (h, hs) = (h, joined-All i y cs k hs)

    merge_closest-All :
        (threshold : W) (n : ℕ) (cs : List (List (Member W)))
        → All (All P) cs
        → All (All P) (merge_closest threshold n cs)
    unfolding merge_closest merge_at
    merge_closest-All threshold zero cs h = h
    merge_closest-All threshold (suc n) cs h =
        elim (Option-cases (chosen threshold (best_from no_best 0 cs))) [
          | inl e ↦ rw (e, merge_closest) h
          | inr ((i, j), e) ↦
              rw (e, merge_closest)
                (merge_closest-All threshold n (merge_at i j cs) (
                  All-without_nth (All P) j _
                    (joined-All i (get_or cs j []) cs (get_or-All j cs h) h)))
        ]

    singletons-All : (ms : List (Member W)) → All P ms → All (All P) (singletons ms)
    unfolding singletons
    singletons-All [] h = tt
    singletons-All (m ∷ ms) (h, hs) = ((h, tt), singletons-All ms hs)

  members-All :
      (P : EpisodicScanItem W → Type 0) (embedder : Text → Option (List W))
      (eps : List (EpisodicScanItem W))
      → All P eps
      → All (λ (m : Member W). P m.item) (members embedder eps)
  unfolding members
  members-All P embedder [] h = tt
  members-All P embedder (ep ∷ eps) (h, hs) = (h, members-All P embedder eps hs)

  pub sub_cluster-All :
      (P : EpisodicScanItem W → Type 0) (embedder : Text → Option (List W)) (merge_threshold : W)
      (eps : List (EpisodicScanItem W))
      → All P eps
      → All (All P) (sub_cluster embedder merge_threshold eps)
  unfolding sub_cluster
  sub_cluster-All P embedder merge_threshold eps h =
      let Q = λ (m : Member W). P m.item in
      let ms = members embedder eps in
      elim (Bool-cases (leb (length eps) 1)) [
        | inl f ↦ rw f (h, tt)
        | inr f ↦ rw f (
            All-map items_of (All Q) (All P) _
              (λ c k. All-map (λ (m : Member W). m.item) Q P c (λ m q. q) k)
              (merge_closest-All Q (threshold_for merge_threshold ms) (length eps) (singletons ms)
                (singletons-All Q ms (members-All P embedder eps h))))
      ]
