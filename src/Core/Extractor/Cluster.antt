-- ===== src/Core/Extractor/Cluster.antt =====
-- The sub-clustering of internal/core/pitfall_extractor.go. The source holds indices of the memories
-- and of their embeddings in a cluster; here a cluster holds the memories with their embeddings, so the
-- guards on the range of an index have no counterpart.
pub mod Closest
pub mod Joined
pub mod Each
pub mod Settled
use vatbrain.Prelude.{
  ℕ, zero, suc, ◌+◌, ◌*◌, Bool, true, false, not, ◌&&◌, ◌||◌, List, [], ◌∷◌, ◌++◌, Option, none,
  some, map, any, length, get_or, set, ltb, leb, is_some, if◌then◌else◌,
}
use vatbrain.Prelude.Format.{is_empty}
use vatbrain.Prelude.Text.{Text}
use vatbrain.Float.{Float64, zero_f, of_nat}
use vatbrain.Store.{EpisodicScanItem}
use vatbrain.Vector.{cosine_similarity, has_magnitude}
use vatbrain.Core.Conflict.Directive.{char_bigram_set, common}

-- a memory with its embedding, which is nil without a signal
pub record Member (W : Type 0) : Type 0 where
  pub item : EpisodicScanItem W
  pub embedding : Option (List W)

-- a running sum, and how much it adds up
record Tally (W : Type 0) : Type 0 where
  pub total : W
  pub count : ℕ

-- the closest two clusters so far, by their positions, and how close they are
pub record Best (W : Type 0) : Type 0 where
  pub at : Option (ℕ × ℕ)
  pub sim : W

unfoldable pub without_nth {ℓ} : {A : Type ℓ} → ℕ → List A → List A
without_nth i [] = []
without_nth zero (x ∷ xs) = xs
without_nth (suc i) (x ∷ xs) = x ∷ without_nth i xs

module _ {W : Type 0} ⦃d : Float64 W⦄ where
  -- `lexicalClusterMergeThreshold`
  abbrev pub lexical_cluster_merge_threshold : W
  lexical_cluster_merge_threshold = d.ratio 3 10

  -- `charBigramOverlap`; its bigrams keep the case.
  unfoldable pub char_bigram_overlap : Text → Text → W
  char_bigram_overlap a b =
      let sa = char_bigram_set a in
      let sb = char_bigram_set b in
      if is_empty a || is_empty b
      then zero_f
      else if is_empty sa || is_empty sb
      then zero_f
      else d.ratio (2 * common sa sb) (length sa + length sb)

  -- a vector with a component that is not zero
  unfoldable pub signal : Option (List W) → Option (List W)
  signal none = none
  signal (some v) = if has_magnitude v then some v else none

  unfoldable pub members : (Text → Option (List W)) → List (EpisodicScanItem W) → List (Member W)
  unfolding signal
  members embedder [] = []
  members embedder (ep ∷ eps) =
      record { item = ep; embedding = signal (embedder ep.summary) } ∷ members embedder eps

  add_similarity : Option (List W) → Option (List W) → Tally W → Tally W
  add_similarity (some a) (some b) t = record {
    total = d.add t.total (cosine_similarity a b);
    count = t.count + 1;
  }
  add_similarity _ _ t = t

  similarities_of : Tally W → Member W → List (Member W) → Tally W
  unfolding add_similarity
  similarities_of t m [] = t
  similarities_of t m (n ∷ b) = similarities_of (add_similarity m.embedding n.embedding t) m b

  similarities : Tally W → List (Member W) → List (Member W) → Tally W
  unfolding similarities_of
  similarities t [] b = t
  similarities t (m ∷ a) b = similarities (similarities_of t m b) a b

  overlaps_of : Tally W → Member W → List (Member W) → Tally W
  overlaps_of t m [] = t
  overlaps_of t m (n ∷ b) =
      overlaps_of
        (record {
          total = d.add t.total (char_bigram_overlap m.item.summary n.item.summary);
          count = t.count + 1;
        })
        m b

  overlaps : Tally W → List (Member W) → List (Member W) → Tally W
  unfolding overlaps_of
  overlaps t [] b = t
  overlaps t (m ∷ a) b = overlaps (overlaps_of t m b) a b

  no_tally : Tally W
  no_tally = record { total = zero_f; count = 0 }

  -- `bigramOverlapCluster`
  unfoldable pub bigram_overlap_cluster : List (Member W) → List (Member W) → W
  unfolding overlaps no_tally
  bigram_overlap_cluster a b =
      let t = overlaps no_tally a b in
      if ltb 0 t.count then d.div t.total (of_nat t.count) else zero_f

  unfoldable pub cluster_similarity : List (Member W) → List (Member W) → W
  unfolding similarities no_tally bigram_overlap_cluster
  cluster_similarity a b =
      let t = similarities no_tally a b in
      if is_empty a || is_empty b
      then zero_f
      else if ltb 0 t.count
      then d.div t.total (of_nat t.count)
      else bigram_overlap_cluster a b

  unfoldable pub no_best : Best W
  no_best = record { at = none; sim = zero_f }

  -- One pair of the loops is compared with the best so far.
  unfoldable pub better : Best W → ℕ → ℕ → List (Member W) → List (Member W) → Best W
  better best i j a b =
      let sim = cluster_similarity a b in
      if d.lt best.sim sim then record { at = some (i, j); sim = sim } else best

  -- the inner loop, at the position `j` of its list
  unfoldable pub best_of : Best W → ℕ → ℕ → List (Member W) → List (List (Member W)) → Best W
  best_of best i j a [] = best
  best_of best i j a (b ∷ bs) = best_of (better best i j a b) i (suc j) a bs

  -- the outer loop, at the position `i` of its list
  unfoldable pub best_from : Best W → ℕ → List (List (Member W)) → Best W
  best_from best i [] = best
  best_from best i (c ∷ cs) = best_from (best_of best i (suc i) c cs) (suc i) cs

  -- the positions of the pair to be merged, or none where the loop ends
  unfoldable pub chosen : W → Best W → Option (ℕ × ℕ)
  chosen threshold best = if d.lt best.sim threshold then none else best.at

  -- `clusters[bestI] = append(...)`, and `clusters[bestJ]` is taken out.
  unfoldable pub merge_at : ℕ → ℕ → List (List (Member W)) → List (List (Member W))
  merge_at i j cs = without_nth j (set cs i (get_or cs i [] ++ get_or cs j []))

  -- The loop, with fuel: each round leaves one cluster less.
  unfoldable pub merge_closest : W → ℕ → List (List (Member W)) → List (List (Member W))
  merge_closest threshold zero cs = cs
  merge_closest threshold (suc n) cs = elim (chosen threshold (best_from no_best 0 cs)) [
    | none ↦ cs
    | some (i, j) ↦ merge_closest threshold n (merge_at i j cs)
  ]

  -- Whether all embeddings are without a signal.
  unfoldable pub lexical_mode : List (Member W) → Bool
  lexical_mode ms = not (any (λ (m : Member W). is_some m.embedding) ms)

  singletons : List (Member W) → List (List (Member W))
  singletons [] = []
  singletons (m ∷ ms) = (m ∷ []) ∷ singletons ms

  abbrev pub items_of : List (Member W) → List (EpisodicScanItem W)
  items_of ms = map (λ (m : Member W). m.item) ms

  -- the threshold of the loop
  unfoldable pub threshold_for : W → List (Member W) → W
  unfolding lexical_mode
  threshold_for merge_threshold ms =
      if lexical_mode ms then lexical_cluster_merge_threshold else merge_threshold

  -- `subCluster`
  unfoldable pub sub_cluster :
      (Text → Option (List W)) → W → List (EpisodicScanItem W) → List (List (EpisodicScanItem W))
  unfolding members singletons
  sub_cluster embedder merge_threshold eps =
      let ms = members embedder eps in
      let threshold = threshold_for merge_threshold ms in
      if leb (length eps) 1
      then eps ∷ []
      else map items_of (merge_closest threshold (length eps) (singletons ms))
