-- ===== src/Vector.antt =====
-- internal/vector/vector.go: cosine similarity and top-K. A vector is a list of `float64`; the
-- conversions between float32 and float64 are not modelled, so both lengths have one element type.
pub mod Encoded
use vatbrain.Prelude.{
  ℕ, suc, Bool, not, ◌||◌, List, [], ◌∷◌, map, length, any, take, ltb, nat_eq, ◌!=◌, if◌then◌else◌,
}
use vatbrain.Prelude.Int.{ℤ, pos_part, positive}
pub use vatbrain.Prelude.Format.{is_empty}
use vatbrain.Prelude.Sort.{sort_by}
use vatbrain.Float.{Float64, zero_f}

pub record Indexed {ℓ} (W : Type ℓ) : Type ℓ where
  pub idx : ℕ
  pub score : W

module _ {ℓ} {W : Type ℓ} ⦃d : Float64 W⦄ where
  -- One pass of the loop adds to the dot product and to both squared norms.
  dot_loop : W → List W → List W → W
  dot_loop acc (x ∷ a) (y ∷ b) = dot_loop (d.add acc (d.mul x y)) a b
  dot_loop acc _ _ = acc

  -- `CosineSimilarity`, and `cosineSimilarity` of core, which is the same code.
  unfoldable pub cosine_similarity : List W → List W → W
  unfolding dot_loop
  cosine_similarity a b =
      let norm_a = dot_loop zero_f a a in
      let norm_b = dot_loop zero_f b b in
      if is_empty a || is_empty b || length a != length b
      then zero_f
      else if d.eq norm_a zero_f || d.eq norm_b zero_f
      then zero_f
      else d.div (dot_loop zero_f a b) (d.mul (d.sqrt norm_a) (d.sqrt norm_b))

  unfoldable pub dot_product : List W → List W → W
  unfolding dot_loop
  dot_product a b =
      if is_empty a || is_empty b || length a != length b then zero_f else dot_loop zero_f a b

  -- `vectorHasMagnitude`
  unfoldable pub has_magnitude : List W → Bool
  has_magnitude v = any (λ x. not (d.eq x zero_f)) v

  indexed_from : ℕ → List W → List (Indexed W)
  indexed_from i [] = []
  indexed_from i (s ∷ scores) = record { idx = i; score = s } ∷ indexed_from (suc i) scores

  higher : Indexed W → Indexed W → Bool
  higher a b = if d.eq a.score b.score then ltb a.idx b.idx else d.lt b.score a.score

  unfoldable pub top_k : List W → ℤ → List ℕ
  unfolding indexed_from higher
  top_k scores k =
      let items = sort_by higher (indexed_from 0 scores) in
      let n = if ltb (length items) (pos_part k) then length items else pos_part k in
      if positive k then map (λ (x : Indexed W). x.idx) (take n items) else []
