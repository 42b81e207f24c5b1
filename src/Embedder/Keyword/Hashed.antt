-- ===== src/Embedder/Keyword/Hashed.antt =====
-- The bounds of internal/embedder/keyword.go: a hash is a machine word, the place of a bigram is in the
-- vector, and every vector has the dimension of the embedder.
use vatbrain.Prelude.{
  length-map, ℕ, ◌%◌, ◌^◌, ◌<◌, ◌≡◌, refl, ◌∙◌, Bool-cases, inl, inr, List, [], ◌∷◌, length,
  replicate, length-set, length-replicate, All, In-All, arith,
}
use native.Mathlib.Nat.{mod-lt}
use vatbrain.Prelude.Text.{Text}
use vatbrain.Float.{Float64, zero_f}
use vatbrain.Embedder.Keyword.{
  hash_byte, hash_from, hash_string, utf8_bytes, add_bigram, add_bigrams, norm_from, normalized,
  keyword_embed, char_bigram_list,
}

hash_byte-lt : (h b : ℕ) → hash_byte h b < 2 ^ 64
unfolding hash_byte
hash_byte-lt h b = omega arith

hash_from-lt : (h : ℕ) (bs : List ℕ) → h < 2 ^ 64 → hash_from h bs < 2 ^ 64
unfolding hash_from
hash_from-lt h [] lt = lt
hash_from-lt h (b ∷ bs) lt = hash_from-lt (hash_byte h b) bs (hash_byte-lt h b)

module _ {W : Type 0} ⦃d : Float64 W⦄ where
  length-add_bigrams :
      (dim : ℕ) (v : List W) (bgs : List Text) → length (add_bigrams dim v bgs) ≡ length v
  unfolding add_bigrams add_bigram
  length-add_bigrams dim v [] = refl
  length-add_bigrams dim v (bg ∷ bgs) =
      length-add_bigrams dim (add_bigram dim v bg) bgs ∙ length-set v _ _

  length-normalized : (v : List W) → length (normalized v) ≡ length v
  unfolding normalized
  length-normalized v = elim (Bool-cases (d.eq (norm_from zero_f v) zero_f)) [
    | inl e ↦ rw e refl
    | inr e ↦ rw e (length-map _ v)
  ]

-- For a positive dimension, every vector of the keyword channel has that dimension, the hash of a text
-- is a word of 64 bits, and the place of a bigram is inside of the vector.
pub length-keyword_embed :
    (W : Type 0) ⦃d : Float64 W⦄ (dim : ℕ) (text : Text)
    → 0 < dim
    → (length {A = W} (keyword_embed dim text) ≡ dim)
      × (hash_string text < 2 ^ 64)
      × All (λ bg. hash_string bg % dim < dim) (char_bigram_list text)
unfolding keyword_embed hash_string
length-keyword_embed W dim text h = (
  length-normalized {W = W} (add_bigrams dim (replicate dim zero_f) (char_bigram_list text))
      ∙ length-add_bigrams dim (replicate dim zero_f) (char_bigram_list text)
      ∙ length-replicate dim (zero_f {W = W}),
  hash_from-lt 14695981039346656037 (utf8_bytes text) (omega arith),
  In-All (λ bg. hash_string bg % dim < dim) (char_bigram_list text)
      (λ bg i. mod-lt (hash_string bg) h),
)
