-- ===== src/Embedder/Keyword.antt =====
-- internal/embedder/keyword.go and stub_embedder.go: vectors from hashed bigrams, and zero vectors.
pub mod Hashed
use vatbrain.Prelude.{
  ℕ, zero, suc, ◌+◌, ◌*◌, ◌/◌, ◌%◌, ◌^◌, ◌-◌, Bool, nat_eq, ◌==◌, List, [], ◌∷◌, ◌++◌, map, get_or,
  set, replicate, ltb, leb, if◌then◌else◌,
}
use vatbrain.Prelude.Text.{Text, codes}
use vatbrain.Float.{Float64, zero_f, one_f, neg}

-- the exclusive or of the lowest `k` bits
unfoldable pub xor_bits : ℕ → ℕ → ℕ → ℕ
xor_bits zero a b = 0
xor_bits (suc k) a b = (a + b) % 2 + 2 * xor_bits k (a / 2) (b / 2)

-- the bytes of a rune in UTF-8
unfoldable pub utf8 : ℕ → List ℕ
utf8 c =
    if ltb c 128
    then c ∷ []
    else if ltb c 2048
    then (192 + c / 64) ∷ (128 + c % 64) ∷ []
    else if ltb c 65536
    then (224 + c / 4096) ∷ (128 + c / 64 % 64) ∷ (128 + c % 64) ∷ []
    else (240 + c / 262144) ∷ (128 + c / 4096 % 64) ∷ (128 + c / 64 % 64) ∷ (128 + c % 64) ∷ []

unfoldable pub utf8_bytes : Text → List ℕ
unfolding utf8
utf8_bytes [] = []
utf8_bytes (c ∷ s) = utf8 c ++ utf8_bytes s

-- One round of FNV-1a: a byte changes the lowest 8 bits, and the product wraps round.
unfoldable pub hash_byte : ℕ → ℕ → ℕ
unfolding xor_bits
hash_byte h b = (h / 256 * 256 + xor_bits 8 (h % 256) b) * 1099511628211 % 2 ^ 64

unfoldable pub hash_from : ℕ → List ℕ → ℕ
unfolding hash_byte
hash_from h [] = h
hash_from h (b ∷ bs) = hash_from (hash_byte h b) bs

-- `hashString`
unfoldable pub hash_string : Text → ℕ
unfolding hash_from utf8_bytes
hash_string s = hash_from 14695981039346656037 (utf8_bytes s)

-- `charBigrams`, in order and with repetitions
unfoldable pub char_bigram_list : Text → List Text
char_bigram_list [] = []
char_bigram_list (a ∷ []) = (a ∷ []) ∷ []
char_bigram_list (a ∷ b ∷ []) = (a ∷ b ∷ []) ∷ []
char_bigram_list (a ∷ b ∷ c ∷ s) = (a ∷ b ∷ []) ∷ char_bigram_list (b ∷ c ∷ s)

module _ {W : Type 0} ⦃d : Float64 W⦄ where
  -- the sign of a bigram
  unfoldable pub sign_of : Text → W
  unfolding hash_string
  sign_of bg = if hash_string (codes "s" ++ bg) % 2 == 1 then neg one_f else one_f

  -- One bigram is added at the place of its hash.
  unfoldable pub add_bigram : ℕ → List W → Text → List W
  unfolding hash_string sign_of
  add_bigram dim v bg =
      let i = hash_string bg % dim in set v i (d.add (get_or v i zero_f) (sign_of bg))

  unfoldable pub add_bigrams : ℕ → List W → List Text → List W
  unfolding add_bigram
  add_bigrams dim v [] = v
  add_bigrams dim v (bg ∷ bgs) = add_bigrams dim (add_bigram dim v bg) bgs

  unfoldable pub norm_from : W → List W → W
  norm_from n [] = n
  norm_from n (x ∷ xs) = norm_from (d.add n (d.mul x x)) xs

  -- unit length, but for a zero vector
  unfoldable pub normalized : List W → List W
  unfolding norm_from
  normalized v =
      let norm = norm_from zero_f v in
      if d.eq norm zero_f then v else map (λ x. d.div x (d.sqrt norm)) v

  -- `KeywordEmbedder.Embed`, which returns no error
  unfoldable pub keyword_embed : ℕ → Text → List W
  unfolding add_bigrams normalized char_bigram_list
  keyword_embed dim text =
      normalized (add_bigrams dim (replicate dim zero_f) (char_bigram_list text))

  -- `KeywordEmbedder.EmbedBatch`
  unfoldable pub keyword_embed_batch : ℕ → List Text → List (List W)
  keyword_embed_batch dim texts = map (keyword_embed dim) texts

  -- `StubEmbedder.Embed`
  unfoldable pub stub_embed : ℕ → Text → List W
  stub_embed dim text = replicate dim zero_f
