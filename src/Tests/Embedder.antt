-- ===== src/Tests/Embedder.antt =====
-- The theorems on internal/embedder, applied to small batches.
use vatbrain.Prelude.{
  ℕ, suc, ◌≤◌, ◌<◌, ◌≡◌, refl, List, [], ◌∷◌, Option, some, none, map, length, get_or, All,
  All-append, In, In-All, In-append_left, In-append_right, inl, inr, ◌++◌, ◌∙◌, ap, nat_eq, ◌==◌,
  if◌then◌else◌, arith,
}
use mathlib.Core.Option.{some-injective}
use vatbrain.Prelude.Int.{pos}
use vatbrain.Prelude.Result.{ok}
use vatbrain.Prelude.Text.{Text, codes}
use vatbrain.Float.Fixed.{Fixed, fixed_float}
use vatbrain.Embedder.Dual.{
  SemanticProvider, DualChannelEmbedder, dual_embed, dual_embed_batch, IsBatched,
  dual_embed_batch-each,
}
use vatbrain.Embedder.Openai.{
  EmbedData, EmbeddingService, embed_chunk_with_retry, reorder_batch_vectors,
}
use vatbrain.Embedder.Openai.Placed.{reorder_batch_vectors-placed}
use vatbrain.Embedder.Openai.Retried.{IsFair, embed_chunk_with_retry-IsFair}
use vatbrain.Embedder.Pool.{EmbedChunk, BatchEmbedder, pool_embed_batch}
use vatbrain.Embedder.Pool.Ordered.{pool_embed_batch-ordered}

abbrev vector : Text → List Fixed
vector t = some (pos (length t)) ∷ []

abbrev texts : List Text
texts = codes "pool" ∷ codes "lock" ∷ codes "deadlock" ∷ []

abbrev pool : BatchEmbedder Fixed
pool = record { inner = some (λ ts. ok (map vector ts)); workers = 2; batch_size = 2 }

-- The last chunk is finished first.
abbrev last_first : List EmbedChunk → List EmbedChunk
last_first [] = []
last_first (c ∷ cs) = last_first cs ++ c ∷ []

In-last_first : (c : EmbedChunk) (cs : List EmbedChunk) → In c cs → In c (last_first cs)
In-last_first c [] i = i
In-last_first c (x ∷ cs) (inl e) = In-append_right c (last_first cs) (x ∷ []) (inl e)
In-last_first c (x ∷ cs) (inr i) = In-append_left c (last_first cs) (x ∷ []) (In-last_first c cs i)

last_first-All : (P : EmbedChunk → Type 0) (cs : List EmbedChunk) → All P cs → All P (last_first cs)
last_first-All P [] h = tt
last_first-All P (c ∷ cs) (h, hs) =
    All-append P (last_first cs) (c ∷ []) (last_first-All P cs hs) (h, tt)

pool_embed_batch-ordered_example : pool_embed_batch pool last_first texts ≡ ok (map vector texts)
pool_embed_batch-ordered_example =
    pool_embed_batch-ordered vector pool last_first texts refl (omega arith)
      (λ cs. last_first-All (λ c. In c cs) cs (In-All (λ c. In c cs) cs (λ c i. i)))
      (λ cs. In-All (λ c. In c (last_first cs)) cs (λ c i. In-last_first c cs i))

-- A service that limits the rate of the first request and answers the later ones.
abbrev busy : EmbeddingService Fixed ℕ ℕ
busy = record {
  post = λ ts n. (some (if n == 0 then 429 else 200, length ts), suc n);
  decode = λ b. some (record { embedding = some (pos 1000) ∷ []; index = pos 0 } ∷ []);
  error_code = λ b. none;
}

embed_chunk_with_retry-IsFair_example :
    let a = embed_chunk_with_retry busy 5 250000000 (codes "pool" ∷ []) 0 in
    (length a.waits ≤ 5) × All (IsFair 250000000) a.waits
embed_chunk_with_retry-IsFair_example =
    embed_chunk_with_retry-IsFair busy 5 250000000 (codes "pool" ∷ []) 0 (omega arith) (omega arith)

-- the second text first
abbrev items : List (EmbedData Fixed)
items =
    record { embedding = some (pos 2) ∷ []; index = pos 1 }
    ∷ record { embedding = some (pos 1) ∷ []; index = pos 0 }
    ∷ []

reorder_batch_vectors-placed_example :
    let vs = reorder_batch_vectors items 2 in
    (length vs ≡ 2)
    × ((k : ℕ)
        → k < 2
        → get_or vs (get_or (1 ∷ 0 ∷ []) k 0) []
          ≡ get_or (map (λ (e : EmbedData Fixed). e.embedding) items) k [])
reorder_batch_vectors-placed_example =
    reorder_batch_vectors-placed items (1 ∷ 0 ∷ []) refl (omega arith, (omega arith, tt))
      (((λ e. omega (arith, e)), tt), (tt, tt))

abbrev provider : SemanticProvider Fixed
provider = record { embed = λ t. some (vector t); embed_batch = some (λ ts. some (map vector ts)) }

map-some : (ts : List Text) → map provider.embed ts ≡ map (λ v. some v) (map vector ts)
map-some [] = refl
map-some (t ∷ ts) = ap (λ l. some (vector t) ∷ l) (map-some ts)

provider-IsBatched : IsBatched provider
provider-IsBatched = record {
  each = λ f ts vs e a.
      let same =
        ap
          (λ (o : Option (List Text → Option (List (List Fixed)))). elim o [
            | none ↦ none
            | some g ↦ g ts
          ])
          e in
      map-some ts ∙ ap (map (λ v. some v)) (some-injective _ _ (same ∙ a));
}

dual_embed_batch-each_example :
    let e : DualChannelEmbedder Fixed = record { dim = 4; semantic = some provider } in
    dual_embed_batch e texts ≡ map (dual_embed e) texts
dual_embed_batch-each_example = dual_embed_batch-each 4 provider texts provider-IsBatched
