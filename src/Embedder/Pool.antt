-- ===== src/Embedder/Pool.antt =====
-- The worker pool of internal/embedder/batch.go. The workers take chunks from a channel and write to
-- disjoint parts of one slice; the order in which the chunks are finished is a parameter. A failure
-- ends the batch, and what is written then is dropped. Contexts are left out.
pub mod Copied
pub mod Ordered
use vatbrain.Prelude.{
  ℕ, zero, suc, ◌+◌, ◌-◌, ◌/◌, Bool, List, [], ◌∷◌, Option, none, some, length, take, drop, set,
  replicate, ltb, leb, nat_eq, ◌==◌, if◌then◌else◌,
}
use vatbrain.Prelude.Format.{is_empty}
use vatbrain.Prelude.Int.{ℤ, positive, pos_part}
use vatbrain.Prelude.Result.{Result, ok, err, unsupported, invalid_argument}
use vatbrain.Prelude.Text.{Text}

abbrev pub zhipu_embedding_batch_limit : ℕ
zhipu_embedding_batch_limit = 64

abbrev pub default_batch_workers : ℕ
default_batch_workers = 32

abbrev pub max_batch_workers : ℕ
max_batch_workers = 64

pub record BatchOptions : Type 0 where
  pub workers : ℤ
  pub batch_size : ℤ

-- texts[start:end]
pub record EmbedChunk : Type 0 where
  pub start : ℕ
  pub end : ℕ

-- `inner` is `none` where the embedder is not `BatchCapable`.
pub record BatchEmbedder (W : Type 0) : Type 0 where
  pub inner : Option (List Text → Result (List (List W)))
  pub workers : ℕ
  pub batch_size : ℕ

-- the default for what is not positive, and the limit for what is above it
unfoldable pub clamped : ℤ → (default limit : ℕ) → ℕ
clamped n default limit =
    let m = if positive n then pos_part n else default in if ltb limit m then limit else m

unfoldable pub new_batch_embedder :
    {W : Type 0} → Option (List Text → Result (List (List W))) → BatchOptions → BatchEmbedder W
unfolding clamped
new_batch_embedder inner opts = record {
  inner = inner;
  workers = clamped opts.workers default_batch_workers max_batch_workers;
  batch_size = clamped opts.batch_size zhipu_embedding_batch_limit zhipu_embedding_batch_limit;
}

-- The chunks that are sent, with fuel: each round goes on by a chunk of one text at least.
unfoldable pub chunks_from : (fuel start n size : ℕ) → List EmbedChunk
chunks_from zero start n size = []
chunks_from (suc fuel) start n size =
    let end = start + size in
    let rest = chunks_from fuel end n size in
    if ltb start n then record { start = start; end = if ltb n end then n else end } ∷ rest else []

unfoldable pub slice : {A : Type 0} → List A → (a b : ℕ) → List A
slice xs a b = take (b - a) (drop a xs)

-- `copy(out[i:], vecs)`
unfoldable pub copy_at : {A : Type 0} → ℕ → List A → List A → List A
copy_at i [] out = out
copy_at i (v ∷ vs) out = copy_at (suc i) vs (set out i v)

module _ {W : Type 0} where
  -- A chunk's vectors are written if there is one for each text.
  unfoldable pub store_chunk :
      EmbedChunk → Result (List (List W)) → List (List W) → Result (List (List W))
  unfolding copy_at
  store_chunk c (err e) out = err e
  store_chunk c (ok vecs) out =
      if length vecs == c.end - c.start then ok (copy_at c.start vecs out) else err invalid_argument

  -- the loop over the chunks, in the order in which they are finished
  unfoldable pub run_jobs :
      (List Text → Result (List (List W)))
      → List Text
      → List EmbedChunk
      → Result (List (List W))
      → Result (List (List W))
  unfolding store_chunk slice
  run_jobs inner texts [] r = r
  run_jobs inner texts (c ∷ cs) (err e) = err e
  run_jobs inner texts (c ∷ cs) (ok out) =
      run_jobs inner texts cs (store_chunk c (inner (slice texts c.start c.end)) out)

  -- `BatchEmbedder.EmbedBatch`
  unfoldable pub pool_embed_batch :
      BatchEmbedder W → (List EmbedChunk → List EmbedChunk) → List Text → Result (List (List W))
  unfolding run_jobs chunks_from
  pool_embed_batch b schedule texts = elim b.inner [
    | none ↦ err unsupported
    | some inner ↦
        if is_empty texts
        then ok []
        else run_jobs inner texts
            (schedule (chunks_from (length texts) 0 (length texts) b.batch_size))
            (ok (replicate (length texts) []))
  ]
