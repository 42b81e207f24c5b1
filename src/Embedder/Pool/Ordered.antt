-- ===== src/Embedder/Pool/Ordered.antt =====
-- The worker pool of internal/embedder/batch.go keeps the order of its texts, whatever the order of its
-- chunks.
use vatbrain.Prelude.{
  length-map, ℕ, zero, suc, ◌+◌, ◌-◌, ◌≤◌, ◌<◌, ◌≡◌, refl, sym, ap, ◌∙◌, ◌⊎◌, inl, inr, Bool-cases,
  true, List, [], ◌∷◌, some, map, length, get_or, replicate, length-replicate, All, All-In, All-imp,
  In, ltb, nat_eq, ◌==◌, arith, if◌then◌else◌,
}
use mathlib.Core.Path.{subst}
use vatbrain.Prelude.Result.{Result, ok}
use vatbrain.Prelude.Text.{Text}
use vatbrain.Embedder.Pool.Copied.{
  get_or-ext, length-copy_at, copy_at-outside, copy_at-inside, map-slice, length-slice,
}
use vatbrain.Embedder.Pool.{
  EmbedChunk, BatchEmbedder, chunks_from, slice, copy_at, store_chunk, run_jobs, pool_embed_batch,
}

abbrev Covers : EmbedChunk → ℕ → Type 0
Covers c j = (c.start ≤ j) × (j < c.end)

-- The chunk is within `n` texts.
abbrev IsWithin : ℕ → EmbedChunk → Type 0
IsWithin n c = (c.start ≤ c.end) × (c.end ≤ n)

before_or_after : (c : EmbedChunk) (j : ℕ) → Covers c j ⊎ ((j < c.start) ⊎ (c.end ≤ j))
before_or_after c j = ground arith

chunks_from-IsWithin : (fuel start n size : ℕ) → All (IsWithin n) (chunks_from fuel start n size)
unfolding chunks_from
chunks_from-IsWithin zero start n size = tt
chunks_from-IsWithin (suc fuel) start n size =
    let rest = chunks_from-IsWithin fuel (start + size) n size in
    elim (Bool-cases (ltb start n)) [ inr e ↦ rw e tt | inl e ↦ rw e (ground arith, rest) ]

-- Every position from the start on is in a chunk.
chunks_from-Covers :
    (fuel start n size j : ℕ)
    → 0 < size
    → n ≤ start + fuel
    → start ≤ j
    → j < n
    → (c : EmbedChunk) × In c (chunks_from fuel start n size) × Covers c j
unfolding chunks_from
chunks_from-Covers zero start n size j p h l u = absurd (omega (arith, h, l, u))
chunks_from-Covers (suc fuel) start n size j p h l u =
    let e : ltb start n ≡ true = ground arith in
    elim (Bool-cases (ltb j (start + size))) [
      | inl k ↦ rw e (
        record { start = start; end = if ltb n (start + size) then n else start + size },
        inl refl,
        (l, ground arith),
      )
      | inr k ↦
          let (c, i, cov) =
            chunks_from-Covers fuel (start + size) n size j p (omega (arith, h, p)) (ground arith)
              u in
          rw e (c, inr i, cov)
    ]

module _ {W : Type 0} (f : Text → List W) (texts : List Text) where
  abbrev each : List Text → Result (List (List W))
  each ts = ok (map f ts)

  -- The slice has the vector of the text at that position.
  abbrev IsRight : List (List W) → ℕ → Type 0
  IsRight out j = get_or out j [] ≡ get_or (map f texts) j []

  store_chunk-IsRight :
      (c : EmbedChunk) (out : List (List W))
      → IsWithin (length texts) c
      → length out ≡ length texts
      → (out' : List (List W)) × (store_chunk c (each (slice texts c.start c.end)) out ≡ ok out')
        × (length out' ≡ length texts)
        × ((j : ℕ) → Covers c j → IsRight out' j)
        × ((j : ℕ) → IsRight out j → IsRight out' j)
  unfolding store_chunk
  store_chunk-IsRight c out (le, within) len =
      let vs = map f (slice texts c.start c.end) in
      let n : length vs ≡ c.end - c.start =
        length-map f (slice texts c.start c.end) ∙ length-slice texts c.start c.end le within in
      let e : (length vs == c.end - c.start) ≡ true = ground (arith, n) in
      let right : (j : ℕ) → Covers c j → IsRight (copy_at c.start vs out) j = λ j (l, u).
        let k : c.start + (j - c.start) ≡ j = omega (arith, l) in
        subst (IsRight (copy_at c.start vs out)) k (
          copy_at-inside c.start (j - c.start) vs out [] (omega (arith, n, l, u))
            (omega (arith, n, le, within, len))
          ∙ map-slice f texts c.start c.end (j - c.start) [] (omega (arith, l, u))) in
      (
        copy_at c.start vs out,
        rw e refl,
        length-copy_at c.start vs out ∙ len,
        right,
        λ j h. elim (before_or_after c j) [
          | inl cov ↦ right j cov
          | inr away ↦
              copy_at-outside c.start j vs out []
                (elim away [ inl a ↦ inl a | inr b ↦ inr (omega (arith, n, le, b)) ])
              ∙ h
        ],
      )

  run_jobs-each :
      (cs : List EmbedChunk) (out : List (List W))
      → All (IsWithin (length texts)) cs
      → length out ≡ length texts
      → ((j : ℕ) → j < length texts → ((c : EmbedChunk) × In c cs × Covers c j) ⊎ IsRight out j)
      → run_jobs each texts cs (ok out) ≡ ok (map f texts)
  unfolding run_jobs
  run_jobs-each [] out w len h =
      ap (λ x. ok x)
        (get_or-ext [] out (map f texts) (len ∙ sym (length-map f texts))
          (λ j l. elim (h j (omega (arith, l, len))) [ inl (c, i, cov) ↦ absurd i | inr r ↦ r ]))
  run_jobs-each (c ∷ cs) out (w, ws) len h =
      let (out', e, len', done, still) = store_chunk-IsRight c out w len in
      rw e (
        run_jobs-each cs out' ws len' (λ j l. elim (h j l) [
          | inr r ↦ inr (still j r)
          | inl (c', inr i, cov) ↦ inl (c', i, cov)
          | inl (c', inl same, cov) ↦ inr (done j (subst (λ x. Covers x j) same cov))
        ]))

-- In whatever order the workers finish the chunks, if each chunk is finished and an embedder of batches
-- gives each text its own vector, the pool succeeds and gives the vectors in the order of the texts.
pub pool_embed_batch-ordered :
    {W : Type 0} (f : Text → List W) (b : BatchEmbedder W)
    (schedule : List EmbedChunk → List EmbedChunk) (texts : List Text)
    → b.inner ≡ some (λ ts. ok (map f ts))
    → 0 < b.batch_size
    → ((cs : List EmbedChunk) → All (λ c. In c cs) (schedule cs))
    → ((cs : List EmbedChunk) → All (λ c. In c (schedule cs)) cs)
    → pool_embed_batch b schedule texts ≡ ok (map f texts)
unfolding pool_embed_batch
pool_embed_batch-ordered f b schedule [] e p from_all to_all = rw e refl
pool_embed_batch-ordered {W = W} f b schedule (t ∷ ts) e p from_all to_all =
    let n = length (t ∷ ts) in
    let cs = chunks_from n 0 n b.batch_size in
    rw e (
      run_jobs-each f (t ∷ ts) (schedule cs) (replicate n [])
        (All-imp {P = λ c. In c cs} {Q = IsWithin n}
          (λ c i. All-In (IsWithin n) cs (chunks_from-IsWithin n 0 n b.batch_size) i) (schedule cs)
          (from_all cs))
        (length-replicate n [])
        (λ j l.
          let (c, i, cov) =
            chunks_from-Covers n 0 n b.batch_size j p (omega arith) (omega arith) l in
          inl (c, All-In (λ c. In c (schedule cs)) cs (to_all cs) i, cov)))
