-- ===== src/Embedder/Dual.antt =====
-- internal/embedder/dual.go, and its batches in batch.go: the semantic channel where it gives a signal,
-- and the keyword channel elsewhere.
use vatbrain.Prelude.{
  ℕ, ◌≡◌, refl, ap, Bool-cases, inl, inr, ◌∷◌, List, [], Option, none, some, map, length, drop,
  get_or, nat_eq, ◌==◌, arith, if◌then◌else◌,
}
use vatbrain.Prelude.Text.{Text}
use vatbrain.Float.{Float64}
use vatbrain.Vector.{has_magnitude}
use vatbrain.Embedder.Keyword.{keyword_embed}

-- `SemanticProvider`, which may embed a batch
pub record SemanticProvider (W : Type 0) : Type 0 where
  pub embed : Text → Option (List W)
  pub embed_batch : Option (List Text → Option (List (List W)))

pub record DualChannelEmbedder (W : Type 0) : Type 0 where
  pub dim : ℕ
  pub semantic : Option (SemanticProvider W)

module _ {W : Type 0} ⦃d : Float64 W⦄ where
  -- a vector of the semantic channel, or the keyword vector where it has no signal
  unfoldable pub signal_or : ℕ → Text → Option (List W) → List W
  signal_or dim text none = keyword_embed dim text
  signal_or dim text (some v) = if has_magnitude v then v else keyword_embed dim text

  unfoldable pub semantic_vector : Option (SemanticProvider W) → Text → Option (List W)
  semantic_vector none text = none
  semantic_vector (some p) text = p.embed text

  -- `DualChannelEmbedder.Embed`, which returns no error
  unfoldable pub dual_embed : DualChannelEmbedder W → Text → List W
  unfolding signal_or semantic_vector
  dual_embed e text = signal_or e.dim text (semantic_vector e.semantic text)

  -- the vectors of a batch, each with its text
  unfoldable pub fill_batch : ℕ → List Text → List (List W) → List (List W)
  unfolding signal_or
  fill_batch dim [] vs = []
  fill_batch dim (t ∷ ts) [] = []
  fill_batch dim (t ∷ ts) (v ∷ vs) = signal_or dim t (some v) ∷ fill_batch dim ts vs

  semantic_batch : Option (SemanticProvider W) → List Text → Option (List (List W))
  semantic_batch none texts = none
  semantic_batch (some p) texts = elim p.embed_batch [ none ↦ none | some f ↦ f texts ]

  of_batch : DualChannelEmbedder W → List Text → Option (List (List W)) → List (List W)
  unfolding dual_embed fill_batch
  of_batch e texts none = map (dual_embed e) texts
  of_batch e texts (some vs) =
      if length vs == length texts then fill_batch e.dim texts vs else map (dual_embed e) texts

  -- `DualChannelEmbedder.EmbedBatch`, which returns no error
  unfoldable pub dual_embed_batch : DualChannelEmbedder W → List Text → List (List W)
  unfolding of_batch semantic_batch
  dual_embed_batch e texts = of_batch e texts (semantic_batch e.semantic texts)

  -- A provider whose batch, where it answers, is that of its single texts.
  pub record IsBatched (p : SemanticProvider W) : Type 0 where
    pub each :
        (f : List Text → Option (List (List W))) (texts : List Text) (vs : List (List W))
        → p.embed_batch ≡ some f
        → f texts ≡ some vs
        → map p.embed texts ≡ map (λ v. some v) vs

  fill_batch-each :
      (dim : ℕ) (p : SemanticProvider W) (texts : List Text) (vs : List (List W))
      → map p.embed texts ≡ map (λ v. some v) vs
      → fill_batch dim texts vs ≡ map (dual_embed (record { dim = dim; semantic = some p })) texts
  unfolding fill_batch dual_embed semantic_vector
  fill_batch-each dim p [] vs h = refl
  fill_batch-each dim p (t ∷ ts) [] h = absurd (ground arith)
  fill_batch-each dim p (t ∷ ts) (v ∷ vs) h =
      let e : p.embed t ≡ some v = ap (λ l. get_or l 0 none) h in
      let h' : map p.embed ts ≡ map (λ x. some x) vs = ap (drop 1) h in
      rw e (ap (λ l. signal_or dim t (some v) ∷ l) (fill_batch-each dim p ts vs h'))

  of_batch-each :
      (dim : ℕ) (p : SemanticProvider W) (texts : List Text) (r : Option (List (List W)))
      → ((vs : List (List W)) → r ≡ some vs → map p.embed texts ≡ map (λ v. some v) vs)
      → let e : DualChannelEmbedder W = record { dim = dim; semantic = some p } in
        of_batch e texts r ≡ map (dual_embed e) texts
  unfolding of_batch
  of_batch-each dim p texts none h = refl
  of_batch-each dim p texts (some vs) h = elim (Bool-cases (length vs == length texts)) [
    | inl e ↦ rw e (fill_batch-each dim p texts vs (h vs refl))
    | inr e ↦ rw e refl
  ]

  batch_answer :
      (p : SemanticProvider W) (texts : List Text) (vs : List (List W))
      (b : Option (List Text → Option (List (List W))))
      → IsBatched p
      → p.embed_batch ≡ b
      → (elim b [ none ↦ none | some f ↦ f texts ]) ≡ some vs
      → map p.embed texts ≡ map (λ v. some v) vs
  batch_answer p texts vs none h e a = ground arith
  batch_answer p texts vs (some f) h e a = h.each f texts vs e a

  -- A batch of the dual embedder has the vectors that the texts have one by one, wherever the batch of
  -- the semantic channel has.
  pub dual_embed_batch-each :
      (dim : ℕ) (p : SemanticProvider W) (texts : List Text)
      → IsBatched p
      → let e : DualChannelEmbedder W = record { dim = dim; semantic = some p } in
        dual_embed_batch e texts ≡ map (dual_embed e) texts
  unfolding dual_embed_batch semantic_batch
  dual_embed_batch-each dim p texts h =
      of_batch-each dim p texts (semantic_batch (some p) texts)
        (λ vs a. batch_answer p texts vs p.embed_batch h refl a)
