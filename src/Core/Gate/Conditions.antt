-- ===== src/Core/Gate/Conditions.antt =====
-- What internal/core/significance_gate.go decides.
use vatbrain.Prelude.{
  ◌≡◌, ◌⊎◌, inl, inr, refl, true, false, ◌||◌, List, [], ◌∷◌, Option, none, some, leb,
  if◌then◌else◌, keep, Option-cases, arith,
}
use vatbrain.Prelude.Text.{Text}
use vatbrain.Float.{Float64, zero_f}
use vatbrain.Vector.{has_magnitude}
use vatbrain.Core.Gate.{
  SignificanceGate, WriteEvent, WorkingMemoryCycle, embedding_similarity, similarity_of, similar,
  count_recent_cycles, count_with, evaluate, token_overlap,
}

module _ {W : Type 0} ⦃d : Float64 W⦄ where
  -- An event is kept exactly if one of the four conditions holds, and otherwise the reason says that
  -- it is below the threshold.
  pub persists-or-below :
      (g : SignificanceGate W) (event : WriteEvent) (cs : List WorkingMemoryCycle)
      → ((evaluate g event cs).should_persist ≡ (
          event.user_confirmed
          || leb g.min_cross_cycle_count (count_recent_cycles g event cs)
          || event.is_correction
          || event.caused_behavior_change
          || leb g.min_subsequent_refs event.subsequent_reference_count))
        × (((evaluate g event cs).should_persist ≡ true)
            ⊎ ((evaluate g event cs).reason ≡ "below_threshold"))
  unfolding evaluate
  persists-or-below g event cs = ground arith

  -- No signal: an error, or a vector without magnitude.
  abbrev pub IsSilent : (Text → Option (List W)) → Type 0
  IsSilent embed = (t : Text) (v : List W) → embed t ≡ some v → has_magnitude v ≡ false

  embedding_similarity-silent :
      (embed : Text → Option (List W)) (a b : Text)
      → IsSilent embed
      → embedding_similarity embed a b ≡ none
  unfolding embedding_similarity similarity_of
  embedding_similarity-silent embed a b h = elim (Option-cases (embed a)) [
    | inl e ↦ rw e refl
    | inr (v, e) ↦ elim (Option-cases (embed b)) [
      | inl e' ↦ rw (e, e') refl
      | inr (w, e') ↦ let k = h a v e in rw (e, e') (ground arith)
    ]
  ]

  count-silent :
      (embed : Text → Option (List W)) (t : W) (s : Text) (cs : List WorkingMemoryCycle)
      → IsSilent embed
      → keep (λ c. similar t s c.summary (embedding_similarity embed s c.summary)) cs
        ≡ keep (λ c. token_overlap s c.summary) cs
  unfolding similar
  count-silent embed t s [] h = refl
  count-silent embed t s (c ∷ cs) h =
      rw (embedding_similarity-silent embed s c.summary h, count-silent embed t s cs h)

  -- With an embedder that gives no signal the gate decides as it does without an embedder.
  pub silent_embedder-evaluate :
      (g : SignificanceGate W) (embed : Text → Option (List W)) (event : WriteEvent)
      (cs : List WorkingMemoryCycle)
      → IsSilent embed
      → evaluate (record g { embedder = some embed }) event cs
        ≡ evaluate (record g { embedder = none }) event cs
  unfolding evaluate count_recent_cycles count_with
  silent_embedder-evaluate g embed event cs h =
      let t =
        if d.le g.embed_similarity_threshold zero_f
        then d.ratio 7 10
        else g.embed_similarity_threshold in
      rw (count-silent embed t event.summary cs h)
