-- ===== src/Core/Update/Covered.antt =====
-- Which memories internal/core/update_tracker.go finds covered.
use vatbrain.Prelude.{
  ◌≡◌, ◌≢◌, refl, true, false, String, none, List, [], ◌∷◌, All, All-imp, In, inl, inr, Bool-cases,
  nat_eq, string_eq, arith,
}
use vatbrain.Float.{Float64}
use vatbrain.Models.Common.{after}
use vatbrain.Models.Episodic.{EpisodicMemory, effective_occurred_at}
use vatbrain.Core.Conflict.Directive.{bigram_dice}
use vatbrain.Core.Update.{
  UpdatePair, UpdateTracker, uncovered, update_pair, detect_update, positive_or,
}

module _ {W : Type 0} ⦃d : Float64 W⦄ where
  -- A pair names a candidate that is active, not the new memory, older than it, and similar enough.
  abbrev pub IsCovered :
      UpdateTracker W → EpisodicMemory W → List (EpisodicMemory W) → UpdatePair W → Type 0
  IsCovered t new olds p =
      (old : EpisodicMemory W) × In old olds
      × (p.old_id ≡ old.id)
      × (old.id ≢ new.id)
      × (old.obsoleted_at ≡ none)
      × (after (effective_occurred_at new) (effective_occurred_at old) ≡ true)
      × (d.lt (bigram_dice new.summary old.summary)
            (positive_or t.min_bigram_similarity (d.ratio 25 100))
          ≡ false)

  covered_facts :
      (t : UpdateTracker W) (new old : EpisodicMemory W)
      → uncovered t new old ≡ false
      → (old.id ≢ new.id)
        × (old.obsoleted_at ≡ none)
        × (after (effective_occurred_at new) (effective_occurred_at old) ≡ true)
        × (d.lt
              (bigram_dice new.summary old.summary)
              (positive_or t.min_bigram_similarity (d.ratio 25 100))
            ≡ false)
  unfolding uncovered
  covered_facts t new old h = (λ e. ground arith, ground arith, ground arith, ground arith)

  module _ (explain : EpisodicMemory W → EpisodicMemory W → W → String) where
    later :
        (t : UpdateTracker W) (new m : EpisodicMemory W) (olds : List (EpisodicMemory W))
        (ps : List (UpdatePair W))
        → All (IsCovered t new olds) ps
        → All (IsCovered t new (m ∷ olds)) ps
    later t new m olds ps h =
        All-imp (λ p (old, i, a, b, c, e, f). (old, inr i, a, b, c, e, f)) ps h

    -- Every memory that is found covered is one of the candidates, still active, about the same
    -- subject, and happened before the new one.
    pub detect_update-IsCovered :
        (t : UpdateTracker W) (new : EpisodicMemory W) (olds : List (EpisodicMemory W))
        → All (IsCovered t new olds) (detect_update explain t new olds)
    unfolding detect_update update_pair
    detect_update-IsCovered t new [] = tt
    detect_update-IsCovered t new (old ∷ olds) =
        let rest = later t new old olds _ (detect_update-IsCovered t new olds) in
        elim (Bool-cases (uncovered t new old)) [
          | inl e ↦ rw e rest
          | inr e ↦
              let (a, b, c, f) = covered_facts t new old e in
              rw e ((old, inl refl, refl, a, b, c, f), rest)
        ]
