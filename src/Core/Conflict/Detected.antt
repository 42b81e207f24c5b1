-- ===== src/Core/Conflict/Detected.antt =====
-- Which pairs internal/core/conflict.go detects.
use mathlib.Core.Bool.{false≢true}
use vatbrain.Prelude.{
  ℕ, ◌≡◌, ◌≢◌, refl, sym, ap, ◌∙◌, true, false, ◌||◌, none, List, [], ◌∷◌, ◌++◌, length, All,
  All-append, In, In-All, is_some, leb, string_eq, Bool-cases, Option-cases, inl, inr,
  if◌then◌else◌, arith,
}
use vatbrain.Prelude.Dict.{Dict, empty, lookup}
use vatbrain.Prelude.Dict.Entries.{AllPairs, insert-AllPairs, lookup-AllPairs, values-AllPairs}
use vatbrain.Prelude.Text.{Text}
use vatbrain.Float.{Float64, zero_f}
use vatbrain.Models.Common.{MemoryType}
use vatbrain.Models.Semantic.{SemanticMemory}
use vatbrain.Core.Conflict.Directive.{Polarity, detect_polarity, same_polarity, bigram_dice}
use vatbrain.Core.Conflict.{
  ConflictPair, ConflictDetector, bucket_of, bucketed, fill_buckets, contradicts, pairs_with,
  pairs_in, pairs_in_all, detect,
}

same_polarity_refl : (p : Polarity) → same_polarity p p ≡ true
unfolding same_polarity
same_polarity_refl Polarity.neutral = refl
same_polarity_refl Polarity.prohibitive = refl
same_polarity_refl Polarity.affirmative = refl

module _ {W : Type 0} ⦃d : Float64 W⦄ where
  -- The rule is one of those given, and active.
  abbrev pub IsActiveIn : List (SemanticMemory W) → SemanticMemory W → Type 0
  IsActiveIn rules r = In r rules × (r.obsoleted_at ≡ none)

  abbrev IsOf : List (SemanticMemory W) → MemoryType → SemanticMemory W → Type 0
  IsOf rules t r = (r.type ≡ t) × IsActiveIn rules r

  abbrev AllOf : List (SemanticMemory W) → MemoryType → List (SemanticMemory W) → Type 0
  AllOf rules t bucket = All (IsOf rules t) bucket

  bucketed-AllOf :
      (rules : List (SemanticMemory W)) (max : ℕ) (m : Dict MemoryType (List (SemanticMemory W)))
      (r : SemanticMemory W)
      → In r rules
      → AllPairs (AllOf rules) m.entries
      → AllPairs (AllOf rules) (bucketed max m r).entries
  unfolding bucketed bucket_of
  bucketed-AllOf rules max m r i h =
      let bucket = bucket_of (lookup r.type m) in
      let old : AllOf rules r.type bucket = elim (Option-cases (lookup r.type m)) [
        | inl e ↦ rw e tt
        | inr (b, e) ↦ rw e (lookup-AllPairs (AllOf rules) r.type m h e)
      ] in
      elim (Bool-cases (is_some r.obsoleted_at || leb max (length bucket))) [
        | inl e ↦ rw e h
        | inr e ↦
            let active : r.obsoleted_at ≡ none = ground arith in
            rw e (
              insert-AllPairs (AllOf rules) r.type (bucket ++ r ∷ []) m
                (All-append (IsOf rules r.type) bucket (r ∷ []) old ((refl, (i, active)), tt)) h)
      ]

  fill_buckets-AllOf :
      (rules : List (SemanticMemory W)) (max : ℕ) (m : Dict MemoryType (List (SemanticMemory W)))
      (rs : List (SemanticMemory W))
      → All (λ r. In r rules) rs
      → AllPairs (AllOf rules) m.entries
      → AllPairs (AllOf rules) (fill_buckets max m rs).entries
  unfolding fill_buckets
  fill_buckets-AllOf rules max m [] is h = h
  fill_buckets-AllOf rules max m (r ∷ rs) (i, is) h =
      fill_buckets-AllOf rules max (bucketed max m r) rs is (bucketed-AllOf rules max m r i h)

  -- Both contents are directives, of different polarities, and enough of their bigrams are common.
  pub record IsOpposed (min_sim : W) (a b : SemanticMemory W) : Type 0 where
    pub directive_a : (detect_polarity a.content).1 ≡ true
    pub directive_b : (detect_polarity b.content).1 ≡ true
    pub opposite : (detect_polarity a.content).0 ≢ (detect_polarity b.content).0
    pub similar : d.lt (bigram_dice a.content b.content) min_sim ≡ false

  contradicts-IsOpposed :
      (min_sim : W) (a b : SemanticMemory W)
      → contradicts min_sim a b ≡ true
      → IsOpposed min_sim a b
  unfolding contradicts
  contradicts-IsOpposed min_sim a b h =
      let pa = (detect_polarity a.content).0 in
      let pb = (detect_polarity b.content).0 in
      let other : same_polarity pa pb ≡ false = ground (arith, h) in
      record {
        directive_a = ground (arith, h);
        directive_b = ground (arith, h);
        opposite =
            λ e. false≢true (sym other ∙ ap (same_polarity pa) (sym e) ∙ same_polarity_refl pa);
        similar = ground (arith, h);
      }

  module _ (describe : SemanticMemory W → SemanticMemory W → Text) where
    -- Two active rules of one type that contradict each other.
    abbrev pub IsConflict : List (SemanticMemory W) → W → ConflictPair W → Type 0
    IsConflict rules min_sim pair =
        IsActiveIn rules pair.rule_a
        × IsActiveIn rules pair.rule_b
        × (pair.rule_a.type ≡ pair.rule_b.type)
        × IsOpposed min_sim pair.rule_a pair.rule_b

    pairs_with-IsConflict :
        (rules : List (SemanticMemory W)) (t : MemoryType) (min_sim : W) (a : SemanticMemory W)
        (bs : List (SemanticMemory W))
        → IsOf rules t a
        → AllOf rules t bs
        → All (IsConflict rules min_sim) (pairs_with describe min_sim a bs)
    unfolding pairs_with
    pairs_with-IsConflict rules t min_sim a [] h hs = tt
    pairs_with-IsConflict rules t min_sim a (b ∷ bs) (e, h) ((e', k), hs) =
        let rest = pairs_with-IsConflict rules t min_sim a bs (e, h) hs in
        elim (Bool-cases (contradicts min_sim a b)) [
          | inl c ↦ rw c ((h, k, e ∙ sym e', contradicts-IsOpposed min_sim a b c), rest)
          | inr c ↦ rw c rest
        ]

    pairs_in-IsConflict :
        (rules : List (SemanticMemory W)) (t : MemoryType) (min_sim : W)
        (bucket : List (SemanticMemory W))
        → AllOf rules t bucket
        → All (IsConflict rules min_sim) (pairs_in describe min_sim bucket)
    unfolding pairs_in
    pairs_in-IsConflict rules t min_sim [] hs = tt
    pairs_in-IsConflict rules t min_sim (a ∷ bs) (h, hs) =
        All-append (IsConflict rules min_sim) _ _ (pairs_with-IsConflict rules t min_sim a bs h hs)
          (pairs_in-IsConflict rules t min_sim bs hs)

    pairs_in_all-IsConflict :
        (rules : List (SemanticMemory W)) (min_sim : W) (buckets : List (List (SemanticMemory W)))
        → All (λ b. (t : MemoryType) × AllOf rules t b) buckets
        → All (IsConflict rules min_sim) (pairs_in_all describe min_sim buckets)
    unfolding pairs_in_all
    pairs_in_all-IsConflict rules min_sim [] hs = tt
    pairs_in_all-IsConflict rules min_sim (b ∷ bs) ((t, h), hs) =
        All-append (IsConflict rules min_sim) _ _ (pairs_in-IsConflict rules t min_sim b h)
          (pairs_in_all-IsConflict rules min_sim bs hs)

    -- Every pair that is detected consists of two of the given rules, both active and of one type,
    -- with opposite directives and enough bigrams in common.
    pub detect-IsConflict :
        (detector : ConflictDetector W) (rules : List (SemanticMemory W))
        → All
            (IsConflict rules (
              if d.le detector.min_bigram_similarity zero_f
              then d.ratio 25 100
              else detector.min_bigram_similarity))
            (detect describe detector rules)
    unfolding detect
    detect-IsConflict detector rules = pairs_in_all-IsConflict rules _ _ (
        values-AllPairs (AllOf rules) _ _ (λ t b h. (t, h))
          (fill_buckets-AllOf rules _ empty rules (In-All _ rules (λ r i. i)) tt))
