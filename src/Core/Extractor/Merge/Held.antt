-- ===== src/Core/Extractor/Merge/Held.antt =====
-- The properties of pitfalls that internal/core/pitfall_extractor.go keeps when it joins them.
use vatbrain.Prelude.{
  ℕ, zero, suc, ◌≡◌, refl, sym, ◌∙◌, inl, inr, Bool-cases, true, not, String, string_eq, List, [],
  Option, ◌∷◌, map, length, keep, All, All-keep, leb, arith, eq_iff,
}
use vatbrain.Prelude.Text.{Text}
use vatbrain.Float.{Float64}
use vatbrain.Models.Pitfall.{PitfallMemory}
use vatbrain.Core.Extractor.Merge.{
  Signed, absorb, merge_pitfall, merge_all, merge_pitfall_group, pitfalls_of, signed, same_pitfall,
  merge_groups, deduplicate_pitfalls,
}

same_pitfall-entity_id :
    {W : Type 0} ⦃d : Float64 W⦄ (threshold : W) (a b : Signed W)
    → same_pitfall threshold a b ≡ true
    → b.pitfall.entity_id ≡ a.pitfall.entity_id
unfolding same_pitfall
same_pitfall-entity_id threshold a b e =
    ground (arith, eq_iff a.pitfall.entity_id b.pitfall.entity_id)

module _ {W : Type 0} ⦃d : Float64 W⦄ (P : PitfallMemory W → Type 0)
    (joins : (a b : PitfallMemory W)
      → a.entity_id ≡ b.entity_id
      → P a
      → P b
      → P (merge_pitfall a b)) where
  abbrev IsOf : String → PitfallMemory W → Type 0
  IsOf entity p = (p.entity_id ≡ entity) × P p

  merge_pitfall-entity_id :
      (a b : PitfallMemory W)
      → a.entity_id ≡ b.entity_id
      → (merge_pitfall a b).entity_id ≡ a.entity_id
  unfolding merge_pitfall absorb
  merge_pitfall-entity_id a b e = ground (arith, eq_iff a.entity_id b.entity_id)

  merge_all-holds :
      (entity : String) (p : PitfallMemory W) (others : List (PitfallMemory W))
      → IsOf entity p
      → All (IsOf entity) others
      → P (merge_all p others)
  unfolding merge_all
  merge_all-holds entity p [] (e, h) hs = h
  merge_all-holds entity p (o ∷ os) (e, h) ((e', k), hs) =
      merge_all-holds entity (merge_pitfall p o) os
        (merge_pitfall-entity_id p o (e ∙ sym e') ∙ e, joins p o (e ∙ sym e') h k) hs

  members-IsOf :
      (threshold : W) (s : Signed W) (ss : List (Signed W))
      → All (λ (x : Signed W). P x.pitfall) ss
      → All (IsOf s.pitfall.entity_id) (pitfalls_of (keep (same_pitfall threshold s) ss))
  unfolding pitfalls_of
  members-IsOf threshold s [] h = tt
  members-IsOf threshold s (x ∷ ss) (h, hs) = elim (Bool-cases (same_pitfall threshold s x)) [
    | inl e ↦ rw e ((same_pitfall-entity_id threshold s x e, h), members-IsOf threshold s ss hs)
    | inr e ↦ rw e (members-IsOf threshold s ss hs)
  ]

  merge_groups-holds :
      (threshold : W) (n : ℕ) (ss : List (Signed W))
      → All (λ (x : Signed W). P x.pitfall) ss
      → All P (map merge_pitfall_group (merge_groups threshold n ss))
  unfolding merge_groups merge_pitfall_group
  merge_groups-holds threshold zero ss h = tt
  merge_groups-holds threshold (suc n) [] h = tt
  merge_groups-holds threshold (suc n) (s ∷ ss) (h, hs) = (
    merge_all-holds s.pitfall.entity_id s.pitfall (pitfalls_of (keep (same_pitfall threshold s) ss))
        (refl, h) (members-IsOf threshold s ss hs),
    merge_groups-holds threshold n (keep (λ o. not (same_pitfall threshold s o)) ss)
        (All-keep (λ (x : Signed W). P x.pitfall) (λ o. not (same_pitfall threshold s o)) ss hs),
  )

  signed-holds :
      (embedder : Text → Option (List W)) (ps : List (PitfallMemory W))
      → All P ps
      → All (λ (x : Signed W). P x.pitfall) (signed embedder ps)
  unfolding signed
  signed-holds embedder [] h = tt
  signed-holds embedder (p ∷ ps) (h, hs) = (h, signed-holds embedder ps hs)

  -- A property that joining two pitfalls of one entity keeps is kept by the deduplication.
  pub deduplicate_pitfalls-holds :
      (embedder : Text → Option (List W)) (threshold : W) (ps : List (PitfallMemory W))
      → All P ps
      → All P (deduplicate_pitfalls embedder threshold ps)
  unfolding deduplicate_pitfalls
  deduplicate_pitfalls-holds embedder threshold ps h = elim (Bool-cases (leb (length ps) 1)) [
    | inl f ↦ rw f h
    | inr f ↦
        rw f (
          merge_groups-holds threshold (length ps) (signed embedder ps)
            (signed-holds embedder ps h))
  ]
