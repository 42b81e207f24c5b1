-- ===== src/Core/Extractor/Merge.antt =====
-- The deduplication of internal/core/pitfall_extractor.go: pitfalls of one entity with signatures that
-- are alike become one. A group is its primary pitfall and the other members.
pub mod Kept
pub mod Held
use vatbrain.Prelude.{
  ℕ, zero, suc, ◌+◌, Bool, not, ◌&&◌, ◌||◌, List, [], ◌∷◌, ◌++◌, Option, none, some, keep, length,
  leb, ltb, string_eq, ◌==◌, map, if◌then◌else◌,
}
use vatbrain.Prelude.Format.{byte_length}
use vatbrain.Prelude.Text.{Text, text_eq}
use vatbrain.Float.{Float64}
use vatbrain.Models.Common.{Time, after}
use vatbrain.Models.Pitfall.{PitfallMemory}
use vatbrain.Vector.{cosine_similarity}

-- a pitfall with the embedding of its signature
pub record Signed (W : Type 0) : Type 0 where
  pub pitfall : PitfallMemory W
  pub embedding : Option (List W)

pub record MergeGroup (W : Type 0) : Type 0 where
  pub primary : PitfallMemory W
  pub others : List (PitfallMemory W)

-- The later of two times.
unfoldable pub latest : Option Time → Option Time → Option Time
latest p none = p
latest none (some o) = some o
latest (some p) (some o) = if after o p then some o else some p

module _ {W : Type 0} where
  -- what one pitfall takes over from another
  unfoldable pub absorb : PitfallMemory W → PitfallMemory W → PitfallMemory W
  unfolding latest
  absorb p o = record p {
    occurrence_count = p.occurrence_count + o.occurrence_count;
    source_episodic_ids = p.source_episodic_ids ++ o.source_episodic_ids;
    fix_strategy =
        if ltb (byte_length p.fix_strategy) (byte_length o.fix_strategy)
        then o.fix_strategy
        else p.fix_strategy;
    last_occurred_at = latest p.last_occurred_at o.last_occurred_at;
    was_user_corrected = o.was_user_corrected || p.was_user_corrected;
  }

  -- One round of the loop of `mergePitfallGroup`: the one that occurred more often is the base.
  unfoldable pub merge_pitfall : PitfallMemory W → PitfallMemory W → PitfallMemory W
  unfolding absorb
  merge_pitfall primary other =
      if ltb primary.occurrence_count other.occurrence_count
      then absorb (record other { obsoleted_at = primary.obsoleted_at }) primary
      else absorb primary other

  merge_all : PitfallMemory W → List (PitfallMemory W) → PitfallMemory W
  unfolding merge_pitfall
  merge_all primary [] = primary
  merge_all primary (other ∷ others) = merge_all (merge_pitfall primary other) others

  unfoldable pub merge_pitfall_group : MergeGroup W → PitfallMemory W
  unfolding merge_all
  merge_pitfall_group g = merge_all g.primary g.others

  pitfalls_of : List (Signed W) → List (PitfallMemory W)
  pitfalls_of [] = []
  pitfalls_of (s ∷ ss) = s.pitfall ∷ pitfalls_of ss

module _ {W : Type 0} ⦃d : Float64 W⦄ where
  alike : W → Signed W → Signed W → Bool
  alike threshold a b = elim a.embedding [
    | some v ↦ elim b.embedding [
      | some w ↦ d.le threshold (cosine_similarity v w)
      | none ↦ a.pitfall.signature == b.pitfall.signature
    ]
    | none ↦ a.pitfall.signature == b.pitfall.signature
  ]

  -- Whether the inner loop takes the second one into the group of the first.
  unfoldable pub same_pitfall : W → Signed W → Signed W → Bool
  unfolding alike
  same_pitfall threshold a b = a.pitfall.entity_id == b.pitfall.entity_id && alike threshold a b

  -- `Float32To64` makes nil of a vector without numbers, and nil is no embedding here.
  unfoldable pub not_nil : Option (List W) → Option (List W)
  not_nil (some (x ∷ v)) = some (x ∷ v)
  not_nil _ = none

  unfoldable pub signed : (Text → Option (List W)) → List (PitfallMemory W) → List (Signed W)
  unfolding not_nil
  signed embedder [] = []
  signed embedder (p ∷ ps) =
      record { pitfall = p; embedding = not_nil (embedder p.signature) } ∷ signed embedder ps

  -- The outer loop. What is assigned to a group is taken out of the list, and the fuel is its length.
  unfoldable pub merge_groups : W → ℕ → List (Signed W) → List (MergeGroup W)
  unfolding pitfalls_of
  merge_groups threshold zero ss = []
  merge_groups threshold (suc n) [] = []
  merge_groups threshold (suc n) (s ∷ ss) =
      record { primary = s.pitfall; others = pitfalls_of (keep (same_pitfall threshold s) ss) }
      ∷ merge_groups threshold n (keep (λ o. not (same_pitfall threshold s o)) ss)

  unfoldable pub deduplicate_pitfalls :
      (Text → Option (List W)) → W → List (PitfallMemory W) → List (PitfallMemory W)
  unfolding merge_pitfall_group
  deduplicate_pitfalls embedder threshold ps =
      let groups = merge_groups threshold (length ps) (signed embedder ps) in
      if leb (length ps) 1 then ps else map merge_pitfall_group groups
