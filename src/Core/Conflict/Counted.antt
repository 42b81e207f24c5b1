-- ===== src/Core/Conflict/Counted.antt =====
-- A detection run of internal/core/conflict.go on the in-memory store.
use vatbrain.Prelude.{ℕ, ◌+◌, ◌≡◌, some, nat_eq}
use vatbrain.Prelude.Dict.{lookup}
use vatbrain.Prelude.Dict.Entries.{AllPairs}
use vatbrain.Prelude.Result.{ok, Result}
use vatbrain.Prelude.Text.{Text}
use vatbrain.Float.{Float64}
use vatbrain.Models.Common.{Uuid, Time}
use vatbrain.Models.Semantic.{SemanticMemory}
use vatbrain.Store.Memory.State.{Store}
use vatbrain.Core.Conflict.{ConflictPair, DetectionResult}

-- Each detected pair is settled or left to a human.
abbrev pub IsBalanced : DetectionResult → Type 0
IsBalanced r = r.detected ≡ r.auto_resolved + r.pending

module _ {W : Type 0} where
  abbrev pub IsStored : Store W → Uuid → Type 0
  IsStored s id = (m : SemanticMemory W) × (lookup id s.semantics ≡ some m)

  abbrev PairStored : Store W → ConflictPair W → Type 0
  PairStored s pair = IsStored s pair.rule_a.id × IsStored s pair.rule_b.id

  -- A step that succeeds, counts well and loses no rule.
  abbrev Settles : Store W → Result DetectionResult × Store W → Type 0
  Settles s out =
      (r : DetectionResult) × (t : Store W) × (out ≡ (ok r, t))
      × IsBalanced r
      × ((id : Uuid) → IsStored s id → IsStored t id)

module _ {W : Type 0} ⦃d : Float64 W⦄ (verdict : ℕ → ℕ → Text) where
  module _ (describe : SemanticMemory W → SemanticMemory W → Text) (fresh : ℕ → Uuid)
      (clock : ℕ → Time) where
    -- Every rule is stored under its own id.
    pub record RulesAreKeyed (s : Store W) : Type 0 where
      pub keyed : AllPairs (λ id (m : SemanticMemory W). m.id ≡ id) s.semantics.entries
