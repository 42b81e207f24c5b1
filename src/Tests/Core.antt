-- ===== src/Tests/Core.antt =====
-- The theorems on the risk of an edit of internal/core, applied to sample data.
use mathlib.Core.List.{Perm}
use vatbrain.Prelude.{
  ◌≡◌, refl, true, some, List, [], ◌∷◌, ◌++◌, All, keep, length, leb, if◌then◌else◌, arith,
}
use vatbrain.Prelude.Int.{pos}
use vatbrain.Prelude.Sort.{IsSorted}
use vatbrain.Float.Clamp.{IsUnit}
use vatbrain.Float.Fixed.{Fixed, fixed_float, Fixed-IsOrdered, Fixed-IsArith}
use vatbrain.Models.Pitfall.{PitfallMemory, injectable}
use vatbrain.Core.Risk.{RiskRequest, compute_risk}
use vatbrain.Core.Risk.Range.{IsSound, risk_score-IsUnit}
use vatbrain.Core.Risk.Surfaced.{riskier, surfaced_are_riskiest}
use vatbrain.Tests.Samples.{sample_pitfall}

abbrev sample_risk : RiskRequest Fixed
sample_risk = record {
  files = "pool.go" ∷ [];
  entity_ids = [];
  project_id = "vatbrain";
  language = "go";
  task_type = "debug";
  user_goal = [];
  complexity = some (pos 800);
}

abbrev pitfalls : List (PitfallMemory Fixed)
pitfalls = sample_pitfall ∷ record sample_pitfall { id = 8; occurrence_count = 1 } ∷ []

pitfalls-IsSound : All (IsSound 150) pitfalls
pitfalls-IsSound = (
  record { trust = ground arith; past = ground arith },
  (record { trust = ground arith; past = ground arith }, tt),
)

risk_score-IsUnit_example : IsUnit (compute_risk sample_risk pitfalls [] 150).risk_score
risk_score-IsUnit_example =
    risk_score-IsUnit Fixed-IsOrdered Fixed-IsArith sample_risk pitfalls [] 150 refl
      pitfalls-IsSound

surfaced_are_riskiest_example :
    let shown = (compute_risk sample_risk pitfalls [] 150).pitfalls in
    (left_out : List (PitfallMemory Fixed)) × Perm (shown ++ left_out) (keep injectable pitfalls)
    × (length shown ≡ (
        if leb (length (keep injectable pitfalls)) 3 then length (keep injectable pitfalls) else 3))
    × All (λ p. injectable p ≡ true) shown
    × IsSorted (riskier 150) (shown ++ left_out)
surfaced_are_riskiest_example =
    surfaced_are_riskiest Fixed-IsOrdered Fixed-IsArith sample_risk pitfalls [] 150 pitfalls-IsSound
