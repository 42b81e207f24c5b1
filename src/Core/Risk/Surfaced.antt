-- ===== src/Core/Risk/Surfaced.antt =====
-- The pitfalls that internal/core/risk_engine.go surfaces, and the reasons that it gives.
use mathlib.Core.List.{Perm, append-nil, append_assoc}
use mathlib.Core.Path.{subst}
use vatbrain.Prelude.{
  ◌≡◌, refl, sym, true, Bool, List, [], ◌∷◌, ◌++◌, map, All, keep, length, take, drop, length-take,
  if◌then◌else◌, take-append-drop, take-map, map-map_id, All-take, leb, keep-All, All-keep, arith,
}
use vatbrain.Prelude.Sort.{
  sort_by, top-perm, IsSorted, sort_by-IsSorted, sort_by-map, length-sort_by, All-sort_by,
}
use vatbrain.Float.{Float64}
use vatbrain.Float.Descending.{descending-IsStrictWeak}
use vatbrain.Float.Laws.{IsOrdered, IsArith}
use vatbrain.Models.Common.{Time}
use vatbrain.Models.Episodic.{EpisodicMemory}
use vatbrain.Models.Pitfall.{PitfallMemory, injectable}
use vatbrain.Core.Risk.{
  RiskRequest, RiskState, RiskScored, contribution, risk_step, risk_loop, no_risk, higher_risk,
  compute_risk,
}
use vatbrain.Core.Risk.Range.{IsSound, contribution-IsUnit}

module _ {W : Type 0} ⦃d : Float64 W⦄ where
  scored : Time → PitfallMemory W → RiskScored W
  scored now p = record { p = p; score = contribution now p }

  -- The loop scores exactly the pitfalls that may be injected.
  risk_loop-scores :
      (now : Time) (st : RiskState W) (ps : List (PitfallMemory W))
      → (risk_loop now st ps).scores ≡ st.scores ++ map (scored now) (keep injectable ps)
  unfolding risk_loop risk_step scored
  risk_loop-scores now st [] = sym (append-nil _)
  risk_loop-scores now st (p ∷ ps) =
      let ih = risk_loop-scores now (risk_step now st p) ps in
      ground
        (arith, append_assoc st.scores (scored now p ∷ []) (map (scored now) (keep injectable ps)))

  -- The pitfall that contributes more to the risk goes first.
  abbrev pub riskier : Time → PitfallMemory W → PitfallMemory W → Bool
  riskier now a b = d.lt (contribution now b) (contribution now a)

  compute_risk-pitfalls :
      (req : RiskRequest W) (ps : List (PitfallMemory W)) (es : List (EpisodicMemory W))
      (now : Time)
      → (compute_risk req ps es now).pitfalls ≡ take 3 (sort_by (riskier now) (keep injectable ps))
  unfolding compute_risk scored
  compute_risk-pitfalls req ps es now =
      let kept = keep injectable ps in
      rw
        (
          risk_loop-scores now no_risk ps,
          sort_by-map higher_risk (scored now) kept,
          take-map (scored now) 3 (sort_by (riskier now) kept),
        )
        (map-map_id (scored now) (λ x. x.p) (take 3 (sort_by (riskier now) kept)) (λ p. refl))

  module _ (laws : IsOrdered W) (laws' : IsArith W) where
    -- What is surfaced are the three pitfalls that contribute most, or all if there are fewer, of
    -- exactly those that may be injected: none that is suppressed or obsolete is among them.
    pub surfaced_are_riskiest :
        (req : RiskRequest W) (ps : List (PitfallMemory W)) (es : List (EpisodicMemory W))
        (now : Time)
        → All (IsSound now) ps
        → let shown = (compute_risk req ps es now).pitfalls in
          (left_out : List (PitfallMemory W)) × Perm (shown ++ left_out) (keep injectable ps)
          × (length shown
              ≡ (if leb (length (keep injectable ps)) 3 then length (keep injectable ps) else 3))
          × All (λ p. injectable p ≡ true) shown
          × IsSorted (riskier now) (shown ++ left_out)
    surfaced_are_riskiest req ps es now hs =
        let kept = keep injectable ps in
        let sorted = sort_by (riskier now) kept in
        let weak =
          descending-IsStrictWeak laws (contribution now) (IsSound now)
            (λ p h. (laws.refl_of_le _ _ (contribution-IsUnit laws laws' now p h).le_one).0) in
        rw (compute_risk-pitfalls req ps es now) (
          drop 3 sorted,
          top-perm (riskier now) 3 kept,
          ground (arith, length-take 3 sorted, length-sort_by (riskier now) kept),
          All-take _ 3 sorted (All-sort_by (riskier now) _ kept (keep-All injectable ps)),
          subst (IsSorted (riskier now)) (sym (take-append-drop 3 sorted)) (
              sort_by-IsSorted (riskier now) (IsSound now) weak kept (All-keep _ injectable ps hs)),
        )
