-- ===== src/Core/Risk/Range.antt =====
-- The range of the scores of internal/core/risk_engine.go.
use vatbrain.Prelude.{
  ℕ, ◌≤◌, ◌<◌, ◌≡◌, zero, suc, refl, Option, none, some, List, [], ◌∷◌, All, Bool-cases, inl, inr,
  arith,
}
use vatbrain.Prelude.Int.{ℤ}
use vatbrain.Float.{Float64, zero_f, one_f}
use vatbrain.Float.Clamp.{IsUnit, zero_num, one_num, one-IsUnit, clamp01, clamp01-IsUnit}
use vatbrain.Float.Laws.{IsOrdered, IsArith, ◌≼◌}
use vatbrain.Float.Unit.{min_one-IsUnit, mul-IsUnit, div_nat-IsUnit, exp-IsUnit, days_since-nonneg}
use vatbrain.Models.Common.{Time, trust_level_max}
use vatbrain.Models.Episodic.{EpisodicMemory}
use vatbrain.Models.Pitfall.{PitfallMemory, injectable}
use vatbrain.Core.Risk.{
  RiskRequest, RiskState, complexity_factor, occurrence_decay, contribution, risk_step, risk_loop,
  no_risk, compute_risk, protection_decay_rate, protection_decayed_weight,
}

abbrev IsPast : Time → Option Time → Type 0
IsPast now none = Unit
IsPast now (some t) = t ≤ now

-- The trust level is one of the scale, and the last occurrence is not in the future.
pub record IsSound {W : Type 0} (now : Time) (p : PitfallMemory W) : Type 0 where
  pub trust : p.trust_level ≤ trust_level_max
  pub past : IsPast now p.last_occurred_at

module _ {W : Type 0} ⦃d : Float64 W⦄ (laws : IsOrdered W) (laws' : IsArith W) where
  occurrence_decay-IsUnit :
      (now : Time) (o : Option Time) → IsPast now o → IsUnit {W = W} (occurrence_decay now o)
  unfolding occurrence_decay
  occurrence_decay-IsUnit now none h = one-IsUnit laws
  occurrence_decay-IsUnit now (some t) h = exp-IsUnit laws laws' _ (
      laws'.div_nonpos _ 30 (omega arith) (omega arith)
        (laws'.neg_nonpos _ (days_since-nonneg laws laws' now t h)))

  pub contribution-IsUnit :
      (now : Time) (p : PitfallMemory W) → IsSound now p → IsUnit (contribution now p)
  unfolding contribution
  contribution-IsUnit now p h =
      let count = laws.ratio_nonneg p.occurrence_count 1 (omega arith) in
      mul-IsUnit laws laws' _ _
        (mul-IsUnit laws laws' _ _
          (min_one-IsUnit laws laws' _ (laws'.div_nonneg _ 3 (omega arith) (omega arith) count))
          (div_nat-IsUnit laws laws' p.trust_level 5 (omega arith) (omega arith) h.trust))
        (occurrence_decay-IsUnit now p.last_occurred_at h.past)

  risk_step-nonneg :
      (now : Time) (st : RiskState W) (p : PitfallMemory W)
      → IsSound now p
      → zero_f ≼ st.total
      → zero_f ≼ (risk_step now st p).total
  unfolding risk_step
  risk_step-nonneg now st p h k = elim (Bool-cases (injectable p)) [
    | inl e ↦ rw e (laws'.add_nonneg _ _ k (contribution-IsUnit now p h).zero_le)
    | inr e ↦ rw e k
  ]

  risk_loop-nonneg :
      (now : Time) (st : RiskState W) (ps : List (PitfallMemory W))
      → All (IsSound now) ps
      → zero_f ≼ st.total
      → zero_f ≼ (risk_loop now st ps).total
  unfolding risk_loop
  risk_loop-nonneg now st [] hs k = k
  risk_loop-nonneg now st (p ∷ ps) (h, hs) k =
      risk_loop-nonneg now (risk_step now st p) ps hs (risk_step-nonneg now st p h k)

  complexity_factor-bounds :
      (c : W) → c ≼ c → (zero_f ≼ complexity_factor c) × (complexity_factor c ≼ d.ratio 2 1)
  unfolding complexity_factor
  complexity_factor-bounds c h =
      let half = laws.ratio_nonneg 5 10 (omega arith) in
      let half_le = laws.ratio_le 5 10 1 (omega arith) (omega arith) in
      let one = one_num laws in
      (
        ground (
          arith,
          half,
          laws.ratio_nonneg 15 10 (omega arith),
          laws'.add_nonneg (d.ratio 5 10) c half,
          laws.le_total c zero_f h (zero_num laws),
        ),
        ground (
          arith,
          laws.ratio_le 5 10 2 (omega arith) (omega arith),
          laws.ratio_le 15 10 2 (omega arith) (omega arith),
          laws'.add_le (d.ratio 5 10) c half_le,
          laws.lt-eq-not-le one_f c one h,
          laws.le_total c one_f h one,
        ),
      )

  -- The risk is a score in [0, 1], for any pitfalls of the trust scale that occurred in the past, and
  -- any complexity that is a number.
  pub risk_score-IsUnit :
      (req : RiskRequest W) (ps : List (PitfallMemory W)) (es : List (EpisodicMemory W))
      (now : Time)
      → req.complexity ≼ req.complexity
      → All (IsSound now) ps
      → IsUnit (compute_risk req ps es now).risk_score
  unfolding compute_risk
  risk_score-IsUnit req ps es now c hs =
      let total = risk_loop-nonneg now no_risk ps hs (zero_num laws) in
      let risk = min_one-IsUnit laws laws' _ total in
      let (low, high) = complexity_factor-bounds req.complexity c in
      min_one-IsUnit laws laws' _ (laws'.mul_nonneg _ _ risk.zero_le risk.le_one low high)

  protection_decay_rate-divisor :
      (level : ℤ)
      → (n : ℕ) × (protection_decay_rate {W = W} level ≡ d.ratio 1 n) × (0 < n) × (n ≤ 1000)
  unfolding protection_decay_rate
  protection_decay_rate-divisor (ℤ.negsuc k) = (1, refl, omega arith, omega arith)
  protection_decay_rate-divisor (ℤ.pos zero) = (1, refl, omega arith, omega arith)
  protection_decay_rate-divisor (ℤ.pos (suc zero)) = (2, refl, omega arith, omega arith)
  protection_decay_rate-divisor (ℤ.pos (suc (suc zero))) = (4, refl, omega arith, omega arith)
  protection_decay_rate-divisor (ℤ.pos (suc (suc (suc zero)))) = (8, refl, omega arith, omega arith)
  protection_decay_rate-divisor (ℤ.pos (suc (suc (suc (suc k))))) =
      (8, ground arith, omega arith, omega arith)

  -- Decay keeps a weight in [0, 1], at any protection level and after any number of days.
  pub protection_decayed_weight-IsUnit :
      (base : W) (level : ℤ) (days : W)
      → IsUnit base
      → days ≼ days
      → IsUnit (protection_decayed_weight base level days)
  unfolding protection_decayed_weight clamp01
  protection_decayed_weight-IsUnit base level days h num = elim (Bool-cases (d.le days zero_f)) [
    | inl e ↦ rw e h
    | inr e ↦
        let past : zero_f ≼ days = ground (arith, laws.le_total days zero_f num (zero_num laws)) in
        let (n, rate, low, high) = protection_decay_rate-divisor level in
        let slowed =
          laws'.mul_nonpos _ n low high
            (laws'.div_nonpos _ 30 (omega arith) (omega arith) (laws'.neg_nonpos days past)) in
        let w = mul-IsUnit laws laws' _ _ h (exp-IsUnit laws laws' _ slowed) in
        rw (e, rate) (clamp01-IsUnit laws _ (laws.refl_of_le _ _ w.le_one).0)
  ]
