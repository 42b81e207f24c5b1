-- ===== src/Core/Surprise.antt =====
-- internal/core/surprise.go: how much an event broke an expectation.
use vatbrain.Prelude.{Option, none, some, if◌then◌else◌, arith}
use vatbrain.Float.{Float64, zero_f, one_f}
use vatbrain.Float.Clamp.{IsUnit, zero_le_one, zero_num, one_num}
use vatbrain.Float.Laws.{IsOrdered, IsArith, ◌≼◌}
use vatbrain.Core.Gate.{WriteEvent}

pub record SurpriseScorer (W : Type 0) : Type 0 where
  pub correction_surprise : W
  pub behavior_change_surprise : W

module _ {W : Type 0} ⦃d : Float64 W⦄ where
  -- `DefaultSurpriseScorer`
  abbrev pub default_surprise_scorer : SurpriseScorer W
  default_surprise_scorer = record {
    correction_surprise = d.ratio 7 10;
    behavior_change_surprise = d.ratio 5 10;
  }

  -- the default where the receiver is nil
  abbrev pub scorer_or_default : Option (SurpriseScorer W) → SurpriseScorer W
  scorer_or_default none = default_surprise_scorer
  scorer_or_default (some s) = s

  unfoldable pub surprise_score : Option (SurpriseScorer W) → WriteEvent → W
  surprise_score scorer event =
      let s = scorer_or_default scorer in
      let a = if event.is_correction then d.add zero_f s.correction_surprise else zero_f in
      let b = if event.caused_behavior_change then d.add a s.behavior_change_surprise else a in
      if event.user_confirmed then zero_f else if d.lt one_f b then one_f else b

  -- A score that no signal of the scorer makes negative is in [0, 1].
  pub surprise_score-IsUnit :
      (laws : IsOrdered W) (laws' : IsArith W) (scorer : Option (SurpriseScorer W))
      (event : WriteEvent)
      → zero_f ≼ (scorer_or_default scorer).correction_surprise
      → zero_f ≼ (scorer_or_default scorer).behavior_change_surprise
      → IsUnit (surprise_score scorer event)
  unfolding surprise_score
  surprise_score-IsUnit laws laws' scorer event h k =
      let s = scorer_or_default scorer in
      let a = if event.is_correction then d.add zero_f s.correction_surprise else zero_f in
      let b = if event.caused_behavior_change then d.add a s.behavior_change_surprise else a in
      let zero' = zero_num laws in
      let one = one_num laws in
      let ha : zero_f ≼ a =
        ground (arith, laws'.add_nonneg zero_f s.correction_surprise zero' h, zero') in
      let hb : zero_f ≼ b = ground (arith, laws'.add_nonneg a s.behavior_change_surprise ha k) in
      let num = (laws.refl_of_le _ _ hb).1 in
      record {
        zero_le = ground (arith, zero', zero_le_one laws);
        le_one = ground (arith, one, zero_le_one laws, laws.lt-eq-not-le one_f b one num);
      }
