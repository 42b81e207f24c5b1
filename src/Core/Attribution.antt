-- ===== src/Core/Attribution.antt =====
-- internal/core/attribution.go: the effect of a user's action on a memory's weight.
use vatbrain.Prelude.{ℕ, ◌≤◌, ◌<◌, Bool, true, false, if◌then◌else◌, arith}
use vatbrain.Float.{Float64, zero_f, one_f, neg, abs_f}
use vatbrain.Float.Clamp.{IsUnit, zero_le_one, zero_num, one_num}
use vatbrain.Float.Laws.{IsOrdered, IsArith, ◌≼◌}
use vatbrain.Models.Common.{SearchAction}

module _ {W : Type 0} ⦃d : Float64 W⦄ where
  -- the `switch action`
  unfoldable pub feedback_delta : SearchAction → Bool → W
  feedback_delta SearchAction.used user = d.ratio 10 100
  feedback_delta SearchAction.corrected user =
      if user then d.add (d.ratio 50 100) (d.ratio 30 100) else d.ratio 50 100
  feedback_delta SearchAction.confirmed user = d.ratio 20 100
  feedback_delta SearchAction.ignored user = neg (d.ratio 5 100)
  feedback_delta _ user = zero_f

  -- The new weight and the new effective frequency.
  unfoldable pub apply_feedback : W → W → SearchAction → Bool → W × W
  apply_feedback weight freq action user =
      let delta = feedback_delta action user in
      let raised = d.add weight delta in
      let low = if d.lt raised zero_f then zero_f else raised in
      (if d.lt one_f low then one_f else low, d.add freq (abs_f delta))

  module _ (laws : IsOrdered W) (laws' : IsArith W) where
    abbrev IsChange : W → Type 0
    IsChange x = (neg one_f ≼ x) × (x ≼ d.ratio 2 1)

    fraction-IsChange : (a b : ℕ) → 0 < b → a ≤ b → IsChange (d.ratio a b)
    fraction-IsChange a b h k =
        (laws'.neg_one_le _ (laws.ratio_nonneg a b h), laws.ratio_le a b 2 h (omega arith))

    feedback_delta-IsChange :
        (action : SearchAction) (user : Bool) → IsChange (feedback_delta action user)
    unfolding feedback_delta
    feedback_delta-IsChange SearchAction.used user =
        fraction-IsChange 10 100 (omega arith) (omega arith)
    feedback_delta-IsChange SearchAction.corrected true =
        let half = laws.ratio_nonneg 50 100 (omega arith) in
        let rest = laws.ratio_nonneg 30 100 (omega arith) in
        (
          laws'.neg_one_le _ (laws'.add_nonneg _ _ half rest),
          laws'.add_le _ _ (laws.ratio_le 50 100 1 (omega arith) (omega arith))
              (laws.ratio_le 30 100 1 (omega arith) (omega arith)),
        )
    feedback_delta-IsChange SearchAction.corrected false =
        fraction-IsChange 50 100 (omega arith) (omega arith)
    feedback_delta-IsChange SearchAction.confirmed user =
        fraction-IsChange 20 100 (omega arith) (omega arith)
    feedback_delta-IsChange SearchAction.ignored user =
        let (low, high) =
          laws'.neg_bounds (d.ratio 5 100) (laws.ratio_nonneg 5 100 (omega arith))
            (laws.ratio_le 5 100 1 (omega arith) (omega arith)) in
        (low, laws.le_trans _ _ _ high (laws.ratio_le 1 1 2 (omega arith) (omega arith)))
    feedback_delta-IsChange _ user = fraction-IsChange 0 1 (omega arith) (omega arith)

    -- Whatever the action, and whoever corrected, a weight in [0, 1] stays there.
    pub apply_feedback-IsUnit :
        (weight freq : W) (action : SearchAction) (user : Bool)
        → IsUnit weight
        → IsUnit (apply_feedback weight freq action user).0
    unfolding apply_feedback
    apply_feedback-IsUnit weight freq action user h =
        let (low, high) = feedback_delta-IsChange action user in
        let num = laws'.add_num weight (feedback_delta action user) h.zero_le h.le_one low high in
        let raised = d.add weight (feedback_delta action user) in
        let one = one_num laws in
        let zero' = zero_num laws in
        record {
          zero_le = ground (
            arith,
            zero_le_one laws,
            zero',
            laws.lt-eq-not-le raised zero_f num zero',
            laws.le_total raised zero_f num zero',
          );
          le_one = ground (
            arith,
            zero_le_one laws,
            one,
            laws.lt-eq-not-le one_f raised one num,
            laws.lt-eq-not-le one_f zero_f one zero',
          );
        }
