-- ===== src/Float/Unit.antt =====
-- The unit interval under the operations that the engines apply to weights and scores.
use vatbrain.Prelude.{ℕ, ◌≤◌, ◌<◌, ◌≡◌, true, leb, arith}
use vatbrain.Float.{Float64, zero_f, one_f, of_nat, min_f, hours_since, days_since}
use vatbrain.Float.Clamp.{IsUnit, zero_le_one, one_num}
use vatbrain.Float.Laws.{IsOrdered, IsArith, ◌≼◌}

module _ {ℓ} {W : Type ℓ} ⦃d : Float64 W⦄ (laws : IsOrdered W) (laws' : IsArith W) where
  pub min_one-IsUnit : (x : W) → zero_f ≼ x → IsUnit (min_f one_f x)
  min_one-IsUnit x h =
      let one = one_num laws in
      let num = (laws.refl_of_le _ _ h).1 in
      record {
        zero_le = ground (arith, zero_le_one laws);
        le_one = ground (arith, laws.lt-eq-not-le x one_f num one, laws.le_total x one_f num one);
      }

  pub mul-IsUnit : (x y : W) → IsUnit x → IsUnit y → IsUnit (d.mul x y)
  mul-IsUnit x y h k = record {
    zero_le =
        laws'.mul_nonneg x y h.zero_le h.le_one k.zero_le
          (laws.le_trans _ _ _ k.le_one (laws.ratio_le 1 1 2 (omega arith) (omega arith)));
    le_one = laws.le_trans _ _ _ (laws'.mul_le x y h.zero_le h.le_one k.zero_le k.le_one) h.le_one;
  }

  pub div_nat-IsUnit : (a n : ℕ) → 0 < n → n ≤ 1000 → a ≤ n → IsUnit (d.div (of_nat a) (of_nat n))
  div_nat-IsUnit a n h h' k = record {
    zero_le = laws'.div_nonneg _ n h h' (laws.ratio_nonneg a 1 (omega arith));
    le_one = laws'.div_le_one a n h h' k;
  }

  pub exp-IsUnit : (x : W) → x ≼ zero_f → IsUnit (d.exp x)
  exp-IsUnit x h = record {
    zero_le = laws'.exp_nonneg x (laws.refl_of_le _ _ h).0;
    le_one = laws'.exp_le_one x h;
  }

  pub hours_since-nonneg : (now t : ℕ) → t ≤ now → zero_f ≼ hours_since {W = W} now t
  hours_since-nonneg now t h =
      let e : leb t now ≡ true = ground arith in rw e (laws.ratio_nonneg _ _ (omega arith))

  pub days_since-nonneg : (now t : ℕ) → t ≤ now → zero_f ≼ days_since {W = W} now t
  days_since-nonneg now t h =
      laws'.div_nonneg _ 24 (omega arith) (omega arith) (hours_since-nonneg now t h)
