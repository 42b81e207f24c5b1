-- ===== src/Float/Clamp.antt =====
-- Clamping to the unit interval: `clamp01` of internal/store/memory/pitfall.go.
use vatbrain.Prelude.{arith, if◌then◌else◌}
use vatbrain.Float.{Float64, zero_f, one_f}
use vatbrain.Float.Laws.{IsOrdered, ◌≼◌}

-- A weight in [0, 1], and so no NaN.
pub record IsUnit {ℓ} {W : Type ℓ} ⦃d : Float64 W⦄ (x : W) : Type ℓ where
  pub zero_le : zero_f ≼ x
  pub le_one : x ≼ one_f

module _ {ℓ} {W : Type ℓ} ⦃d : Float64 W⦄ where
  unfoldable pub clamp01 : W → W
  clamp01 v = if d.lt v zero_f then zero_f else if d.lt one_f v then one_f else v

module _ {ℓ} {W : Type ℓ} ⦃d : Float64 W⦄ (laws : IsOrdered W) where
  pub zero_le_one : ◌≼◌ {W = W} zero_f one_f
  zero_le_one = laws.ratio_nonneg 1 1 (omega arith)

  pub zero_num : ◌≼◌ {W = W} zero_f zero_f
  zero_num = (laws.refl_of_le _ _ zero_le_one).0

  pub one_num : ◌≼◌ {W = W} one_f one_f
  one_num = (laws.refl_of_le _ _ zero_le_one).1

  pub zero-IsUnit : IsUnit {W = W} zero_f
  zero-IsUnit = record { zero_le = zero_num; le_one = zero_le_one }

  pub one-IsUnit : IsUnit {W = W} one_f
  one-IsUnit = record { zero_le = zero_le_one; le_one = one_num }

  -- Clamping any number, even an infinite one, gives a weight in [0, 1].
  pub clamp01-IsUnit : (v : W) → v ≼ v → IsUnit (clamp01 v)
  unfolding clamp01
  clamp01-IsUnit v h = record {
    zero_le = ground (arith, zero_num, zero_le_one, laws.lt-eq-not-le v zero_f h zero_num);
    le_one = ground (arith, zero_le_one, one_num, laws.lt-eq-not-le one_f v one_num h);
  }
