-- ===== src/Float/Laws.antt =====
-- What the proofs use of `float64`. A NaN is a value that is not `<=` itself.
use vatbrain.Prelude.{ℕ, ◌*◌, ◌≤◌, ◌<◌, ◌≡◌, ◌⊎◌, true, not}
use vatbrain.Float.{Float64, zero_f, one_f, neg}

infix 50 ◌≼◌
abbrev pub ◌≼◌ {ℓ} : {W : Type ℓ} ⦃d : Float64 W⦄ → W → W → Type 0
◌≼◌ ⦃d⦄ x y = d.le x y ≡ true

-- The comparisons are a total order away from NaN.
pub record IsOrdered {ℓ} (W : Type ℓ) ⦃d : Float64 W⦄ : Type ℓ where
  pub le_trans : (x y z : W) → x ≼ y → y ≼ z → x ≼ z
  pub ratio_nonneg : (a b : ℕ) → 0 < b → zero_f ≼ d.ratio a b
  pub refl_of_le : (x y : W) → x ≼ y → (x ≼ x) × (y ≼ y)
  pub ratio_le : (a b n : ℕ) → 0 < b → a ≤ n * b → d.ratio a b ≼ d.ratio n 1
  pub le_total : (x y : W) → x ≼ x → y ≼ y → (x ≼ y) ⊎ (y ≼ x)
  pub lt-eq-not-le : (x y : W) → x ≼ x → y ≼ y → d.lt x y ≡ not (d.le y x)
  pub refl_of_lt : (x y : W) → d.lt x y ≡ true → (x ≼ x) × (y ≼ y)

-- The operations round monotonically, and keep the unit interval where the exact ones do.
pub record IsArith {ℓ} (W : Type ℓ) ⦃d : Float64 W⦄ : Type ℓ where
  pub add_nonneg : (x y : W) → zero_f ≼ x → zero_f ≼ y → zero_f ≼ d.add x y
  -- in particular, no sum of a weight and a bounded change is NaN
  pub add_num :
      (x y : W) → zero_f ≼ x → x ≼ one_f → neg one_f ≼ y → y ≼ d.ratio 2 1 → d.add x y ≼ d.add x y
  pub neg_one_le : (x : W) → zero_f ≼ x → neg one_f ≼ x
  pub neg_bounds : (x : W) → zero_f ≼ x → x ≼ one_f → (neg one_f ≼ neg x) × (neg x ≼ one_f)
  pub neg_nonpos : (x : W) → zero_f ≼ x → neg x ≼ zero_f
  pub add_le : (x y : W) → x ≼ one_f → y ≼ one_f → d.add x y ≼ d.ratio 2 1
  -- away from zero times infinity
  pub mul_nonneg :
      (x y : W) → zero_f ≼ x → x ≼ one_f → zero_f ≼ y → y ≼ d.ratio 2 1 → zero_f ≼ d.mul x y
  pub div_nonpos : (x : W) (n : ℕ) → 0 < n → n ≤ 1000 → x ≼ zero_f → d.div x (d.ratio n 1) ≼ zero_f
  pub div_nonneg : (x : W) (n : ℕ) → 0 < n → n ≤ 1000 → zero_f ≼ x → zero_f ≼ d.div x (d.ratio n 1)
  pub div_le_one : (a n : ℕ) → 0 < n → n ≤ 1000 → a ≤ n → d.div (d.ratio a 1) (d.ratio n 1) ≼ one_f
  pub mul_nonpos : (x : W) (n : ℕ) → 0 < n → n ≤ 1000 → x ≼ zero_f → d.mul x (d.ratio 1 n) ≼ zero_f
  pub mul_le : (x y : W) → zero_f ≼ x → x ≼ one_f → zero_f ≼ y → y ≼ one_f → d.mul x y ≼ x
  pub exp_nonneg : (x : W) → x ≼ x → zero_f ≼ d.exp x
  pub exp_le_one : (x : W) → x ≼ zero_f → d.exp x ≼ one_f
