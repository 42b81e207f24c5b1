-- ===== src/Float.antt =====
-- Go's `float64`, which the model does not implement: a type of values and the operations that the
-- program applies to them. The laws are those of IEEE 754 and of package math, away from NaN.
pub mod Laws
pub mod Fixed
pub mod Clamp
pub mod Unit
pub mod Descending
use vatbrain.Prelude.{ℕ, ◌-◌, leb, Bool, not, if◌then◌else◌}

pub record Float64 {ℓ} (W : Type ℓ) : Type ℓ where
  -- the constant n/d
  pub ratio : ℕ → ℕ → W
  pub add : W → W → W
  pub sub : W → W → W
  pub mul : W → W → W
  pub div : W → W → W
  pub exp : W → W
  pub sqrt : W → W
  pub log10 : W → W
  pub lt : W → W → Bool
  pub le : W → W → Bool
  pub eq : W → W → Bool

module _ {ℓ} {W : Type ℓ} ⦃d : Float64 W⦄ where
  abbrev pub zero_f : W
  zero_f = d.ratio 0 1

  abbrev pub one_f : W
  one_f = d.ratio 1 1

  -- `float64(n)`
  abbrev pub of_nat : ℕ → W
  of_nat n = d.ratio n 1

  -- `-x`
  abbrev pub neg : W → W
  neg x = d.sub zero_f x

  -- `math.Min` away from NaN
  abbrev pub min_f : W → W → W
  min_f x y = if d.lt y x then y else x

  -- `math.Abs`
  abbrev pub abs_f : W → W
  abs_f x = if d.lt x zero_f then neg x else x

  -- `now.Sub(t).Hours()`, from times in nanoseconds
  abbrev pub hours_since : ℕ → ℕ → W
  hours_since now t =
      if leb t now then d.ratio (now - t) 3600000000000 else neg (d.ratio (t - now) 3600000000000)

  -- `now.Sub(t).Hours() / 24`
  abbrev pub days_since : ℕ → ℕ → W
  days_since now t = d.div (hours_since now t) (d.ratio 24 1)
