-- ===== src/Float/Descending.antt =====
-- To sort by a number, the largest first, is to sort by an order that Go accepts, away from NaN.
use vatbrain.Prelude.{arith}
use vatbrain.Prelude.Sort.{IsStrictWeak}
use vatbrain.Float.{Float64}
use vatbrain.Float.Laws.{IsOrdered, ◌≼◌}

module _ {ℓ α κ} {W : Type ℓ} ⦃d : Float64 W⦄ {A : Type α} (laws : IsOrdered W) where
  pub descending-IsStrictWeak :
      (key : A → W) (P : A → Type κ)
      → ((a : A) → P a → key a ≼ key a)
      → IsStrictWeak (λ a b. d.lt (key b) (key a)) P
  descending-IsStrictWeak key P num = record {
    asym = λ x y h k e. ground (
      arith,
      laws.lt-eq-not-le (key y) (key x) (num y k) (num x h),
      laws.lt-eq-not-le (key x) (key y) (num x h) (num y k),
      laws.le_total (key x) (key y) (num x h) (num y k),
    );
    trans = λ x y z h k l e e'. ground (
      arith,
      laws.lt-eq-not-le (key x) (key y) (num x h) (num y k),
      laws.lt-eq-not-le (key y) (key z) (num y k) (num z l),
      laws.lt-eq-not-le (key x) (key z) (num x h) (num z l),
      laws.le_trans (key z) (key y) (key x),
    );
  }
