-- ===== src/Float/Fixed.antt =====
-- Numbers in thousandths, with `none` for NaN: the laws of `float64` can be met, and the tests run.
-- `exp` is 1 + x above zero and 1 / (1 - x) below, and `sqrt` and `log10` are the identity.
use native.Mathlib.Nat.{div-le_of_le-mul}
use vatbrain.Prelude.{
  ℕ, suc, ◌+◌, ◌-◌, ◌*◌, ◌/◌, ◌≤◌, ◌<◌, Bool, false, ltb, leb, nat_eq, ◌==◌, Option, none, some,
  arith, if◌then◌else◌,
}
use vatbrain.Prelude.Int.{ℤ, pos, negsuc, pos_part, neg_part}
use vatbrain.Float.{Float64, zero_f, one_f}
use vatbrain.Float.Laws.{IsOrdered, IsArith, ◌≼◌}

abbrev pub Fixed : Type 0
Fixed = Option ℤ

-- a - b
abbrev pub sub_ℕ : ℕ → ℕ → ℤ
sub_ℕ a b = if leb b a then pos (a - b) else negsuc (b - a - 1)

abbrev pub magnitude : ℤ → ℕ
magnitude a = pos_part a + neg_part a

abbrev pub scaled : ℤ → ℕ → ℤ
scaled (pos _) n = pos n
scaled (negsuc _) n = sub_ℕ 0 n

abbrev pub mul_ℤ : ℤ → ℤ → ℤ
mul_ℤ a b =
    let n = magnitude a * magnitude b / 1000 in
    elim b [ pos _ ↦ scaled a n | negsuc _ ↦ elim a [ pos _ ↦ sub_ℕ 0 n | negsuc _ ↦ pos n ] ]

abbrev pub exp_ℤ : ℤ → ℤ
exp_ℤ (pos n) = pos (1000 + n)
exp_ℤ (negsuc n) = pos (1000000 / (1000 + suc n))

abbrev pub lift₂ : (ℤ → ℤ → ℤ) → Fixed → Fixed → Fixed
lift₂ f (some a) (some b) = some (f a b)
lift₂ f _ _ = none

abbrev pub test₂ : (ℤ → ℤ → Bool) → Fixed → Fixed → Bool
test₂ f (some a) (some b) = f a b
test₂ f _ _ = false

abbrev pub div_ℤ : ℤ → ℤ → ℤ
div_ℤ a b =
    let n = magnitude a * 1000 / magnitude b in
    elim b [ pos _ ↦ scaled a n | negsuc _ ↦ elim a [ pos _ ↦ sub_ℕ 0 n | negsuc _ ↦ pos n ] ]

instance abbrev pub fixed_float : Float64 Fixed
fixed_float = record {
  ratio = λ n d. some (pos (n * 1000 / d));
  add = lift₂ (λ a b. sub_ℕ (pos_part a + pos_part b) (neg_part a + neg_part b));
  sub = lift₂ (λ a b. sub_ℕ (pos_part a + neg_part b) (neg_part a + pos_part b));
  mul = lift₂ mul_ℤ;
  div = lift₂ div_ℤ;
  exp = λ a. elim a [ none ↦ none | some x ↦ some (exp_ℤ x) ];
  sqrt = λ a. a;
  log10 = λ a. a;
  lt = test₂ (λ a b. ltb (pos_part a + neg_part b) (pos_part b + neg_part a));
  le = test₂ (λ a b. leb (pos_part a + neg_part b) (pos_part b + neg_part a));
  eq = test₂ (λ a b. pos_part a + neg_part b == pos_part b + neg_part a);
}

ratio_bound : (a b n : ℕ) → 0 < b → a ≤ n * b → a * 1000 / b ≤ n * 1000 / 1
ratio_bound a b n h k =
    let e : a * 1000 / b ≤ n * 1000 = div-le_of_le-mul b (grind arith) in omega arith

pub Fixed-IsOrdered : IsOrdered Fixed
Fixed-IsOrdered = record {
  ratio_nonneg = λ a b h. ground arith;
  ratio_le = λ a b n h k. ground (arith, ratio_bound a b n h k);
  refl_of_le = λ x y h. ground arith;
  le_trans = λ x y z h k. ground arith;
  le_total = λ x y h k. ground arith;
  lt-eq-not-le = λ x y h k. ground arith;
  refl_of_lt = λ x y h. ground arith;
}

mul_bound : (a b : ℕ) → b ≤ 1000 → a * b / 1000 ≤ a
mul_bound a b h = grind arith

mul_Fixed-le :
    (x y : Fixed) → zero_f ≼ x → x ≼ one_f → zero_f ≼ y → y ≼ one_f → fixed_float.mul x y ≼ x
mul_Fixed-le (some (pos a)) (some (pos b)) h h' k k' =
    ground (arith, mul_bound (a + 0) (b + 0) (ground arith))
mul_Fixed-le x y h h' k k' = ground arith

whole_bound : (a n : ℕ) → 0 < n → a ≤ n → a * 1000 * 1000 / (n * 1000) ≤ 1000
whole_bound a n h k = div-le_of_le-mul (n * 1000) (omega arith)

pub Fixed-IsArith : IsArith Fixed
Fixed-IsArith = record {
  add_nonneg = λ x y h k. ground arith;
  add_num = λ x y h h' k k'. ground arith;
  neg_one_le = λ x h. ground arith;
  neg_bounds = λ x h k. ground arith;
  neg_nonpos = λ x h. ground arith;
  add_le = λ x y h k. ground arith;
  mul_nonneg = λ x y h h' k k'. ground arith;
  div_nonpos = λ x n h h' k. ground arith;
  div_nonneg = λ x n h h' k. ground arith;
  div_le_one = λ a n h h' k. ground (arith, whole_bound a n h k);
  mul_nonpos = λ x n h h' k. ground arith;
  mul_le = mul_Fixed-le;
  exp_nonneg = λ x h. ground arith;
  exp_le_one = λ x h. ground arith;
}
