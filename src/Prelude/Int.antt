-- ===== src/Prelude/Int.antt =====
-- Go's `int` where the code tests its sign. Widths are not modelled: counters and limits stay far
-- below 2^63.
use vatbrain.Prelude.Tests.{ltb, nat_eq, if◌then◌else◌}
use Prim.Native.Nat.{ℕ, suc}
use mathlib.Core.Bool.{Bool}

-- `negsuc n` is -(n + 1).
pub data ℤ : Type 0 where
  pos : ℕ → ℤ
  negsuc : ℕ → ℤ

abbrev pub pos_part : ℤ → ℕ
pos_part (pos n) = n
pos_part (negsuc n) = 0

abbrev pub neg_part : ℤ → ℕ
neg_part (pos n) = 0
neg_part (negsuc n) = suc n

-- `n > 0`
abbrev pub positive : ℤ → Bool
positive n = ltb 0 (pos_part n)

-- `if limit <= 0 { limit = fallback }; if limit > n { limit = n }`
abbrev pub cut_limit : ℤ → ℕ → ℕ → ℕ
cut_limit limit fallback n =
    let l = if positive limit then pos_part limit else fallback in if ltb n l then n else l
