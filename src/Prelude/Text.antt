-- ===== src/Prelude/Text.antt =====
-- Texts that the program walks, as lists of code points.
use vatbrain.Prelude.Tests.{Eq, nat_eq, leb, ◌==◌}
use Prim.Native.Nat.{ℕ}
use Prim.Native.Char.{code}
use Prim.Native.String.{String}
use mathlib.Core.Path.{◌≡◌}
use mathlib.Core.Bool.{Bool, true, false, ◌&&◌, ◌||◌}
use mathlib.Core.Logic.{◌↔◌}
use mathlib.Core.List.{List, [], ◌∷◌}
use native.Mathlib.Omega.{arith}

abbrev pub Text : Type 0
Text = List ℕ

abbrev pub codes : String → Text
codes String.[] = []
codes (String.◌∷◌ c s) = code c ∷ codes s

abbrev text_beq : Text → Text → Bool
text_beq [] [] = true
text_beq (a ∷ x) (b ∷ y) = a == b && text_beq x y
text_beq _ _ = false

pub text_beq_iff : (x y : Text) → (text_beq x y ≡ true) ↔ (x ≡ y)
text_beq_iff [] [] = ground arith
text_beq_iff [] (b ∷ y) = ground arith
text_beq_iff (a ∷ x) [] = ground arith
text_beq_iff (a ∷ x) (b ∷ y) = ground (arith, text_beq_iff x y)

instance abbrev pub text_eq : Eq Text
text_eq = record { beq = text_beq; beq_iff = text_beq_iff }

-- `unicode.IsSpace`
abbrev pub is_space : ℕ → Bool
is_space c =
    leb 9 c && leb c 13
    || c == 32
    || c == 133
    || c == 160
    || c == 5760
    || leb 8192 c && leb c 8202
    || c == 8232
    || c == 8233
    || c == 8239
    || c == 8287
    || c == 12288

-- `strings.TrimSpace(s) == ""`
abbrev pub is_blank : Text → Bool
is_blank [] = true
is_blank (c ∷ s) = is_space c && is_blank s
