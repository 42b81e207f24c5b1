-- ===== src/Prelude/Format.antt =====
-- Go's `strings` and `fmt` on the texts of the program: cutting, joining, trimming, printing.
use vatbrain.Prelude.Lists.{keep, length, take}
use vatbrain.Prelude.Tests.{nat_eq, ◌==◌, leb, ltb, if◌then◌else◌}
use vatbrain.Prelude.Text.{Text, is_space, text_eq}
use Prim.Native.Nat.{ℕ, zero, suc, ◌+◌}
use mathlib.Core.Bool.{Bool, true, false, not, ◌&&◌, ◌||◌}
use mathlib.Core.Option
use mathlib.Core.Option.{Option, none, some}
use mathlib.Core.List.{List, [], ◌∷◌, ◌++◌}

abbrev pub is_empty {ℓ} : {A : Type ℓ} → List A → Bool
is_empty [] = true
is_empty (x ∷ xs) = false

on_head : ℕ → List Text → List Text
on_head c [] = (c ∷ []) ∷ []
on_head c (w ∷ ws) = (c ∷ w) ∷ ws

-- the text cut at each space
split_spaces : Text → List Text
unfolding on_head
split_spaces [] = [] ∷ []
split_spaces (c ∷ s) = let rest = split_spaces s in if is_space c then [] ∷ rest else on_head c rest

-- `strings.Fields`
unfoldable pub fields : Text → List Text
unfolding split_spaces
fields s = keep (λ w. not (is_empty w)) (split_spaces s)

-- `strings.Join(ws, " ")`
unfoldable pub spaced : List Text → Text
spaced [] = []
spaced (w ∷ []) = w
spaced (w ∷ v ∷ ws) = w ++ 32 ∷ spaced (v ∷ ws)

unfoldable pub one_line : Text → Text
unfolding fields spaced
one_line s = spaced (fields s)

-- `strings.TrimSpace`: no space before the first letter, and none after the last one.
trim_left : Text → Text
trim_left [] = []
trim_left (c ∷ s) = let rest = trim_left s in if is_space c then rest else c ∷ s

trim_right : Text → Text
trim_right [] = []
trim_right (c ∷ s) = let rest = trim_right s in if is_space c && is_empty rest then [] else c ∷ rest

unfoldable pub trim_space : Text → Text
unfolding trim_left trim_right
trim_space s = trim_right (trim_left s)

-- The digits of a number, the last one first.
next_number : Text → Text
next_number [] = 49 ∷ []
next_number (c ∷ cs) = if c == 57 then 48 ∷ next_number cs else (c + 1) ∷ cs

backward : ℕ → Text
unfolding next_number
backward zero = 48 ∷ []
backward (suc n) = next_number (backward n)

turned : Text → Text → Text
turned done [] = done
turned done (c ∷ s) = turned (c ∷ done) s

-- `%d`
unfoldable pub decimal : ℕ → Text
unfolding backward turned
decimal n = turned [] (backward n)

unfoldable pub starts_with : Text → Text → Bool
starts_with s [] = true
starts_with [] (m ∷ ms) = false
starts_with (c ∷ s) (m ∷ ms) = c == m && starts_with s ms

-- `strings.Contains`
unfoldable pub contains : Text → Text → Bool
unfolding starts_with
contains [] m = starts_with [] m
contains (c ∷ s) m = starts_with (c ∷ s) m || contains s m

-- `len` of a text: its bytes in UTF-8
unfoldable pub byte_length : Text → ℕ
byte_length [] = 0
byte_length (c ∷ s) =
    (if ltb c 128 then 1 else if ltb c 2048 then 2 else if ltb c 65536 then 3 else 4)
    + byte_length s

-- `strings.TrimPrefix`
unfoldable pub trim_prefix : Text → Text → Option Text
trim_prefix [] s = some s
trim_prefix (p ∷ ps) [] = none
trim_prefix (p ∷ ps) (c ∷ s) = if c == p then trim_prefix ps s else none

-- `strings.Index`: the position of the first occurrence
unfoldable pub index_of : Text → Text → Option ℕ
unfolding starts_with
index_of m [] = if starts_with [] m then some 0 else none
index_of m (c ∷ s) =
    let rest = index_of m s in if starts_with (c ∷ s) m then some 0 else Option.map suc rest

-- `strings.LastIndex`
unfoldable pub last_index_of : Text → Text → Option ℕ
unfolding starts_with
last_index_of m [] = if starts_with [] m then some 0 else none
last_index_of m (c ∷ s) = elim (last_index_of m s) [
  | some i ↦ some (suc i)
  | none ↦ if starts_with (c ∷ s) m then some 0 else none
]

-- `truncateRunes`: at most so many runes
unfoldable pub truncate_runes : ℕ → Text → Text
truncate_runes max s = if leb (length s) max then s else take max s
