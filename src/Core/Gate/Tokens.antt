-- ===== src/Core/Gate/Tokens.antt =====
-- The tokens of internal/core/significance_gate.go.
use mathlib.Core.List.{append-nil, append_assoc}
use vatbrain.Prelude.{
  ℕ, suc, ◌<◌, ◌≡◌, refl, sym, ap, ◌∙◌, true, false, ◌||◌, List, [], ◌∷◌, ◌++◌, length, All,
  All-append, ltb, Bool-cases, inl, inr, arith,
}
use vatbrain.Prelude.Text.{Text}
use vatbrain.Core.Gate.{is_alpha_num, lower, to_lower, between, flushed, tokenize_from, tokenize}

-- 'a'..'z' or '0'..'9'
abbrev pub IsLowerAlphaNum : ℕ → Type 0
IsLowerAlphaNum r = (between 97 r 122 || between 48 r 57) ≡ true

pub record IsToken (t : Text) : Type 0 where
  pub long : 3 < length t
  pub letters : All IsLowerAlphaNum t

abbrev IsOpen : Text → Type 0
IsOpen t = All (λ r. is_alpha_num r ≡ true) t

lower-IsLowerAlphaNum : (r : ℕ) → is_alpha_num r ≡ true → IsLowerAlphaNum (lower r)
lower-IsLowerAlphaNum r h = ground arith

to_lower-letters : (t : Text) → IsOpen t → All IsLowerAlphaNum (to_lower t)
to_lower-letters [] h = tt
to_lower-letters (r ∷ t) (h, hs) = (lower-IsLowerAlphaNum r h, to_lower-letters t hs)

length-to_lower : (t : Text) → length (to_lower t) ≡ length t
length-to_lower [] = refl
length-to_lower (r ∷ t) = ap suc (length-to_lower t)

flushed-IsToken : (t : Text) → IsOpen t → All IsToken (flushed t)
unfolding flushed
flushed-IsToken t h = elim (Bool-cases (ltb 3 (length t))) [
  | inl e ↦
      rw e (record { long = ground (arith, length-to_lower t); letters = to_lower-letters t h }, tt)
  | inr e ↦ rw e tt
]

tokenize_from-IsToken :
    (token : Text) (tokens : List Text) (s : Text)
    → IsOpen token
    → All IsToken tokens
    → All IsToken (tokenize_from token tokens s)
unfolding tokenize_from
tokenize_from-IsToken token tokens [] h hs =
    All-append IsToken tokens (flushed token) hs (flushed-IsToken token h)
tokenize_from-IsToken token tokens (r ∷ s) h hs = elim (Bool-cases (is_alpha_num r)) [
  | inl e ↦
      rw e (
        tokenize_from-IsToken (token ++ r ∷ []) tokens s (All-append _ token (r ∷ []) h (e, tt)) hs)
  | inr e ↦ rw e (
      tokenize_from-IsToken [] (tokens ++ flushed token) s tt
        (All-append IsToken tokens (flushed token) hs (flushed-IsToken token h)))
]

-- Every token of any text is longer than 3, and made of lowercase letters and digits.
pub tokenize-IsToken : (s : Text) → All IsToken (tokenize s)
unfolding tokenize
tokenize-IsToken s = tokenize_from-IsToken [] [] s tt tt

-- The tokens with the separator `sep` after each.
pub joined : ℕ → List Text → Text
joined sep [] = []
joined sep (t ∷ ts) = t ++ sep ∷ joined sep ts

lower-lower : (r : ℕ) → IsLowerAlphaNum r → (is_alpha_num r ≡ true) × (lower r ≡ r)
lower-lower r h = (ground arith, ground arith)

read_token :
    (token : Text) (tokens : List Text) (t rest : Text)
    → All IsLowerAlphaNum t
    → tokenize_from token tokens (t ++ rest) ≡ tokenize_from (token ++ t) tokens rest
unfolding tokenize_from
read_token token tokens [] rest h = ap (λ u. tokenize_from u tokens rest) (sym (append-nil token))
read_token token tokens (r ∷ t) rest (h, hs) =
    rw ((lower-lower r h).0, tokenize_from)
      (read_token (token ++ r ∷ []) tokens t rest hs
        ∙ ap (λ u. tokenize_from u tokens rest) (append_assoc token (r ∷ []) t))

to_lower_id : (t : Text) → All IsLowerAlphaNum t → to_lower t ≡ t
to_lower_id [] h = refl
to_lower_id (r ∷ t) (h, hs) = rw ((lower-lower r h).1, to_lower_id t hs)

flushed_id : (t : Text) → IsToken t → flushed t ≡ t ∷ []
unfolding flushed
flushed_id t h =
    let e : ltb 3 (length t) ≡ true = let k = h.long in ground arith in
    rw (e, to_lower_id t h.letters)

tokenize_from-joined :
    (sep : ℕ) (tokens ts : List Text)
    → is_alpha_num sep ≡ false
    → All IsToken ts
    → tokenize_from [] tokens (joined sep ts) ≡ tokens ++ ts
unfolding tokenize_from joined flushed
tokenize_from-joined sep tokens [] h hs = refl
tokenize_from-joined sep tokens (t ∷ ts) h (k, ks) =
    read_token [] tokens t (sep ∷ joined sep ts) k.letters
    ∙ rw (h, tokenize_from, flushed_id t k)
        (tokenize_from-joined sep (tokens ++ t ∷ []) ts h ks ∙ append_assoc tokens (t ∷ []) ts)

-- Tokens that are written with a separator after each are read back, whatever the separator, if it is
-- neither a letter nor a digit.
pub tokenize-joined :
    (sep : ℕ) (ts : List Text)
    → is_alpha_num sep ≡ false
    → All IsToken ts
    → tokenize (joined sep ts) ≡ ts
unfolding tokenize
tokenize-joined sep ts h hs = tokenize_from-joined sep [] ts h hs
