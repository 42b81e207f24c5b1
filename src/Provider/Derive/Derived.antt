-- ===== src/Provider/Derive/Derived.antt =====
-- What internal/provider/derive.go makes of a message.
use mathlib.Core.Option.{some-injective, none-ne-some}
use vatbrain.Prelude.{
  ap₂, Option-cases, ℕ, zero, suc, ◌<◌, ◌≤◌, ◌≡◌, ◌⊎◌, refl, sym, ap, ◌∙◌, true, false, ◌&&◌, [],
  ◌∷◌, ◌++◌, none, some, All, any, length, length-take, length-drop, take, drop, take-append-drop,
  nat_eq, ◌==◌, Bool-cases, inl, inr, arith,
}
use vatbrain.Prelude.Text.{Text, codes}
use vatbrain.Prelude.Format.{trim_space, trim_prefix}
use vatbrain.Core.Gate.{WriteEvent}
use vatbrain.Provider.Derive.{
  leading, or_whole, trim_leading_punct, derive_summary, derive_write_event, detect_correction,
}

-- The rune is a space or one of the marks that are trimmed in front.
abbrev pub IsMark : ℕ → Type 0
IsMark c = any (λ p. p == c) leading ≡ true

-- The text does not start with such a rune.
abbrev pub IsClean : Text → Type 0
IsClean [] = Unit
IsClean (c ∷ s) = any (λ p. p == c) leading ≡ false

trim_leading_punct-IsClean : (s : Text) → IsClean (trim_leading_punct s)
unfolding trim_leading_punct
trim_leading_punct-IsClean [] = tt
trim_leading_punct-IsClean (c ∷ s) = elim (Bool-cases (any (λ p. p == c) leading)) [
  | inl e ↦ rw e (trim_leading_punct-IsClean s)
  | inr e ↦ rw e e
]

take-IsClean : (n : ℕ) (s : Text) → IsClean s → IsClean (take n s)
take-IsClean zero s h = tt
take-IsClean (suc n) [] h = tt
take-IsClean (suc n) (c ∷ s) h = h

-- Only marks are trimmed.
trim_leading_punct-rest :
    (s : Text) → (marks : Text) × (s ≡ marks ++ trim_leading_punct s) × All IsMark marks
unfolding trim_leading_punct
trim_leading_punct-rest [] = ([], refl, tt)
trim_leading_punct-rest (c ∷ s) = elim (Bool-cases (any (λ p. p == c) leading)) [
  | inl e ↦
      let (marks, same, all) = trim_leading_punct-rest s in
      rw e (c ∷ marks, ap (λ l. c ∷ l) same, (e, all))
  | inr e ↦ rw e ([], refl, tt)
]

trim_prefix-some : (m s r : Text) → trim_prefix m s ≡ some r → s ≡ m ++ r
unfolding trim_prefix
trim_prefix-some [] s r h = some-injective _ _ h
trim_prefix-some (p ∷ ps) [] r h = absurd (none-ne-some _ h)
trim_prefix-some (p ∷ ps) (c ∷ s) r h = elim (Bool-cases (c == p)) [
  | inl e ↦
      let rest : trim_prefix ps s ≡ some r = ground (arith, e, h) in
      ap₂ (λ x l. x ∷ l) ((nat_eq.beq_iff c p).0 e) (trim_prefix-some ps s r rest)
  | inr e ↦ let no : none ≡ some r = ground (arith, e, h) in absurd (none-ne-some _ no)
]

or_whole-rest :
    (m s : Text)
    → let rest = or_whole s (trim_prefix m s) in
      (front : Text) × (s ≡ front ++ rest) × ((front ≡ []) ⊎ (front ≡ m))
unfolding or_whole
or_whole-rest m s = elim (Option-cases (trim_prefix m s)) [
  | inl e ↦ rw (e, or_whole) ([], refl, inl refl)
  | inr (r, e) ↦ rw (e, or_whole) (m, trim_prefix-some m s r e, inr refl)
]

-- What the summary is a part of: what it leaves out in front is the filler, if it is there, and marks, and
-- behind it leaves something out only where it is full.
abbrev pub IsPart : Text → Text → Type 0
IsPart message summary =
    (filler marks tail : Text) × (message ≡ filler ++ (marks ++ (summary ++ tail)))
    × ((filler ≡ []) ⊎ (filler ≡ codes "继续"))
    × All IsMark marks
    × (0 < length tail → length summary ≡ 500)

derive_summary-IsPart : (content : Text) → IsPart (trim_space content) (derive_summary content)
unfolding derive_summary
derive_summary-IsPart content =
    let s = trim_space content in
    let rest = or_whole s (trim_prefix (codes "继续") s) in
    let clean = trim_leading_punct rest in
    let (filler, split, which) = or_whole-rest (codes "继续") s in
    let (marks, split', all) = trim_leading_punct-rest rest in
    let joined = take-append-drop 500 clean in
    (
      filler,
      marks,
      drop 500 clean,
      split ∙ ap (λ l. filler ++ l) (split' ∙ ap (λ l. marks ++ l) (sym joined)),
      which,
      all,
      λ h. ground (arith, length-take 500 clean, length-drop 500 clean, h),
    )

pub record IsDerived (content : Text) (event : WriteEvent) : Type 0 where
  pub bounded : length event.summary ≤ 500
  pub clean : IsClean event.summary
  pub part : IsPart (trim_space content) event.summary
  pub exclusive : (event.user_confirmed && event.is_correction) ≡ false
  pub short : event.is_correction ≡ true → length (trim_space content) < 200

-- The event of any message has a summary of at most 500 runes that starts with none of the spaces and marks
-- that `leading` lists. It is a part of the message without the spaces around it: in front, it leaves out
-- "继续" at most once and then such spaces and marks, and behind, something only where it is full. The event
-- is never both confirmed and a correction, and is a correction only if that message has less than 200
-- runes.
pub derive_write_event-IsDerived : (content : Text) → IsDerived content (derive_write_event content)
unfolding derive_write_event derive_summary detect_correction
derive_write_event-IsDerived content =
    let s = trim_space content in
    let rest = or_whole s (trim_prefix (codes "继续") s) in
    record {
      bounded = omega (arith, length-take 500 (trim_leading_punct rest));
      clean = take-IsClean 500 (trim_leading_punct rest) (trim_leading_punct-IsClean rest);
      part = derive_summary-IsPart content;
      exclusive = ground arith;
      short = λ e. ground arith;
    }
