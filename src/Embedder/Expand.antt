-- ===== src/Embedder/Expand.antt =====
-- The expansion of a question, internal/embedder/expand.go, with the matching of its two patterns
-- written out. Lower case is that of ASCII, which the terms are of, but for two letters that fold.
use vatbrain.Prelude.{
  ℕ, zero, suc, Bool, ◌&&◌, ◌||◌, not, nat_eq, ◌==◌, String, List, [], ◌∷◌, ◌++◌, Option, none,
  some, map, any, length, take, drop, leb, if◌then◌else◌,
}
use vatbrain.Prelude.Format.{is_empty, trim_space, starts_with, spaced}
use vatbrain.Prelude.Text.{Text, codes, text_eq}
use vatbrain.Core.Conflict.Directive.{lower_rune}
use vatbrain.Core.Gate.{is_alpha_num}
use vatbrain.Provider.Derive.{fold_rune}
use vatbrain.Watcher.Keywords.{extensions}

-- a match, and what follows it
abbrev pub Match : Type 0
Match = Option (Text × Text)

-- `[\w./-]`, with folded case
ref_char : ℕ → Bool
ref_char r = let c = fold_rune r in is_alpha_num c || c == 95 || c == 46 || c == 47 || c == 45

-- the length of the first extension that the text starts with
extension_length : List String → Text → Option ℕ
extension_length [] s = none
extension_length (e ∷ es) s =
    let rest = extension_length es s in
    if starts_with (map fold_rune s) (codes e) then some (length (codes e)) else rest

dotted : Text → Match
unfolding extension_length
dotted [] = none
dotted (c ∷ s) =
    if c == 46
    then elim (extension_length extensions s) [
      | none ↦ none
      | some n ↦ some (46 ∷ take n s, drop n s)
    ]
    else none

-- The rest of a path after its first character: the longest one that has an extension.
path_tail : Text → Match
unfolding dotted ref_char
path_tail [] = none
path_tail (c ∷ s) =
    let longer : Match = if ref_char c then path_tail s else none in
    elim longer [ some (m, rest) ↦ some (c ∷ m, rest) | none ↦ dotted (c ∷ s) ]

put : ℕ → Match → Match
put c none = none
put c (some (m, rest)) = some (c ∷ m, rest)

path_match : Text → Match
unfolding path_tail ref_char put
path_match [] = none
path_match (c ∷ s) = if ref_char c then put c (path_tail s) else none

-- `EntityRefRe` at the start of a text: the at sign may be missing.
unfoldable pub ref_match : Text → Match
unfolding path_match put
ref_match [] = none
ref_match (c ∷ s) = if c == 64 then put c (path_match s) else path_match (c ∷ s)

-- The run of runes with a property at the start of a text.
unfoldable pub span : (ℕ → Bool) → Text → Text × Text
span p [] = ([], [])
span p (c ∷ s) = let (run, rest) = span p s in if p c then (c ∷ run, rest) else ([], c ∷ s)

abbrev is_digit : ℕ → Bool
is_digit c = leb 48 c && leb c 57

abbrev is_letter : ℕ → Bool
is_letter c = is_alpha_num c && not (is_digit c)

-- `latinTokenRe` at the start of a text
unfoldable pub latin_match : Text → Match
unfolding span
latin_match [] = none
latin_match (c ∷ s) =
    let (word, rest) = span is_alpha_num s in
    let (digits, rest') = span is_digit s in
    if is_letter c
    then some (c ∷ word, rest)
    else if is_digit c && not (is_empty digits)
    then some (c ∷ digits, rest')
    else none

-- `FindAllString`, with fuel: each round takes a rune off at least.
unfoldable pub find_all : (Text → Match) → ℕ → Text → List Text
find_all match zero s = []
find_all match (suc n) [] = []
find_all match (suc n) (c ∷ s) = elim (match (c ∷ s)) [
  | none ↦ find_all match n s
  | some (m, rest) ↦ m ∷ find_all match n rest
]

unfoldable pub entity_refs : Text → List Text
unfolding ref_match find_all
entity_refs s = find_all ref_match (length s) s

unfoldable pub latin_tokens : Text → List Text
unfolding latin_match find_all
latin_tokens s = find_all latin_match (length s) s

unfoldable pub without_at : Text → Text
without_at [] = []
without_at (c ∷ s) = if c == 64 then s else c ∷ s

-- A term is added in lower case, unless it is there.
add_terms : List Text → List Text → List Text
add_terms terms [] = terms
add_terms terms (t ∷ ts) =
    let term = map lower_rune t in
    add_terms (if any (λ u. u == term) terms then terms else terms ++ term ∷ []) ts

unfoldable pub expand_query : Text → Text
unfolding add_terms without_at
expand_query question =
    let q = trim_space question in
    let terms = add_terms (add_terms [] (map without_at (entity_refs q))) (latin_tokens q) in
    if is_empty q || is_empty terms then q else q ++ 32 ∷ spaced terms
