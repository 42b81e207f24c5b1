-- ===== src/Core/Conflict/Directive.antt =====
-- The lexical part of internal/core/conflict.go: directives and shared bigrams. `strings.ToLower`
-- also folds letters outside ASCII; of these only two become letters of a marker.
use vatbrain.Prelude.{
  ℕ, ◌+◌, ◌*◌, Bool, true, false, ◌&&◌, ◌||◌, String, List, [], ◌∷◌, map, keep, any, length, leb,
  nat_eq, ◌==◌, if◌then◌else◌,
}
use vatbrain.Prelude.Text.{Text, codes, text_eq}
use vatbrain.Prelude.Format.{contains}
use vatbrain.Float.{Float64, zero_f}
use vatbrain.Vector.{is_empty}

pub data Polarity : Type 0 where
  neutral prohibitive affirmative : Polarity

abbrev pub prohibitive_markers : List String
prohibitive_markers =
    "不要" ∷ "禁止" ∷ "别用" ∷ "不要用" ∷ "别再用" ∷ "避免" ∷ "不应" ∷ "不能" ∷ "不可" ∷ "不该" ∷ "never" ∷ "don't"
    ∷ "do not" ∷ "must not" ∷ "mustn't" ∷ "avoid" ∷ "forbid" ∷ "禁止使用" ∷ []

abbrev pub affirmative_markers : List String
affirmative_markers =
    "应该" ∷ "应当" ∷ "必须" ∷ "一定要" ∷ "始终" ∷ "总是" ∷ "always" ∷ "must" ∷ "should" ∷ "使用" ∷ "采用" ∷ "选用"
    ∷ "需要" ∷ []

-- 'K' stands for the Kelvin sign too, and 'i' for a capital I with a dot.
unfoldable pub lower_rune : ℕ → ℕ
lower_rune c =
    if leb 65 c && leb c 90 then c + 32 else if c == 8490 then 107 else if c == 304 then 105 else c

unfoldable pub detect_polarity : Text → Polarity × Bool
detect_polarity content =
    let norm = map lower_rune content in
    if any (λ m. contains norm (map lower_rune (codes m))) prohibitive_markers
    then (Polarity.prohibitive, true)
    else if any (λ m. contains norm (map lower_rune (codes m))) affirmative_markers
    then (Polarity.affirmative, true)
    else (Polarity.neutral, false)

unfoldable pub same_polarity : Polarity → Polarity → Bool
same_polarity Polarity.neutral Polarity.neutral = true
same_polarity Polarity.prohibitive Polarity.prohibitive = true
same_polarity Polarity.affirmative Polarity.affirmative = true
same_polarity _ _ = false

-- A set of texts is a list without repetition.
unfoldable pub add_once : Text → List Text → List Text
add_once t ts = if any (λ u. u == t) ts then ts else t ∷ ts

bigrams : Text → List Text
bigrams [] = []
bigrams (a ∷ []) = []
bigrams (a ∷ b ∷ s) = add_once (a ∷ b ∷ []) (bigrams (b ∷ s))

-- `charBigramSet`
unfoldable pub char_bigram_set : Text → List Text
unfolding bigrams
char_bigram_set (a ∷ []) = (a ∷ []) ∷ []
char_bigram_set s = bigrams s

-- how many elements of `a` are in `b`
unfoldable pub common : List Text → List Text → ℕ
common a b = length (keep (λ t. any (λ u. u == t) b) a)

-- The quotient of the source is one division of whole numbers.
unfoldable pub bigram_dice : {W : Type 0} ⦃d : Float64 W⦄ → Text → Text → W
bigram_dice ⦃d⦄ a b =
    let sa = char_bigram_set a in
    let sb = char_bigram_set b in
    if is_empty sa || is_empty sb
    then zero_f
    else d.ratio (2 * common sa sb) (length sa + length sb)
