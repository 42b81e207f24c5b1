-- ===== src/Core/Gate.antt =====
-- internal/core/significance_gate.go: whether an event is worth keeping. The embedder is a
-- parameter: `none` is its error. A text is a list of code points; a token has one byte for each.
pub mod Tokens
pub mod Conditions
use vatbrain.Prelude.{
  ℕ, zero, suc, ◌+◌, ◌*◌, Bool, true, false, not, ◌&&◌, ◌||◌, String, Option, none, some, List, [],
  ◌∷◌, ◌++◌, map, length, any, keep, ltb, leb, nat_eq, ◌==◌, ◌!=◌, if◌then◌else◌,
}
use vatbrain.Prelude.Text.{Text, text_eq}
use vatbrain.Float.{Float64, zero_f}
use vatbrain.Models.Common.{Time}
use vatbrain.Vector.{is_empty, cosine_similarity, has_magnitude}

pub record WriteEvent : Type 0 where
  pub summary : Text
  pub user_confirmed : Bool
  pub is_correction : Bool
  pub caused_behavior_change : Bool
  pub subsequent_reference_count : ℕ
  pub occurred_at : Time

pub record WorkingMemoryCycle : Type 0 where
  pub summary : Text

pub record GateResult : Type 0 where
  pub should_persist : Bool
  pub reason : String

abbrev pub between : ℕ → ℕ → ℕ → Bool
between a r b = leb a r && leb r b

-- 'a'..'z', 'A'..'Z', '0'..'9'
abbrev pub is_alpha_num : ℕ → Bool
is_alpha_num r = between 97 r 122 || between 65 r 90 || between 48 r 57

abbrev pub lower : ℕ → ℕ
lower c = if between 65 c 90 then c + 32 else c

-- `toLower`
abbrev pub to_lower : Text → Text
to_lower s = map lower s

-- A token that ends is kept if it is longer than 3.
flushed : Text → List Text
flushed token = if ltb 3 (length token) then to_lower token ∷ [] else []

-- The loop of `Tokenize`, with the token that is open, `s[start:i]`, and the tokens so far.
pub tokenize_from : Text → List Text → Text → List Text
unfolding flushed
tokenize_from token tokens [] = tokens ++ flushed token
tokenize_from token tokens (r ∷ s) =
    tokenize_from (if is_alpha_num r then token ++ r ∷ [] else [])
      (if is_alpha_num r then tokens else tokens ++ flushed token) s

unfoldable pub tokenize : Text → List Text
tokenize s = tokenize_from [] [] s

-- how many tokens of `b` are among those of `a`
shared : List Text → List Text → ℕ
shared a b = length (keep (λ t. any (λ u. u == t) a) b)

-- `float64(matches)/float64(smaller) > 0.3`, in whole numbers
unfoldable pub token_overlap : Text → Text → Bool
unfolding shared
token_overlap a b =
    let ta = tokenize a in
    let tb = tokenize b in
    let matches = shared ta tb in
    let smaller = if ltb (length tb) (length ta) then length tb else length ta in
    if is_empty ta || is_empty tb then false else leb 3 matches || ltb (3 * smaller) (10 * matches)

pub record SignificanceGate (W : Type 0) : Type 0 where
  pub min_cross_cycle_count : ℕ
  pub min_subsequent_refs : ℕ
  pub embedder : Option (Text → Option (List W))
  pub embed_similarity_threshold : W

module _ {W : Type 0} ⦃d : Float64 W⦄ where
  -- `DefaultSignificanceGate`
  abbrev pub default_significance_gate : SignificanceGate W
  default_significance_gate = record {
    min_cross_cycle_count = 2;
    min_subsequent_refs = 2;
    embedder = none;
    embed_similarity_threshold = d.ratio 7 10;
  }

  similarity_of : Option (List W) → Option (List W) → Option W
  similarity_of (some a) (some b) =
      if is_empty a
        || is_empty b
        || length a != length b
        || not (has_magnitude a)
        || not (has_magnitude b)
      then none
      else some (cosine_similarity a b)
  similarity_of _ _ = none

  -- `embeddingSimilarity`: `none` where `ok` is false.
  unfoldable pub embedding_similarity : (Text → Option (List W)) → Text → Text → Option W
  unfolding similarity_of
  embedding_similarity embed a b = similarity_of (embed a) (embed b)

  similar : W → Text → Text → Option W → Bool
  similar threshold a b (some sim) = d.le threshold sim
  similar threshold a b none = token_overlap a b

  count_with : Option (Text → Option (List W)) → W → Text → List WorkingMemoryCycle → ℕ
  unfolding similar
  count_with none threshold s cs = length (keep (λ c. token_overlap s c.summary) cs)
  count_with (some embed) threshold s cs =
      let t = if d.le threshold zero_f then d.ratio 7 10 else threshold in
      length (keep (λ c. similar t s c.summary (embedding_similarity embed s c.summary)) cs)

  -- `countRecentCycles`
  unfoldable pub count_recent_cycles : SignificanceGate W → WriteEvent → List WorkingMemoryCycle → ℕ
  unfolding count_with
  count_recent_cycles g event cs =
      count_with g.embedder g.embed_similarity_threshold event.summary cs

  unfoldable pub evaluate : SignificanceGate W → WriteEvent → List WorkingMemoryCycle → GateResult
  evaluate g event cs =
      if event.user_confirmed
      then record { should_persist = true; reason = "user_confirmed" }
      else if leb g.min_cross_cycle_count (count_recent_cycles g event cs)
      then record { should_persist = true; reason = "cross_cycle_persistence" }
      else if event.is_correction || event.caused_behavior_change
      then record { should_persist = true; reason = "prediction_error" }
      else if leb g.min_subsequent_refs event.subsequent_reference_count
      then record { should_persist = true; reason = "subsequent_reference" }
      else record { should_persist = false; reason = "below_threshold" }
