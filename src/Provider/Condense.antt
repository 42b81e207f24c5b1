-- ===== src/Provider/Condense.antt =====
-- internal/provider/condense.go: what is left out of the recall block. Case is folded as in
-- Core.Conflict.Directive, so only in ASCII.
pub mod Kept
pub mod Budget
pub mod Plain
use vatbrain.Prelude.{
  ℕ, zero, suc, ◌+◌, ◌-◌, ◌*◌, Bool, true, ◌&&◌, ◌||◌, List, [], ◌∷◌, ◌++◌, Option, none, some, map,
  any, length, take, ltb, String, string_eq, ◌==◌, if◌then◌else◌,
}
use vatbrain.Prelude.Int.{ℤ, pos, negsuc, positive}
use vatbrain.Prelude.Text.{Text, text_eq}
use vatbrain.Float.{Float64, zero_f}
use vatbrain.Vector.{is_empty}
use vatbrain.Models.Common.{Time}
use vatbrain.Models.Episodic.{EpisodicMemory}
use vatbrain.Models.Pitfall.{PitfallMemory}
use vatbrain.Core.Conflict.Directive.{lower_rune, char_bigram_set, common}
use vatbrain.Prelude.Format.{contains, byte_length, one_line}
use vatbrain.Provider.Prefetch.{estimate_tokens, format_prefetch}

pub record CondenseOptions (W : Type 0) : Type 0 where
  pub max_tokens : ℤ
  pub duplicate_similarity : W

pub record PrefetchStats : Type 0 where
  pub episodes_in : ℕ
  pub episodes_out : ℕ
  pub pitfalls_in : ℕ
  pub pitfalls_out : ℕ
  pub suppressed_episodes : ℕ
  pub suppressed_pitfalls : ℕ
  pub input_tokens : ℕ
  pub output_tokens : ℕ
  pub budget_hit : Bool

unfoldable pub char_bigrams : Text → List Text
char_bigrams s = char_bigram_set (map lower_rune s)

-- The loop that appends an item unless it repeats an earlier one.
pub record Suppression (T : Type 0) : Type 0 where
  pub kept : List T
  pub suppressed : ℕ

module _ {T : Type 0} where
  unfoldable pub suppress_step : (T → T → Bool) → Suppression T → T → Suppression T
  suppress_step repeats st it =
      if any (repeats it) st.kept
      then record st { suppressed = st.suppressed + 1 }
      else record st { kept = st.kept ++ it ∷ [] }

  unfoldable pub suppress_loop : (T → T → Bool) → Suppression T → List T → Suppression T
  unfolding suppress_step
  suppress_loop repeats st [] = st
  suppress_loop repeats st (it ∷ its) = suppress_loop repeats (suppress_step repeats st it) its

  -- `same` is nil or a test on a pair.
  unfoldable pub accepts : Option (T → T → Bool) → T → T → Bool
  accepts none a b = true
  accepts (some same) a b = same a b

  -- One round of a loop that cuts the last item off while `over` holds and an item is left besides.
  unfoldable pub cut_tail : (List T → Bool) → ℕ → List T → List T
  cut_tail over zero xs = xs
  cut_tail over (suc n) xs =
      let rest = cut_tail over n (take (length xs - 1) xs) in
      if over xs && ltb 1 (length xs) then rest else xs

-- `n > m`
unfoldable pub exceeds : ℕ → ℤ → Bool
exceeds n (pos m) = ltb m n
exceeds n (negsuc m) = true

module _ {W : Type 0} ⦃d : Float64 W⦄ where
  unfoldable pub bigram_overlap_from_sets : List Text → List Text → W
  bigram_overlap_from_sets ab bb =
      if is_empty ab || is_empty bb
      then zero_f
      else d.ratio (2 * common ab bb) (length ab + length bb)

  unfoldable pub bigram_overlap : Text → Text → W
  unfolding char_bigrams bigram_overlap_from_sets
  bigram_overlap a b =
      if is_empty a || is_empty b
      then zero_f
      else bigram_overlap_from_sets (char_bigrams a) (char_bigrams b)

  unfoldable pub default_condense_options : CondenseOptions W
  default_condense_options = record { max_tokens = pos 2048; duplicate_similarity = d.ratio 9 10 }

  unfoldable pub duplicate_threshold : CondenseOptions W → W
  duplicate_threshold opts =
      if d.le opts.duplicate_similarity zero_f then d.ratio 9 10 else opts.duplicate_similarity

  restates : W → Text → Text → Bool
  restates threshold a b = contains a b || d.le threshold (bigram_overlap a b)

  unfoldable pub redundant_restatement : Text → Text → W → Bool
  unfolding restates byte_length
  redundant_restatement a b threshold =
      a == b
      || (if ltb (byte_length a) (byte_length b)
          then restates threshold b a
          else restates threshold a b)

  -- the test on an item and one that is kept
  unfoldable pub repeats : {T : Type 0} → (T → Text) → W → Option (T → T → Bool) → T → T → Bool
  unfolding accepts
  repeats text_of threshold same it r =
      accepts same it r
      && redundant_restatement (one_line (text_of it)) (one_line (text_of r)) threshold

  unfoldable pub suppress_near_duplicates :
      {T : Type 0} → List T → (T → Text) → W → Option (T → T → Bool) → Suppression T
  unfolding repeats suppress_loop
  suppress_near_duplicates items text_of threshold same =
      suppress_loop (repeats text_of threshold same) (record { kept = []; suppressed = 0 }) items

  unfoldable pub condense_episodes :
      List (EpisodicMemory W) → CondenseOptions W → Suppression (EpisodicMemory W)
  condense_episodes episodes opts =
      suppress_near_duplicates episodes (λ m. m.summary) (duplicate_threshold opts) none

  unfoldable pub condense_pitfalls :
      List (PitfallMemory W) → CondenseOptions W → Suppression (PitfallMemory W)
  condense_pitfalls pitfalls opts =
      suppress_near_duplicates pitfalls (λ p. p.signature) (duplicate_threshold opts)
        (some (λ a b. a.entity_id == b.entity_id))

  -- the two loops that cut the tails under the budget, on the episodes first
  unfoldable pub trimmed :
      (Time → Text)
      → ℤ
      → List (EpisodicMemory W)
      → List (PitfallMemory W)
      → List (EpisodicMemory W) × List (PitfallMemory W)
  unfolding cut_tail
  trimmed day max eps pits =
      let eps' =
        cut_tail (λ es. exceeds (estimate_tokens (format_prefetch day es pits)) max) (length eps)
          eps in
      (
        eps',
        cut_tail (λ ps. exceeds (estimate_tokens (format_prefetch day eps' ps)) max) (length pits)
            pits,
      )

  unfoldable pub format_prefetch_condensed :
      (Time → Text)
      → List (EpisodicMemory W)
      → List (PitfallMemory W)
      → CondenseOptions W
      → Text × PrefetchStats
  unfolding trimmed condense_episodes condense_pitfalls exceeds
  format_prefetch_condensed day episodes pitfalls opts =
      let eps = condense_episodes episodes opts in
      let pits = condense_pitfalls pitfalls opts in
      let out = estimate_tokens (format_prefetch day eps.kept pits.kept) in
      let hit = positive opts.max_tokens && exceeds out opts.max_tokens in
      let left =
        if hit then trimmed day opts.max_tokens eps.kept pits.kept else (eps.kept, pits.kept) in
      let text = format_prefetch day left.0 left.1 in
      (
        text,
        record {
          episodes_in = length episodes;
          episodes_out = length left.0;
          pitfalls_in = length pitfalls;
          pitfalls_out = length left.1;
          suppressed_episodes = eps.suppressed;
          suppressed_pitfalls = pits.suppressed;
          input_tokens = estimate_tokens (format_prefetch day episodes pitfalls);
          output_tokens = estimate_tokens text;
          budget_hit = hit;
        },
      )
