-- ===== src/Tests/Provider.antt =====
-- The theorems on the recall block of internal/provider, applied to sample data.
use vatbrain.Prelude.{◌≡◌, refl, true, inr, false, List, [], ◌∷◌, none, some, string_eq}
use vatbrain.Prelude.Int.{pos}
use vatbrain.Prelude.Text.{Text, codes}
use vatbrain.Float.Fixed.{Fixed, fixed_float}
use vatbrain.Models.Common.{Time}
use vatbrain.Models.Episodic.{EpisodicMemory}
use vatbrain.Prelude.Format.{trim_space, contains, one_line, decimal}
use vatbrain.Provider.Prefetch.{format_prefetch, estimate_tokens}
use vatbrain.Provider.Condense.{
  exceeds, CondenseOptions, default_condense_options, trimmed, repeats, suppress_near_duplicates,
  format_prefetch_condensed,
}
use vatbrain.Provider.Condense.Kept.{IsSuppressed, suppress_near_duplicates-IsSuppressed}
use vatbrain.Provider.Condense.Budget.{
  over_budget, IsTrimmed, trimmed-IsTrimmed, IsCondensed, format_prefetch_condensed-IsCondensed,
}
use vatbrain.Provider.Condense.Plain.{condensed_is_plain}
use vatbrain.Provider.Derive.{
  derive_write_event, detect_user_confirmed, detect_correction, derive_summary, trim_leading_punct,
}
use vatbrain.Provider.Derive.Derived.{IsDerived, derive_write_event-IsDerived}
use vatbrain.Tests.Samples.{sample_pitfall, memory}

abbrev some_day : Time → Text
some_day t = codes "2026-01-02"

abbrev told : List (EpisodicMemory Fixed)
told =
    memory 1 10 none
    ∷ record (memory 2 20 none) { summary = codes "the  pool leaks " }
    ∷ record (memory 3 30 none) { summary = codes "use go 1.22"; language = "" }
    ∷ []

abbrev small : CondenseOptions Fixed
small = record { max_tokens = pos 5; duplicate_similarity = some (pos 0) }

one_line_test : one_line (codes " a pool\n leaks ") ≡ codes "a pool leaks"
unfolding one_line
one_line_test = refl

decimal_test : decimal 120 ≡ codes "120"
unfolding decimal
decimal_test = refl

suppress_near_duplicates-IsSuppressed_example :
    IsSuppressed
      (repeats (λ m. m.summary) (some (pos 900)) none)
      (suppress_near_duplicates told (λ m. m.summary) (some (pos 900)) none)
      told
suppress_near_duplicates-IsSuppressed_example =
    suppress_near_duplicates-IsSuppressed told (λ m. m.summary) (some (pos 900)) none

trimmed-IsTrimmed_example :
    IsTrimmed some_day
      (pos 5)
      told
      (sample_pitfall ∷ [])
      (trimmed some_day (pos 5) told (sample_pitfall ∷ []))
trimmed-IsTrimmed_example = trimmed-IsTrimmed some_day (pos 5) told (sample_pitfall ∷ [])

format_prefetch_condensed-IsCondensed_example :
    IsCondensed some_day small told
      (sample_pitfall ∷ [])
      (format_prefetch_condensed some_day told (sample_pitfall ∷ []) small)
format_prefetch_condensed-IsCondensed_example =
    format_prefetch_condensed-IsCondensed some_day told (sample_pitfall ∷ []) small

block_test :
    format_prefetch some_day (memory 1 10 none ∷ []) (sample_pitfall ∷ [])
    ≡ codes
        "[vatbrain memory context]\n- the pool leaks (lang: go)\n\n[Risk advisory — vatbrain]\n- func:NewRedisPool: pool exhausted\n  root cause: RESOURCE · 曾于 2026-01-02 发生 · confidence: 4\n  Fix: close the connections"
unfolding format_prefetch
block_test = refl

within : over_budget some_day (pos 2048) (memory 1 10 none ∷ []) (sample_pitfall ∷ []) ≡ false
unfolding estimate_tokens format_prefetch exceeds
within = refl

condensed_is_plain_example :
    (format_prefetch_condensed some_day
      (memory 1 10 none ∷ [])
      (sample_pitfall ∷ [])
      default_condense_options).0
    ≡ format_prefetch some_day (memory 1 10 none ∷ []) (sample_pitfall ∷ [])
unfolding default_condense_options
condensed_is_plain_example =
    condensed_is_plain some_day (memory 1 10 none ∷ []) (sample_pitfall ∷ [])
      default_condense_options (refl, tt) (refl, tt) (inr within)

abbrev told_to_remember : Text
told_to_remember = codes " 继续： Remember this: use Ruby"

confirmed_test : derive_write_event told_to_remember ≡ record {
  summary = codes "Remember this: use Ruby";
  user_confirmed = true;
  is_correction = false;
  caused_behavior_change = false;
  subsequent_reference_count = 0;
  occurred_at = 0;
}
unfolding derive_write_event detect_user_confirmed derive_summary trim_space trim_leading_punct
    contains
confirmed_test = refl

correction_test : (derive_write_event (codes "No, DON'T use gsub")).is_correction ≡ true
unfolding derive_write_event detect_user_confirmed detect_correction trim_space contains
correction_test = refl

derive_write_event-IsDerived_example :
    IsDerived told_to_remember (derive_write_event told_to_remember)
derive_write_event-IsDerived_example = derive_write_event-IsDerived told_to_remember
