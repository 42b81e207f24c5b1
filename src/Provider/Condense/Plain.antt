-- ===== src/Provider/Condense/Plain.antt =====
-- Where internal/provider/condense.go changes nothing.
use mathlib.Core.List.{append_assoc, append-nil}
use vatbrain.Prelude.{
  ◌≡◌, refl, sym, ap, ◌∙◌, ◌⊎◌, inl, inr, Bool, Bool-cases, false, List, [], ◌∷◌, ◌++◌, any, none,
  some, string_eq, ◌==◌,
}
use vatbrain.Prelude.Int.{positive}
use vatbrain.Prelude.Text.{Text}
use vatbrain.Float.{Float64}
use vatbrain.Models.Common.{Time}
use vatbrain.Models.Episodic.{EpisodicMemory}
use vatbrain.Models.Pitfall.{PitfallMemory}
use vatbrain.Provider.Prefetch.{format_prefetch}
use vatbrain.Provider.Condense.{
  CondenseOptions, Suppression, suppress_step, suppress_loop, suppress_near_duplicates, repeats,
  duplicate_threshold, condense_episodes, condense_pitfalls, format_prefetch_condensed,
}
use vatbrain.Provider.Condense.Kept.{IsFresh}
use vatbrain.Provider.Condense.Budget.{over_budget}

fresh-suppress_step :
    {T : Type 0} (same : T → T → Bool) (st : Suppression T) (it : T)
    → any (same it) st.kept ≡ false
    → suppress_step same st it ≡ record st { kept = st.kept ++ it ∷ [] }
unfolding suppress_step
fresh-suppress_step same st it h = rw h refl

fresh-suppress_loop :
    {T : Type 0} (same : T → T → Bool) (st : Suppression T) (items : List T)
    → IsFresh same st.kept items
    → (suppress_loop same st items).kept ≡ st.kept ++ items
unfolding suppress_loop
fresh-suppress_loop same st [] h = sym (append-nil st.kept)
fresh-suppress_loop same st (it ∷ items) (h, hs) =
    ap (λ s. (suppress_loop same s items).kept) (fresh-suppress_step same st it h)
    ∙ (fresh-suppress_loop same (record st { kept = st.kept ++ it ∷ [] }) items hs
        ∙ append_assoc st.kept (it ∷ []) items)

module _ {W : Type 0} ⦃d : Float64 W⦄ where
  -- the tests of both suppressions
  abbrev pub repeated_episode : CondenseOptions W → EpisodicMemory W → EpisodicMemory W → Bool
  repeated_episode opts = repeats (λ m. m.summary) (duplicate_threshold opts) none

  abbrev pub repeated_pitfall : CondenseOptions W → PitfallMemory W → PitfallMemory W → Bool
  repeated_pitfall opts =
      repeats (λ p. p.signature) (duplicate_threshold opts)
        (some (λ a b. a.entity_id == b.entity_id))

  fresh-condense_episodes :
      (opts : CondenseOptions W) (eps : List (EpisodicMemory W))
      → IsFresh (repeated_episode opts) [] eps
      → (condense_episodes eps opts).kept ≡ eps
  unfolding condense_episodes suppress_near_duplicates
  fresh-condense_episodes opts eps h =
      fresh-suppress_loop (repeated_episode opts) (record { kept = []; suppressed = 0 }) eps h

  fresh-condense_pitfalls :
      (opts : CondenseOptions W) (pits : List (PitfallMemory W))
      → IsFresh (repeated_pitfall opts) [] pits
      → (condense_pitfalls pits opts).kept ≡ pits
  unfolding condense_pitfalls suppress_near_duplicates
  fresh-condense_pitfalls opts pits h =
      fresh-suppress_loop (repeated_pitfall opts) (record { kept = []; suppressed = 0 }) pits h

  -- Where no episode and no pitfall repeats an earlier one, and there is no budget or the block is
  -- within it, the condensed block is the plain one.
  pub condensed_is_plain :
      (day : Time → Text) (eps : List (EpisodicMemory W)) (pits : List (PitfallMemory W))
      (opts : CondenseOptions W)
      → IsFresh (repeated_episode opts) [] eps
      → IsFresh (repeated_pitfall opts) [] pits
      → (positive opts.max_tokens ≡ false) ⊎ (over_budget day opts.max_tokens eps pits ≡ false)
      → (format_prefetch_condensed day eps pits opts).0 ≡ format_prefetch day eps pits
  unfolding format_prefetch_condensed
  condensed_is_plain day eps pits opts h h' (inl e) =
      rw (fresh-condense_episodes opts eps h, fresh-condense_pitfalls opts pits h', e) refl
  condensed_is_plain day eps pits opts h h' (inr e) =
      rw (fresh-condense_episodes opts eps h, fresh-condense_pitfalls opts pits h', e)
        (elim (Bool-cases (positive opts.max_tokens)) [ inl k ↦ rw k refl | inr k ↦ rw k refl ])
