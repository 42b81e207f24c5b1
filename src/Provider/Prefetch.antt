-- ===== src/Provider/Prefetch.antt =====
-- The recall block of internal/provider/retrieve.go and its size in internal/provider/condense.go.
-- The day of a time, `Format("2006-01-02")`, depends on the location of the time and is a parameter.
use vatbrain.Prelude.{
  ℕ, ◌+◌, ◌/◌, ◌&&◌, string_eq, nat_eq, ◌==◌, List, [], ◌∷◌, ◌++◌, Option, none, some, leb,
  if◌then◌else◌,
}
use vatbrain.Prelude.Text.{Text, codes}
use vatbrain.Prelude.Format.{is_empty, one_line, trim_space, decimal}
use vatbrain.Models.Common.{Time}
use vatbrain.Models.Episodic.{EpisodicMemory}
use vatbrain.Models.Pitfall.{PitfallMemory}

-- the runes from U+3000 to U+9FFF, and the others
record Runes : Type 0 where
  pub cjk : ℕ
  pub other : ℕ

count_runes : Text → Runes
count_runes [] = record { cjk = 0; other = 0 }
count_runes (r ∷ s) =
    let n = count_runes s in
    if leb 12288 r && leb r 40959
    then record n { cjk = n.cjk + 1 }
    else record n { other = n.other + 1 }

unfoldable pub estimate_tokens : Text → ℕ
unfolding count_runes
estimate_tokens s = let n = count_runes s in n.cjk + (n.other + 3) / 4

happened : (Time → Text) → Option Time → Text
happened day none = codes "—"
happened day (some t) = day t

module _ {W : Type 0} where
  episode_line : EpisodicMemory W → Text
  episode_line ep =
      codes "- "
      ++ one_line ep.summary
      ++ (if ep.language == "" then [] else codes " (lang: " ++ codes ep.language ++ codes ")")

  -- The loop on the episodes, after its first round.
  more_lines : List (EpisodicMemory W) → Text
  unfolding episode_line
  more_lines [] = []
  more_lines (ep ∷ eps) = 10 ∷ episode_line ep ++ more_lines eps

  episode_block : List (EpisodicMemory W) → Text
  unfolding episode_line more_lines
  episode_block [] = []
  episode_block (ep ∷ eps) =
      codes "[vatbrain memory context]" ++ 10 ∷ episode_line ep ++ more_lines eps

  advisory : (Time → Text) → PitfallMemory W → Text
  unfolding happened one_line decimal
  advisory day p =
      10 ∷ 10 ∷ codes "[Risk advisory — vatbrain]"
      ++ 10 ∷ codes "- "
      ++ codes p.entity_id
      ++ codes ": "
      ++ one_line p.signature
      ++ 10 ∷ codes "  root cause: "
      ++ codes p.root_cause_category
      ++ codes " · 曾于 "
      ++ happened day p.last_occurred_at
      ++ codes " 发生 · confidence: "
      ++ decimal p.trust_level
      ++ 10
        ∷ (if is_empty p.fix_strategy
            then []
            else codes "  Fix: " ++ one_line p.fix_strategy ++ 10 ∷ [])

  advisories : (Time → Text) → List (PitfallMemory W) → Text
  unfolding advisory
  advisories day [] = []
  advisories day (p ∷ ps) = advisory day p ++ advisories day ps

  unfoldable pub format_prefetch :
      (Time → Text) → List (EpisodicMemory W) → List (PitfallMemory W) → Text
  unfolding episode_block advisories trim_space
  format_prefetch day eps ps = trim_space (episode_block eps ++ advisories day ps)
