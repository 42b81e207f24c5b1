-- ===== src/Provider/Derive.antt =====
-- internal/provider/derive.go and internal/provider/relative_time.go: what is read from a message. The
-- patterns of both are alternatives of fixed texts, matched with the case folded, and `fold_rune` is
-- that folding on their letters: the Kelvin sign and the long s fold to letters too.
pub mod Derived
use vatbrain.Prelude.{
  ℕ, zero, suc, ◌+◌, ◌-◌, ◌<◌, ◌≤◌, ◌≡◌, Bool, true, false, ◌&&◌, String, List, [], ◌∷◌, Option,
  none, some, map, any, length, length-take, take, leb, nat_eq, ◌==◌, Bool-cases, inl, inr,
  if◌then◌else◌, arith,
}
use vatbrain.Prelude.Text.{Text, codes}
use vatbrain.Models.Common.{Time}
use vatbrain.Core.Gate.{WriteEvent}
use vatbrain.Prelude.Format.{trim_space, trim_prefix, contains}

unfoldable pub fold_rune : ℕ → ℕ
fold_rune c =
    if leb 65 c && leb c 90 then c + 32 else if c == 8490 then 107 else if c == 383 then 115 else c

-- `MatchString` of such a pattern
unfoldable pub matches : List String → Text → Bool
unfolding fold_rune
matches alternatives s =
    any (λ a. contains (map fold_rune s) (map fold_rune (codes a))) alternatives

abbrev pub user_confirmed_texts : List String
user_confirmed_texts = "记住" ∷ "记得" ∷ "以后都" ∷ "记一下" ∷ "记到" ∷ "remember this" ∷ "remember that" ∷ []

-- The optional quote of a pattern makes two texts.
abbrev pub correction_texts : List String
correction_texts =
    "不对" ∷ "错了" ∷ "不是这样的" ∷ "应该是" ∷ "实际上应该是" ∷ "actually" ∷ "别用" ∷ "不要用" ∷ "别再用" ∷ "改成" ∷ "改回"
    ∷ "纠正" ∷ "should be" ∷ "don't use" ∷ "dont use" ∷ "not true" ∷ "that's wrong" ∷ "thats wrong"
    ∷ "那个不对" ∷ []

unfoldable pub detect_user_confirmed : Text → Bool
unfolding matches
detect_user_confirmed text = matches user_confirmed_texts text

unfoldable pub detect_correction : Text → Bool
unfolding matches
detect_correction text =
    if leb 200 (length (trim_space text)) then false else matches correction_texts text

or_whole : Text → Option Text → Text
or_whole s none = s
or_whole s (some rest) = rest

abbrev pub leading : Text
leading = codes " \t\n\r：:，,。.；;！!？?…— "

unfoldable pub trim_leading_punct : Text → Text
trim_leading_punct [] = []
trim_leading_punct (c ∷ s) =
    let rest = trim_leading_punct s in if any (λ p. p == c) leading then rest else c ∷ s

unfoldable pub derive_summary : Text → Text
unfolding trim_prefix or_whole
derive_summary content =
    let s = trim_space content in
    take 500 (trim_leading_punct (or_whole s (trim_prefix (codes "继续") s)))

unfoldable pub derive_write_event : Text → WriteEvent
derive_write_event content =
    let confirmed = detect_user_confirmed content in
    record {
      summary = derive_summary content;
      user_confirmed = confirmed;
      is_correction = if confirmed then false else detect_correction content;
      caused_behavior_change = false;
      subsequent_reference_count = 0;
      occurred_at = 0;
    }

-- `TimeWindow`, in which 0 is an open bound
pub record TimeWindow : Type 0 where
  pub after : Time
  pub before : Time
  pub sort_newest : Bool

abbrev pub last_week_texts : List String
last_week_texts = "last week" ∷ "上周" ∷ "过去一周" ∷ "最近一周" ∷ "一周内" ∷ []

abbrev pub yesterday_texts : List String
yesterday_texts = "yesterday" ∷ "昨天" ∷ []

abbrev pub most_recent_texts : List String
most_recent_texts = "most recent" ∷ "latest" ∷ "最近一次" ∷ "最近" ∷ "最新" ∷ []

-- The windows end now and go back the hours of a week or a day, in nanoseconds, for a clock past the
-- first week of the year 1.
unfoldable pub parse_relative_time : Text → Time → TimeWindow
unfolding matches
parse_relative_time query now =
    let newest = matches most_recent_texts query in
    if matches last_week_texts query
    then record { after = now - 604800000000000; before = now; sort_newest = newest }
    else if matches yesterday_texts query
    then record { after = now - 86400000000000; before = now; sort_newest = newest }
    else record { after = 0; before = 0; sort_newest = newest }
