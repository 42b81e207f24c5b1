-- ===== src/Store/Memory/Pitfalls.antt =====
-- internal/store/memory/pitfall.go. A method that reads the clock takes its reading, `now`.
use vatbrain.Prelude.{
  ◌+◌, Bool, true, false, not, ◌&&◌, ◌||◌, String, List, some, length, keep, take, is_some, ltb,
  nat_eq, string_eq, ◌==◌, ◌!=◌, if◌then◌else◌,
}
use vatbrain.Prelude.Dict.{values, lookup, insert}
use vatbrain.Prelude.Int.{ℤ, cut_limit, positive, pos_part}
use vatbrain.Prelude.Result.{Action, Done, ok, err, invalid_action}
use vatbrain.Prelude.Sort.{sort_by}
use vatbrain.Float.{Float64, zero_f}
use vatbrain.Float.Clamp.{clamp01}
use vatbrain.Models.Common.{Uuid, Time}
use vatbrain.Models.Pitfall.{
  PitfallMemory, PitfallStatus, PitfallFeedbackAction, normalize, is_valid_feedback, weight_delta,
  pitfall_protection_level_max,
}
use vatbrain.Store.{PitfallSearchRequest}
use vatbrain.Store.Memory.State.{Store, found, change_pitfall}

module _ {W : Type 0} ⦃d : Float64 W⦄ where
  abbrev heavier_pitfall : PitfallMemory W → PitfallMemory W → Bool
  heavier_pitfall a b = d.lt b.weight a.weight

  -- the `continue` tests of `SearchPitfall`
  unfoldable pub skipped_pitfall : PitfallSearchRequest W → PitfallMemory W → Bool
  skipped_pitfall req p =
      (req.project_id != "" && p.project_id != req.project_id)
      || (req.language != "" && p.language != req.language)
      || (req.entity_id != "" && p.entity_id != req.entity_id)
      || (req.root_cause_category != "" && p.root_cause_category != req.root_cause_category)
      || (d.lt zero_f req.min_weight && d.lt p.weight req.min_weight)
      || is_some p.obsoleted_at

  unfoldable pub search_pitfall : PitfallSearchRequest W → Action (Store W) (List (PitfallMemory W))
  search_pitfall req s =
      let matching = keep (λ p. not (skipped_pitfall req p)) (values s.pitfalls) in
      (ok (take (cut_limit req.limit 10 (length matching)) (sort_by heavier_pitfall matching)), s)

  unfoldable pub search_pitfall_by_entity :
      String → String → Action (Store W) (List (PitfallMemory W))
  search_pitfall_by_entity entity project s =
      let matching =
        keep
          (λ (p : PitfallMemory W).
            p.entity_id == entity && p.project_id == project && not (is_some p.obsoleted_at))
          (values s.pitfalls) in
      (ok (sort_by heavier_pitfall matching), s)

  -- the switch of `ApplyPitfallFeedback`
  counted : PitfallFeedbackAction → PitfallMemory W → PitfallMemory W
  counted PitfallFeedbackAction.adopted p = record p { times_adopted = p.times_adopted + 1 }
  counted PitfallFeedbackAction.recurred p =
      let level = p.protection_level + 1 in
      record p {
        protection_level =
            if ltb pitfall_protection_level_max level then pitfall_protection_level_max else level;
      }
  counted _ p = p

  unfoldable pub with_feedback : PitfallFeedbackAction → Time → PitfallMemory W → PitfallMemory W
  unfolding counted
  with_feedback action now p =
      record (counted action
        (record p { weight = clamp01 (d.add p.weight (weight_delta action)) })) { updated_at = now }

  unfoldable pub apply_pitfall_feedback :
      Uuid → PitfallFeedbackAction → Time → Action (Store W) Done
  apply_pitfall_feedback id action now s =
      if is_valid_feedback action
      then change_pitfall id (with_feedback action now) s
      else (err invalid_action, s)

is_obsolete : PitfallStatus → Bool
is_obsolete PitfallStatus.obsolete = true
is_obsolete _ = false

module _ {W : Type 0} where
  unfoldable pub write_pitfall : PitfallMemory W → Action (Store W) Done
  write_pitfall p s = (ok tt, record s { pitfalls = insert p.id p s.pitfalls })

  unfoldable pub get_pitfall : Uuid → Action (Store W) (PitfallMemory W)
  get_pitfall id s = (found (lookup id s.pitfalls), s)

  unfoldable pub touch_pitfall : Uuid → Time → Action (Store W) Done
  touch_pitfall id now = change_pitfall id λ p. record p {
    last_occurred_at = some now;
    occurrence_count = p.occurrence_count + 1;
    updated_at = now;
  }

  unfoldable pub update_pitfall_weight : Uuid → W → Time → Action (Store W) Done
  update_pitfall_weight id weight now =
      change_pitfall id (λ p. record p { weight = weight; updated_at = now })

  unfoldable pub with_status : PitfallStatus → Time → PitfallMemory W → PitfallMemory W
  unfolding is_obsolete
  with_status status now p = record p {
    status = normalize status;
    obsoleted_at = if is_obsolete status then some now else p.obsoleted_at;
    updated_at = now;
  }

  unfoldable pub update_pitfall_status : Uuid → PitfallStatus → Time → Action (Store W) Done
  update_pitfall_status id status now = change_pitfall id (with_status status now)

  unfoldable pub add_pitfall_counters : Uuid → ℤ → ℤ → Time → Action (Store W) Done
  add_pitfall_counters id shown suppressed now = change_pitfall id λ p. record p {
    times_shown = if positive shown then p.times_shown + pos_part shown else p.times_shown;
    times_suppressed =
        if positive suppressed
        then p.times_suppressed + pos_part suppressed
        else p.times_suppressed;
    updated_at = now;
  }

  unfoldable pub mark_pitfall_obsolete : Uuid → Time → Time → Action (Store W) Done
  mark_pitfall_obsolete id at now =
      change_pitfall id (λ p. record p { obsoleted_at = some at; updated_at = now })
