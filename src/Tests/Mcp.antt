-- ===== src/Tests/Mcp.antt =====
-- The theorems on internal/mcp, applied to sample data.
use vatbrain.Prelude.{◌≡◌, refl, false, some, Option, String, inl, inr, sym, ap, ◌∙◌, nat_eq, arith}
use vatbrain.Prelude.Dict.{empty, insert, lookup, lookup-insert_inv}
use vatbrain.Prelude.Result.{ok}
use vatbrain.Float.Fixed.{Fixed, fixed_float}
use vatbrain.Models.Common.{Uuid}
use vatbrain.Models.Pitfall.{PitfallMemory, PitfallStatus, PitfallFeedbackAction, injectable}
use vatbrain.Store.Memory.Backend.{memory_store}
use vatbrain.Store.Memory.Pitfalls.{get_pitfall, apply_pitfall_feedback, update_pitfall_status}
use vatbrain.Mcp.Workbench.{suppress_pitfall}
use vatbrain.Mcp.Workbench.Escape.{here, next, fed_back, moved_other, suppression_lasts}
use vatbrain.Mcp.Workbench.Suppressed.{IsKeyed}
use vatbrain.Tests.Samples.{sample_pitfall, one_pitfall}

one_pitfall-IsKeyed : IsKeyed one_pitfall
unfolding lookup insert
one_pitfall-IsKeyed = record {
  at_key = λ k p h. elim (lookup-insert_inv 7 k sample_pitfall (empty {K = Uuid}) h) [
    | inl (eq, same) ↦ ap (λ (r : PitfallMemory Fixed). r.id) (sym same) ∙ eq
    | inr old ↦ ground arith
  ];
}

abbrev parse_seven : String → Option Uuid
parse_seven text = some 7

-- Feedback, and another pitfall, do not bring the suppressed one back.
suppression_lasts_example :
    let s = (suppress_pitfall memory_store parse_seven (some "7") 200 one_pitfall).1 in
    let t =
      (update_pitfall_status 8 PitfallStatus.confirmed 400
        (apply_pitfall_feedback 7 PitfallFeedbackAction.adopted 300 s).1).1 in
    ((suppress_pitfall memory_store parse_seven (some "7") 200 one_pitfall).0 ≡ ok tt)
    × ((q : PitfallMemory Fixed) × ((get_pitfall 7 t).0 ≡ ok q) × (injectable q ≡ false))
unfolding lookup insert
suppression_lasts_example =
    suppression_lasts parse_seven "7" 7 200 one_pitfall _ refl refl one_pitfall-IsKeyed (
      next (next here (fed_back 7 PitfallFeedbackAction.adopted 300))
        (moved_other 8 PitfallStatus.confirmed 400 (λ e. ground arith)))
