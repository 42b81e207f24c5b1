-- ===== src/Store/Memory/Conflicts.antt =====
-- internal/store/memory/conflict.go.
use vatbrain.Prelude.{
  not, ◌&&◌, String, List, some, length, keep, take, ltb, nat_eq, string_eq, ◌!=◌, if◌then◌else◌,
}
use vatbrain.Prelude.Dict.{values, insert}
use vatbrain.Prelude.Int.{ℤ, positive, pos_part}
use vatbrain.Prelude.Result.{Action, Done, ok}
use vatbrain.Prelude.Sort.{sort_by}
use vatbrain.Prelude.Text.{Text}
use vatbrain.Models.Common.{Uuid, Time, after}
use vatbrain.Models.Conflict.{RuleConflict, ConflictStatus}
use vatbrain.Store.Memory.State.{Store, change_conflict}

-- `string(c.Status)`
unfoldable pub status_text : ConflictStatus → String
status_text ConflictStatus.pending = "pending"
status_text ConflictStatus.auto_resolved = "auto_resolved"
status_text ConflictStatus.manual_resolved = "manual_resolved"
status_text ConflictStatus.dismissed = "dismissed"

module _ {W : Type 0} where
  unfoldable pub list_rule_conflicts : String → ℤ → Action (Store W) (List RuleConflict)
  list_rule_conflicts status limit s =
      let out =
        sort_by (λ (a : RuleConflict) (b : RuleConflict). after a.created_at b.created_at)
          (keep (λ (c : RuleConflict). not (status != "" && status_text c.status != status))
            (values s.rule_conflicts)) in
      (
        ok (
            if positive limit && ltb (pos_part limit) (length out)
            then take (pos_part limit) out
            else out),
        s,
      )

  unfoldable pub save_rule_conflict : RuleConflict → Action (Store W) Done
  save_rule_conflict c s = (ok tt, record s { rule_conflicts = insert c.id c s.rule_conflicts })

  unfoldable pub resolve_rule_conflict :
      Uuid → ConflictStatus → Uuid → Text → Time → Action (Store W) Done
  resolve_rule_conflict id status resolution reason at = change_conflict id λ c. record c {
    status = status;
    resolution = some resolution;
    reason = reason;
    resolved_at = some at;
  }
