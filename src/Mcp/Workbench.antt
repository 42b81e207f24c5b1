-- ===== src/Mcp/Workbench.antt =====
-- internal/mcp/pitfall_workbench.go: the handlers that change a pitfall. A missing argument is
-- `none`; `uuid.Parse` is a parameter, and a handler that reads the clock takes its reading.
pub mod Suppressed
pub mod Escape
use vatbrain.Prelude.{String, Option, none, some, not, string_eq, ◌==◌, ◌!=◌, if◌then◌else◌}
use vatbrain.Prelude.Int.{pos}
use vatbrain.Prelude.Result.{
  Action, Done, pure, raise, invalid_argument, invalid_action, ◌>>=◌, ◌>>◌, ◌>>!◌,
}
use vatbrain.Models.Common.{Uuid, Time}
use vatbrain.Models.Pitfall.{PitfallMemory, PitfallStatus, PitfallFeedbackAction, is_valid_feedback}
use vatbrain.Store.{MemoryStore}

-- `PitfallFeedbackAction(s)`
unfoldable pub feedback_action : String → PitfallFeedbackAction
feedback_action s =
    if s == "adopted"
    then PitfallFeedbackAction.adopted
    else if s == "ignored"
    then PitfallFeedbackAction.ignored
    else if s == "recurred"
    then PitfallFeedbackAction.recurred
    else PitfallFeedbackAction.other s

module _ {S : Type 0} where
  unfoldable pub require_string : Option String → Action S String
  require_string none = raise invalid_argument
  require_string (some s) = pure s

  unfoldable pub parsed : Option Uuid → Action S Uuid
  parsed none = raise invalid_argument
  parsed (some id) = pure id

linked : {W : Type 0} → String → String → Time → PitfallMemory W → PitfallMemory W
linked entity type now p = record p {
  entity_id = entity;
  entity_type = if type != "" then type else p.entity_type;
  updated_at = now;
}

module _ {W S : Type 0} (store : MemoryStore W S) (parse_uuid : String → Option Uuid) where
  unfoldable pub confirm_pitfall : Option String → Time → Action S Done
  unfolding require_string parsed
  confirm_pitfall arg now = do
    text ← require_string arg
    id ← parsed (parse_uuid text)
    store.update_pitfall_status id PitfallStatus.confirmed now

  -- The last step is best-effort: its error is dropped.
  unfoldable pub suppress_pitfall : Option String → Time → Action S Done
  unfolding require_string parsed
  suppress_pitfall arg now = do
    text ← require_string arg
    id ← parsed (parse_uuid text)
    store.update_pitfall_status id PitfallStatus.suppressed now
    store.add_pitfall_counters id (pos 0) (pos 1) now
    store.apply_pitfall_feedback id PitfallFeedbackAction.ignored now >>! pure tt

  unfoldable pub feedback_pitfall : Option String → Option String → Time → Action S Done
  unfolding require_string parsed
  feedback_pitfall arg action_arg now = do
    text ← require_string arg
    action ← require_string action_arg
    if not (is_valid_feedback (feedback_action action)) then raise invalid_action else do
      id ← parsed (parse_uuid text)
      store.apply_pitfall_feedback id (feedback_action action) now

  -- `type` is "" where the argument is missing.
  unfoldable pub link_pitfall_entity : Option String → Option String → String → Time → Action S Done
  unfolding require_string parsed linked
  link_pitfall_entity arg entity_arg type now = do
    text ← require_string arg
    entity ← require_string entity_arg
    id ← parsed (parse_uuid text)
    p ← store.get_pitfall id
    store.write_pitfall (linked entity type now p)
