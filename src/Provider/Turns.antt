-- ===== src/Provider/Turns.antt =====
-- The start of a session and the turns that internal/provider/server.go takes over.
use vatbrain.Prelude.{
  ℕ, ◌≡◌, refl, Bool, true, false, not, ◌&&◌, ◌||◌, String, string_eq, ◌==◌, Option, none,
  Bool-cases, inl, inr, if◌then◌else◌,
}
use vatbrain.Prelude.Dict.{insert, lookup-insert}
use vatbrain.Prelude.Result.{Action, Result, ok, err, store_failed}
use vatbrain.Prelude.Text.{Text, is_blank}
use vatbrain.Float.{Float64, zero_f}
use vatbrain.Models.Common.{Uuid, Time, MergeAction, nil_uuid, task_feature}
use vatbrain.Models.Episodic.{EpisodicMemory}
use vatbrain.Store.{MemoryStore}
use vatbrain.Core.Gate.{WriteEvent}
use vatbrain.Core.Write.{WriteDeps, WriteResult}
use vatbrain.Core.Write.Steps.{write_memory}
use vatbrain.Provider.Server.{Server, SessionState, session_for, with_session}

pub record InitializeParams : Type 0 where
  pub session_id : String
  pub agent_context : String
  pub agent_identity : String

pub record InitializeResult : Type 0 where
  pub read_only_mode : Bool
  pub project_id : String

-- "subagent", "cron", "flush" and every other name of a context that is not primary
unfoldable pub is_read_only : String → Bool
is_read_only c = not (c == "") && not (c == "primary")

-- `trimmed` is `strings.TrimSpace` on a name.
unfoldable pub handle_initialize :
    {S : Type 0} (trimmed : String → String) → InitializeParams → Action (Server S) InitializeResult
unfolding is_read_only
handle_initialize trimmed p s =
    let name = trimmed p.agent_identity in
    let project = if name == "" then "hermes" else name in
    (
      ok (record { read_only_mode = is_read_only p.agent_context; project_id = project }),
      record s {
        sessions =
            insert p.session_id (record { project_id = project; agent_context = p.agent_context })
              s.sessions;
      },
    )

pub record SyncTurnParams : Type 0 where
  pub session_id : String
  pub user_content : Text
  pub assistant_content : Text
  pub agent_context : String

pub record SyncTurnResult (W : Type 0) : Type 0 where
  pub persisted : Bool
  pub memory_id : Uuid
  pub gate_reason : String
  pub is_correction : Bool
  pub merge_action : Option MergeAction
  pub weight : W

module _ {W : Type 0} ⦃d : Float64 W⦄ where
  unfoldable pub skipped_turn : String → SyncTurnResult W
  skipped_turn reason = record {
    persisted = false;
    memory_id = nil_uuid;
    gate_reason = reason;
    is_correction = false;
    merge_action = none;
    weight = zero_f;
  }

  unfoldable pub turn_result : WriteEvent → WriteResult W → SyncTurnResult W
  turn_result event res = record {
    persisted = res.persisted;
    memory_id = if res.persisted then res.memory_id else nil_uuid;
    gate_reason = res.gate_reason;
    is_correction = event.is_correction;
    merge_action = res.merge_action;
    weight = res.weight;
  }

  module _ {S : Type 0} (store : MemoryStore W S) (deps : WriteDeps W)
      (explain : EpisodicMemory W → EpisodicMemory W → W → String)
      (deriver : Text → Text → WriteEvent) (force_confirm : Bool) where
    turn_reported : WriteEvent → Result (WriteResult W) → Result (SyncTurnResult W)
    turn_reported event (ok res) = ok (turn_result event res)
    turn_reported event (err e) = err store_failed

    -- the part of a turn that is not skipped for its context
    unfoldable pub sync_event :
        Uuid
        → Time
        → (ℕ → Time)
        → SyncTurnParams
        → SessionState
        → Action (Server S) (SyncTurnResult W)
    unfolding turn_reported
    sync_event fresh now clock p session s =
        let derived = deriver p.user_content p.assistant_content in
        let event = record derived { user_confirmed = force_confirm || derived.user_confirmed } in
        let (r, q) =
          write_memory store deps explain fresh now clock event session.project_id "" ""
            task_feature (record { store = s.store; working_mem = s.working_mem }) in
        if is_blank event.summary
        then (ok (skipped_turn "empty_summary"), s)
        else (turn_reported event r, record s { store = q.store; working_mem = q.working_mem })

    unfoldable pub handle_sync_turn :
        Uuid → Time → (ℕ → Time) → SyncTurnParams → Action (Server S) (SyncTurnResult W)
    unfolding sync_event is_read_only
    handle_sync_turn fresh now clock p s =
        with_session (session_for p.session_id s)
          (λ session t.
            if is_read_only p.agent_context || is_read_only session.agent_context
            then (ok (skipped_turn "read_only_context"), t)
            else sync_event fresh now clock p session t)
          s

    -- After a session has started and has been told that it is read-only, a turn that it hands over is
    -- skipped with that reason, and changes nothing.
    pub read_only_turn :
        (trimmed : String → String) (i : InitializeParams) (s : Server S) (fresh : Uuid)
        (now : Time) (clock : ℕ → Time) (p : SyncTurnParams)
        → is_read_only i.agent_context ≡ true
        → p.session_id ≡ i.session_id
        → let started = (handle_initialize trimmed i s).1 in
          handle_sync_turn fresh now clock p started
          ≡ (ok (skipped_turn "read_only_context"), started)
    unfolding handle_initialize handle_sync_turn session_for
    read_only_turn trimmed i s fresh now clock p e same =
        rw (same, lookup-insert, (string_eq.beq_iff i.session_id i.session_id).1 refl, e)
          (elim (Bool-cases (is_read_only p.agent_context)) [
            | inl k ↦ rw k refl
            | inr k ↦ rw k refl
          ])
