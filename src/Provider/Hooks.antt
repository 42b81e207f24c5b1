-- ===== src/Provider/Hooks.antt =====
-- The hooks of internal/provider/hooks.go. An insight is looked for from the last message on.
use Prim.Native.String.{◌++◌ as str_append}
use vatbrain.Prelude.{
  Bool, true, false, ◌||◌, String, List, [], ◌∷◌, ◌++◌, Option, none, some, ltb, length,
  if◌then◌else◌,
}
use vatbrain.Prelude.Format.{is_empty, trim_space, truncate_runes}
use vatbrain.Prelude.Result.{Action, Result, Done, ok, err, store_failed}
use vatbrain.Prelude.Text.{Text, codes}
use vatbrain.Float.{Float64, zero_f, one_f}
use vatbrain.Models.Common.{Uuid, Time, task_feature, SourceType, default_trust_level, nil_uuid}
use vatbrain.Models.Episodic.{EpisodicMemory}
use vatbrain.Store.{MemoryStore}
use vatbrain.Provider.Derive.{derive_write_event}
use vatbrain.Provider.Server.{Server, session_for, with_session}

unfoldable pub handle_maintenance : {S : Type 0} → String → Action (Server S) Done
handle_maintenance id s = with_session (session_for id s) (λ session t. (ok tt, t)) s

-- a message that is worth keeping
unfoldable pub insight_of : Text → Option Text
insight_of message =
    let text = trim_space message in
    let event = derive_write_event text in
    if is_empty text
    then none
    else if event.user_confirmed || event.is_correction || ltb 20 (length text)
    then some (codes "[vatbrain] " ++ truncate_runes 300 text)
    else none

-- the loop, from the last message on
unfoldable pub last_insight : List Text → Option Text
unfolding insight_of
last_insight [] = none
last_insight (m ∷ ms) = elim (last_insight ms) [ some t ↦ some t | none ↦ insight_of m ]

unfoldable pub handle_pre_compress : {S : Type 0} → String → List Text → Action (Server S) Text
unfolding last_insight
handle_pre_compress id messages s =
    with_session (session_for id s)
      (λ session t. (ok (elim (last_insight messages) [ none ↦ [] | some i ↦ i ]), t)) s

pub record OnDelegationParams : Type 0 where
  pub session_id : String
  pub task : Text
  pub result : Text
  pub child_session_id : String

pub record OnDelegationResult : Type 0 where
  pub persisted : Bool
  pub memory_id : Uuid

module _ {W S : Type 0} ⦃d : Float64 W⦄ (store : MemoryStore W S)
    (embed : Text → Option (List W)) where
  unfoldable pub delegation_memory : Uuid → Time → String → OnDelegationParams → EpisodicMemory W
  delegation_memory id now project p =
      let summary = truncate_runes 500 (codes "委派：" ++ p.task ++ codes " → " ++ p.result) in
      record {
        id = id;
        project_id = project;
        language = "";
        task_type = task_feature;
        summary = summary;
        source_type = SourceType.delegation;
        trust_level = default_trust_level;
        weight = one_f;
        effective_frequency = one_f;
        created_at = now;
        last_accessed_at = none;
        obsoleted_at = none;
        entity_group = "";
        embedding_id = "";
        context_vector = elim (embed summary) [ none ↦ [] | some v ↦ v ];
        full_snapshot_uri = str_append "hermes://delegation/" p.child_session_id;
        is_correction = false;
        surprise_score = zero_f;
        occurred_at = 0;
      }

  delegated : Uuid → Result Done × S → Server S → Result OnDelegationResult × Server S
  delegated id (ok _, st) s =
      (ok (record { persisted = true; memory_id = id }), record s { store = st })
  delegated id (err e, st) s = (err store_failed, record s { store = st })

  unfoldable pub handle_on_delegation :
      Uuid → Time → OnDelegationParams → Action (Server S) OnDelegationResult
  unfolding delegated delegation_memory
  handle_on_delegation id now p s =
      with_session (session_for p.session_id s)
        (λ session t.
          if is_empty (trim_space p.task)
          then (ok (record { persisted = false; memory_id = nil_uuid }), t)
          else delegated id
              (store.write_episodic (delegation_memory id now session.project_id p) t.store) t)
        s
