-- ===== src/Provider/Server.antt =====
-- The sessions of internal/provider/server.go, and the entries of the agent's own memory that
-- internal/provider/lifecycle.go mirrors. A request comes decoded; the SHA-256 digest of an entry, a
-- fresh identifier and the readings of the clock are parameters.
pub mod Mirrored
pub mod Sessions
use vatbrain.Prelude.{
  Bool, true, false, String, string_eq, ◌==◌, Option, none, some, List, [], ◌∷◌, ◌++◌,
  if◌then◌else◌,
}
use vatbrain.Prelude.Dict.{Dict, lookup, insert, delete}
use vatbrain.Prelude.Result.{
  Action, Done, Error, Result, ok, err, is_ok, unknown_session, invalid_argument, store_failed,
}
use vatbrain.Prelude.Text.{Text}
use vatbrain.Float.{Float64, zero_f, one_f}
use vatbrain.Models.Common.{Uuid, Time, SourceType, nil_uuid, task_feature, trust_level_max}
use vatbrain.Models.Episodic.{EpisodicMemory}
use vatbrain.Store.{MemoryStore}
use vatbrain.Store.WorkingMemory.{WorkingMemoryBuffer, clear_cycles}
use vatbrain.Provider.Snapshot.{snapshot_uri}

pub record SessionState : Type 0 where
  pub project_id : String
  pub agent_context : String

pub record MemoryWriteEntry : Type 0 where
  pub content_hash : String
  pub memory_id : Uuid

-- What the handlers change.
pub record Server (S : Type 0) : Type 0 where
  pub store : S
  pub working_mem : Option WorkingMemoryBuffer
  pub sessions : Dict String SessionState
  pub prefetch_cache : Dict String Text
  pub memory_write : Dict String (List MemoryWriteEntry)

unfoldable pub session_for : {S : Type 0} → String → Server S → Option SessionState
session_for id s = lookup id s.sessions

-- the guard of a handler on the session of its request
abbrev pub with_session :
    {S A : Type 0}
    → Option SessionState
    → (SessionState → Action (Server S) A)
    → Action (Server S) A
with_session none handler s = (err unknown_session, s)
with_session (some session) handler s = handler session s

entries_of : Option (List MemoryWriteEntry) → List MemoryWriteEntry
entries_of none = []
entries_of (some es) = es

newest : List MemoryWriteEntry → Option MemoryWriteEntry
newest [] = none
newest (e ∷ []) = some e
newest (e ∷ f ∷ es) = newest (f ∷ es)

-- `memoryWriteIndex.push`
unfoldable pub push_entry :
    String
    → MemoryWriteEntry
    → Dict String (List MemoryWriteEntry)
    → Dict String (List MemoryWriteEntry)
unfolding entries_of
push_entry target e index = insert target (entries_of (lookup target index) ++ e ∷ []) index

-- `memoryWriteIndex.last`
unfoldable pub last_entry : String → Dict String (List MemoryWriteEntry) → Option MemoryWriteEntry
unfolding entries_of newest
last_entry target index = newest (entries_of (lookup target index))

pub data WriteAction : Type 0 where
  add replace remove : WriteAction
  other : String → WriteAction

pub record OnMemoryWriteParams : Type 0 where
  pub action : WriteAction
  pub target : String
  pub content : Text
  pub session_id : String
  pub metadata : Dict String String

pub record OnMemoryWriteResult : Type 0 where
  pub persisted : Bool
  pub memory_id : Uuid
  pub obsoleted : Bool
  pub edge_created : Bool

-- the readings of the clock: of the new memory, of the retirement, and of the edge
pub record WriteClock : Type 0 where
  pub created : Time
  pub retired : Time
  pub edge : Time

unfoldable pub target_or_default : String → String
target_or_default t = if t == "" then "memory" else t

action_name : WriteAction → String
action_name WriteAction.add = "add"
action_name WriteAction.replace = "replace"
action_name WriteAction.remove = "remove"
action_name (WriteAction.other a) = a

vector_or_none : {W : Type 0} → Option (List W) → List W
vector_or_none none = []
vector_or_none (some v) = v

-- the memory that `writeMirroredEpisode` writes
unfoldable pub mirrored_episode :
    {W : Type 0} ⦃d : Float64 W⦄ (embedder : Text → Option (List W)) (id : Uuid) (now : Time)
    (project target hash : String) (p : OnMemoryWriteParams)
    → EpisodicMemory W
unfolding action_name vector_or_none
mirrored_episode embedder id now project target hash p = record {
  id = id;
  project_id = project;
  language = "";
  task_type = task_feature;
  summary = p.content;
  source_type = SourceType.user;
  trust_level = trust_level_max;
  weight = one_f;
  effective_frequency = one_f;
  created_at = now;
  last_accessed_at = none;
  obsoleted_at = none;
  entity_group = "";
  embedding_id = "";
  context_vector = vector_or_none (embedder p.content);
  full_snapshot_uri =
      snapshot_uri target hash (action_name p.action) (lookup "write_origin" p.metadata);
  is_correction = false;
  surprise_score = zero_f;
  occurred_at = 0;
}

unfoldable pub prior_entry :
    WriteAction → String → Dict String (List MemoryWriteEntry) → Option MemoryWriteEntry
prior_entry WriteAction.replace target index = last_entry target index
prior_entry _ target index = none

module _ {W S : Type 0} ⦃d : Float64 W⦄ (store : MemoryStore W S) where
  -- The case "remove", after the index has been asked for the last entry.
  unfoldable pub remove_entry :
      Time → Option MemoryWriteEntry → Action (Server S) OnMemoryWriteResult
  remove_entry now none s = (
    ok (record {
      persisted = false;
      memory_id = nil_uuid;
      obsoleted = false;
      edge_created = false;
    }),
    s,
  )
  remove_entry now (some prev) s =
      let (r, st) = store.mark_obsolete prev.memory_id now s.store in
      (
        if is_ok r
            then ok (record {
              persisted = false;
              memory_id = prev.memory_id;
              obsoleted = true;
              edge_created = false;
            })
            else err store_failed,
        record s { store = st },
      )

  -- What a replacement does to the last entry; its errors are not reported.
  unfoldable pub supersede_entry :
      WriteClock → Uuid → Option MemoryWriteEntry → S → OnMemoryWriteResult × S
  supersede_entry clock id none st =
      (record { persisted = true; memory_id = id; obsoleted = false; edge_created = false }, st)
  supersede_entry clock id (some prev) st =
      let (r, st₁) = store.mark_obsolete prev.memory_id clock.retired st in
      let (r', st₂) = store.create_edge prev.memory_id id "DERIVED_FROM" [] clock.edge st₁ in
      (
        record { persisted = true; memory_id = id; obsoleted = is_ok r; edge_created = is_ok r' },
        st₂,
      )

  module _ (entry_hash : Text → String) (embedder : Text → Option (List W)) where
    -- The cases "add" and "replace".
    unfoldable pub write_entry :
        WriteClock
        → Uuid
        → String
        → String
        → OnMemoryWriteParams
        → Action (Server S) OnMemoryWriteResult
    unfolding prior_entry supersede_entry
    write_entry clock id project target p s =
        let hash = entry_hash p.content in
        let m = mirrored_episode embedder id clock.created project target hash p in
        let (r, st) = store.write_episodic m s.store in
        let (out, st') = supersede_entry clock id (prior_entry p.action target s.memory_write) st in
        if is_ok r
        then (
          ok out,
          record s {
            store = st';
            memory_write =
                push_entry target (record { content_hash = hash; memory_id = id }) s.memory_write;
          },
        )
        else (err store_failed, record s { store = st })

    run_action :
        WriteClock
        → Uuid
        → String
        → OnMemoryWriteParams
        → WriteAction
        → Action (Server S) OnMemoryWriteResult
    unfolding remove_entry write_entry target_or_default
    run_action clock id project p (WriteAction.other a) s = (err invalid_argument, s)
    run_action clock id project p WriteAction.remove s =
        remove_entry clock.retired (last_entry (target_or_default p.target) s.memory_write) s
    run_action clock id project p _ s =
        write_entry clock id project (target_or_default p.target) p s

    -- `handleOnMemoryWrite`
    unfoldable pub handle_on_memory_write :
        WriteClock → Uuid → OnMemoryWriteParams → Action (Server S) OnMemoryWriteResult
    unfolding session_for run_action
    handle_on_memory_write clock id p s =
        with_session (session_for p.session_id s)
          (λ session. run_action clock id session.project_id p p.action) s

pub record OnSessionSwitchParams : Type 0 where
  pub session_id : String
  pub new_session_id : String
  pub reset : Bool
  pub rewound : Bool

cleared : String → Option WorkingMemoryBuffer → Option WorkingMemoryBuffer
cleared project none = none
cleared project (some w) = some (clear_cycles project w)

-- the state after a session is bound to its new name
unfoldable pub rebound : {S : Type 0} → OnSessionSwitchParams → SessionState → Server S → Server S
unfolding cleared
rebound p session s = record s {
  sessions = insert p.new_session_id session (delete p.session_id s.sessions);
  working_mem = if p.reset then cleared session.project_id s.working_mem else s.working_mem;
  prefetch_cache =
      if p.rewound
      then delete p.new_session_id (delete p.session_id s.prefetch_cache)
      else s.prefetch_cache;
}

unfoldable pub handle_on_session_switch :
    {S : Type 0} → OnSessionSwitchParams → Action (Server S) Done
unfolding session_for rebound
handle_on_session_switch p s =
    if p.new_session_id == ""
    then (err invalid_argument, s)
    else with_session (session_for p.session_id s) (λ session t. (ok tt, rebound p session t)) s
