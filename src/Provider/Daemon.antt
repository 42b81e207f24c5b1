-- ===== src/Provider/Daemon.antt =====
-- The requests of internal/provider/server.go, decoded, and what answers them. The goroutine that consolidates
-- at the end of a session is `consolidated`, a step that comes later; its report is logged. A ping and a shutdown, which do
-- not reach the engines, are left out.
pub mod Refused
use vatbrain.Prelude.{
  ℕ, ◌≡◌, refl, Bool, String, string_eq, ◌==◌, List, Option, none, some, if◌then◌else◌,
}
use vatbrain.Prelude.Result.{
  Action, Result, Error, Done, ok, err, not_configured, unknown_session, invalid_argument,
  unsupported,
}
use vatbrain.Prelude.Text.{Text}
use vatbrain.Float.{Float64}
use vatbrain.Models.Common.{Uuid, Time}
use vatbrain.Models.Episodic.{EpisodicMemory}
use vatbrain.Store.{MemoryStore}
use vatbrain.Core.Gate.{WriteEvent}
use vatbrain.Core.Write.{WriteDeps}
use vatbrain.Provider.Server.{
  Server, SessionState, WriteClock, OnMemoryWriteParams, OnMemoryWriteResult, OnSessionSwitchParams,
  session_for, with_session, handle_on_memory_write, handle_on_session_switch,
}
use vatbrain.Provider.Turns.{
  InitializeParams, InitializeResult, SyncTurnParams, SyncTurnResult, handle_initialize,
  handle_sync_turn,
}
use vatbrain.Provider.Recall.{WarmJob, handle_prefetch, handle_queue_prefetch}
use vatbrain.Provider.Edit.{
  PrepareEditContextParams, PrepareEditContextResult, handle_prepare_edit_context,
}
use vatbrain.Provider.Hooks.{
  OnDelegationParams, OnDelegationResult, handle_maintenance, handle_pre_compress,
  handle_on_delegation,
}

pub data Request : Type 0 where
  initialize : InitializeParams → Request
  sync_turn : SyncTurnParams → Request
  prefetch : String → Text → Request
  queue_prefetch : String → Text → Request
  on_session_end : String → Request
  on_memory_write : OnMemoryWriteParams → Request
  on_session_switch : OnSessionSwitchParams → Request
  prepare_edit_context : PrepareEditContextParams → Request
  maintenance : String → Request
  pre_compress : String → List Text → Request
  on_delegation : OnDelegationParams → Request
  other : String → Request

pub data Response (W : Type 0) : Type 0 where
  initialized : InitializeResult → Response W
  turn : SyncTurnResult W → Response W
  context : Text → Response W
  -- an empty context, and the goroutine that is started
  warming : WarmJob → Response W
  acknowledged : Done → Response W
  written : OnMemoryWriteResult → Response W
  edit : PrepareEditContextResult W → Response W
  insight : Text → Response W
  delegated : OnDelegationResult → Response W

-- What the daemon is made with, and the parameters of its handlers.
pub record Daemon (W S : Type 0) : Type 0 where
  pub store : MemoryStore W S
  pub embed : Text → Option (List W)
  pub deps : WriteDeps W
  pub explain : EpisodicMemory W → EpisodicMemory W → W → String
  pub deriver : Text → Text → WriteEvent
  pub force_confirm : Bool
  pub complexity : List String → W
  pub day : Time → Text
  pub entry_hash : Text → String
  pub trimmed : String → String

-- what a handler reads of the clock and of the source of identifiers
pub record Readings : Type 0 where
  pub fresh : Uuid
  pub now : Time
  pub clock : ℕ → Time
  pub write_clock : WriteClock

-- What the goroutine does.
unfoldable pub consolidated : {R S : Type 0} → Action S R → Server S → Server S
consolidated run s = let (report, st) = run s.store in record s { store = st }

-- The engine of the consolidation is its run; it may be missing. Where it is there, the goroutine is started.
ended : {R S : Type 0} → Option (Action S R) → Action (Server S) Done
ended none s = (err not_configured, s)
ended (some run) s = (ok tt, s)

unfoldable pub handle_on_session_end :
    {R S : Type 0} → Option (Action S R) → String → Action (Server S) Done
unfolding ended
handle_on_session_end consolidation id s =
    with_session (session_for id s) (λ session. ended consolidation) s

answer : {A W S : Type 0} → (A → Response W) → Result A × S → Result (Response W) × S
answer respond (ok x, s) = (ok (respond x), s)
answer respond (err e, s) = (err e, s)

module _ {W S R : Type 0} ⦃f : Float64 W⦄ (d : Daemon W S) (consolidation : Option (Action S R))
    (t : Readings) where
  -- `Server.handle`
  unfoldable pub handle : Request → Action (Server S) (Response W)
  unfolding answer
  handle (Request.initialize p) s = answer initialized (handle_initialize d.trimmed p s)
  handle (Request.sync_turn p) s = answer turn (
      handle_sync_turn d.store d.deps d.explain d.deriver d.force_confirm t.fresh t.now t.clock p s)
  handle (Request.prefetch id query) s =
      answer context (handle_prefetch d.store d.embed d.day t.now id query s)
  handle (Request.queue_prefetch id query) s = answer warming (handle_queue_prefetch id query s)
  handle (Request.on_session_end id) s =
      answer acknowledged (handle_on_session_end consolidation id s)
  handle (Request.on_memory_write p) s =
      answer written (handle_on_memory_write d.store d.entry_hash d.embed t.write_clock t.fresh p s)
  handle (Request.on_session_switch p) s = answer acknowledged (handle_on_session_switch p s)
  handle (Request.prepare_edit_context p) s =
      answer edit (handle_prepare_edit_context d.store d.embed d.complexity t.now p s)
  handle (Request.maintenance id) s = answer acknowledged (handle_maintenance id s)
  handle (Request.pre_compress id messages) s = answer insight (handle_pre_compress id messages s)
  handle (Request.on_delegation p) s =
      answer delegated (handle_on_delegation d.store d.embed t.fresh t.now p s)
  handle (Request.other method) s = (err unsupported, s)

-- The session that a request is for; a new session is for none, nor is a method that does not exist.
abbrev pub session_of : Request → Option String
session_of (Request.initialize p) = none
session_of (Request.sync_turn p) = some p.session_id
session_of (Request.prefetch id query) = some id
session_of (Request.queue_prefetch id query) = some id
session_of (Request.on_session_end id) = some id
session_of (Request.on_memory_write p) = some p.session_id
session_of (Request.on_session_switch p) = some p.session_id
session_of (Request.prepare_edit_context p) = some p.session_id
session_of (Request.maintenance id) = some id
session_of (Request.pre_compress id messages) = some id
session_of (Request.on_delegation p) = some p.session_id
session_of (Request.other method) = none
