-- ===== src/Provider/Daemon/Refused.antt =====
-- The requests of internal/provider/server.go for a session that has not started.
use mathlib.Core.Option.{some-injective, some-ne-none}
use mathlib.Core.Path.{subst}
use vatbrain.Prelude.{
  ◌≡◌, refl, sym, String, string_eq, ◌==◌, Bool-cases, inl, inr, Option, none, some, if◌then◌else◌,
}
use vatbrain.Prelude.Result.{Action, Error, err, unknown_session, invalid_argument}
use vatbrain.Float.{Float64}
use vatbrain.Provider.Server.{Server, session_for, handle_on_memory_write, handle_on_session_switch}
use vatbrain.Provider.Turns.{handle_sync_turn}
use vatbrain.Provider.Recall.{handle_prefetch, handle_queue_prefetch}
use vatbrain.Provider.Edit.{handle_prepare_edit_context}
use vatbrain.Provider.Hooks.{handle_maintenance, handle_pre_compress, handle_on_delegation}
use vatbrain.Provider.Daemon.{Request, Daemon, Readings, handle, handle_on_session_end, session_of}

-- A switch to no name is refused before its session is looked up.
abbrev pub refusal : Request → Error
refusal (Request.on_session_switch p) =
    if p.new_session_id == "" then invalid_argument else unknown_session
refusal _ = unknown_session

module _ {W S R : Type 0} ⦃f : Float64 W⦄ (d : Daemon W S) (consolidation : Option (Action S R))
    (t : Readings) where
  missing :
      (a id : String) (s : Server S)
      → some a ≡ some id
      → session_for id s ≡ none
      → session_for a s ≡ none
  missing a id s e h = subst (λ x. session_for x s ≡ none) (sym (some-injective _ _ e)) h

  -- A request for a session that has not started is refused as such, whatever it asks for, and changes
  -- nothing: no memory, no recall, no entry and no buffer. Only a switch that names no new session is
  -- refused for that reason.
  pub unstarted_is_refused :
      (req : Request) (id : String) (s : Server S)
      → session_of req ≡ some id
      → session_for id s ≡ none
      → handle d consolidation t req s ≡ (err (refusal req), s)
  unfolding handle handle_sync_turn handle_prefetch handle_queue_prefetch handle_on_session_end
      handle_on_memory_write handle_on_session_switch handle_prepare_edit_context handle_maintenance
      handle_pre_compress handle_on_delegation
  unstarted_is_refused (Request.initialize p) id s e h = absurd (some-ne-none _ (sym e))
  unstarted_is_refused (Request.sync_turn p) id s e h = rw (missing _ _ s e h) refl
  unstarted_is_refused (Request.prefetch a query) id s e h = rw (missing _ _ s e h) refl
  unstarted_is_refused (Request.queue_prefetch a query) id s e h = rw (missing _ _ s e h) refl
  unstarted_is_refused (Request.on_session_end a) id s e h = rw (missing _ _ s e h) refl
  unstarted_is_refused (Request.on_memory_write p) id s e h = rw (missing _ _ s e h) refl
  unstarted_is_refused (Request.on_session_switch p) id s e h =
      elim (Bool-cases (p.new_session_id == "")) [
        | inl k ↦ rw k refl
        | inr k ↦ rw (k, missing _ _ s e h) refl
      ]
  unstarted_is_refused (Request.prepare_edit_context p) id s e h = rw (missing _ _ s e h) refl
  unstarted_is_refused (Request.maintenance a) id s e h = rw (missing _ _ s e h) refl
  unstarted_is_refused (Request.pre_compress a messages) id s e h = rw (missing _ _ s e h) refl
  unstarted_is_refused (Request.on_delegation p) id s e h = rw (missing _ _ s e h) refl
  unstarted_is_refused (Request.other method) id s e h = absurd (some-ne-none _ (sym e))
