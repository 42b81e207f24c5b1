-- ===== src/Core/Write/Steps.antt =====
-- The steps of internal/core/write_pipeline.go that change the store.
use vatbrain.Prelude.{
  ℕ, Bool, true, false, String, Option, none, some, List, [], ◌∷◌, if◌then◌else◌,
}
use vatbrain.Prelude.Result.{
  Action, Done, Result, ok, err, pure, raise, embed_failed, store_failed, ◌>>=◌, ◌>>◌, ◌>>!◌,
}
use vatbrain.Float.{Float64, zero_f}
use vatbrain.Models.Common.{Uuid, Time, TaskType, MergeAction}
use vatbrain.Models.Episodic.{EpisodicMemory}
use vatbrain.Store.{MemoryStore}
use vatbrain.Vector.{is_empty}
use vatbrain.Core.Gate.{WriteEvent}
use vatbrain.Core.Link.{link_on_write}
use vatbrain.Core.Separation.{SeparationContext}
use vatbrain.Core.Update.{UpdatePair, UpdateTracker, detect_update, apply_update}
use vatbrain.Core.Write.{
  WriteDeps, WriteResult, PreparedWrite, Pipeline, on_store, wrapped, pushed, prepare_write_event,
  tracker_or_default, draft, unmergeable, merged, new_memory, candidates_request,
}

module _ {W S : Type 0} ⦃d : Float64 W⦄ (store : MemoryStore W S) (deps : WriteDeps W)
    (explain : EpisodicMemory W → EpisodicMemory W → W → String) (fresh : Uuid) (now : Time)
    (clock : ℕ → Time) where
  -- `applyUpdateActions`
  unfoldable pub apply_update_actions :
      UpdateTracker W → EpisodicMemory W → List (UpdatePair W) → Action S W
  apply_update_actions t carrier [] = pure carrier.weight
  apply_update_actions t carrier (p ∷ ps) = do
    applied ← apply_update store t carrier (p ∷ ps) now
    pure applied.carrier_weight

  unfoldable pub or_next :
      EpisodicMemory W
      → Action S (Option (EpisodicMemory W × EpisodicMemory W))
      → Result (EpisodicMemory W)
      → Action S (Option (EpisodicMemory W × EpisodicMemory W))
  or_next c next (ok existing) = pure (some (c, existing))
  or_next c next (err e) = next

  -- The loop over the candidates: the first that merges, with the memory as it is stored.
  unfoldable pub find_merge :
      (EpisodicMemory W → Bool)
      → List (EpisodicMemory W)
      → Action S (Option (EpisodicMemory W × EpisodicMemory W))
  unfolding or_next
  find_merge skip [] s = (ok none, s)
  find_merge skip (c ∷ cs) s =
      let next = find_merge skip cs in
      let (r, t) = store.get_episodic c.id s in if skip c then next s else or_next c next r t

  module _ (event : WriteEvent) (prepared : PreparedWrite W) (embedding : List W)
      (project language : String) (entity : String) (task : TaskType) where
    -- the end of the loop's body, which returns
    unfoldable pub merge_into :
        UpdateTracker W
        → List (UpdatePair W)
        → EpisodicMemory W
        → EpisodicMemory W
        → Action S (WriteResult W)
    merge_into t covered candidate existing = do
      let m = merged event prepared.surprise embedding candidate now existing
      wrapped store_failed (store.write_episodic m)
      weight ← wrapped store_failed (apply_update_actions t m covered)
      pure (record {
        memory_id = m.id;
        persisted = true;
        gate_reason = prepared.gate.reason;
        merge_action = some MergeAction.updated_existing;
        weight = weight;
      })

    unfoldable pub create_new : UpdateTracker W → List (UpdatePair W) → Action S (WriteResult W)
    create_new t covered = do
      let m = new_memory fresh event prepared embedding project language entity task now
      wrapped store_failed (store.write_episodic m)
      weight ← wrapped store_failed (apply_update_actions t m covered)
      (if deps.skip_link_on_write
            then pure tt
            else link_on_write store (some deps.embedder) clock fresh event.summary project entity
                task)
          >>! pure (record {
            memory_id = fresh;
            persisted = true;
            gate_reason = prepared.gate.reason;
            merge_action = some MergeAction.created_new;
            weight = weight;
          })

    unfoldable pub push_summary : Action (Pipeline S) Done
    push_summary p = (ok tt, record p { working_mem = pushed project event.summary p.working_mem })

    unfoldable pub finish :
        UpdateTracker W
        → List (UpdatePair W)
        → Option (EpisodicMemory W × EpisodicMemory W)
        → Action (Pipeline S) (WriteResult W)
    unfolding push_summary
    finish t covered (some (candidate, existing)) =
        on_store (merge_into t covered candidate existing)
    finish t covered none = do r ← on_store (create_new t covered); push_summary; pure r

    -- `writeMemoryPersist`
    unfoldable pub write_memory_persist : Action (Pipeline S) (WriteResult W)
    unfolding finish
    write_memory_persist = do
      let t = tracker_or_default deps.update_tracker
      let ctx : SeparationContext = record {
        project_id = project;
        language = language;
        entity_id = entity;
      }
      candidates ←
          on_store
            (wrapped store_failed (store.search_episodic (candidates_request project embedding)))
      let covered = detect_update explain t (draft event entity now) candidates
      hit ← on_store (find_merge (unmergeable prepared.threshold embedding ctx covered) candidates)
      finish t covered hit

  unfoldable pub not_persisted : String → WriteResult W
  not_persisted reason = record {
    memory_id = 0;
    persisted = false;
    gate_reason = reason;
    merge_action = none;
    weight = zero_f;
  }

  module _ (event : WriteEvent) (project language entity : String) (task : TaskType) where
    unfoldable pub embedded :
        PreparedWrite W → Option (List W) → Action (Pipeline S) (WriteResult W)
    embedded prepared none = raise embed_failed
    embedded prepared (some v) = write_memory_persist event prepared v project language entity task

    unfoldable pub gated :
        Option (List W) → Result (PreparedWrite W) → Action (Pipeline S) (WriteResult W)
    unfolding embedded not_persisted
    gated v (err e) = raise e
    gated v (ok prepared) =
        if prepared.gate.should_persist
        then embedded prepared v
        else pure (not_persisted prepared.gate.reason)

    -- `WriteMemory`
    unfoldable pub write_memory : Action (Pipeline S) (WriteResult W)
    unfolding gated
    write_memory p =
        gated (deps.embedder event.summary) (prepare_write_event deps event project p.working_mem) p

    unfoldable pub given : List W → Option (List W)
    given v = if is_empty v then none else some v

    -- `WriteMemoryWithEmbedding`
    unfoldable pub write_memory_with_embedding : List W → Action (Pipeline S) (WriteResult W)
    unfolding gated given
    write_memory_with_embedding v p =
        gated (given v) (prepare_write_event deps event project p.working_mem) p
