-- ===== src/Core/Write/Accepted.antt =====
-- An event that the gate of internal/core/write_pipeline.go accepts, from the call to the store.
use vatbrain.Prelude.{ℕ, ◌≡◌, refl, true, String, Option, some, none, List, All, nat_eq, arith}
use vatbrain.Prelude.Dict.{lookup}
use vatbrain.Prelude.Dict.Entries.{lookup-AllPairs}
use vatbrain.Prelude.Result.{Result, ok}
use vatbrain.Float.{Float64}
use vatbrain.Models.Common.{Uuid, Time, TaskType}
use vatbrain.Models.Episodic.{EpisodicMemory}
use vatbrain.Store.Memory.Backend.{memory_store}
use vatbrain.Store.Memory.Has.{Has, IsThere, MemoriesAreKeyed, search_episodic-IsThere}
use vatbrain.Store.Memory.State.{Store}
use vatbrain.Store.Memory.Search.{search_episodic}
use vatbrain.Store.WorkingMemory.{WorkingMemoryBuffer}
use vatbrain.Core.Gate.{WriteEvent}
use vatbrain.Core.Separation.{SeparationContext}
use vatbrain.Core.Update.{UpdatePair, UpdateTracker, detect_update}
use vatbrain.Core.Update.Applied.{IsRetired}
use vatbrain.Core.Write.{
  new_memory, WriteDeps, WriteResult, PreparedWrite, Pipeline, unmergeable, prepare_write_event,
  draft, tracker_or_default, candidates_request, pushed,
}
use vatbrain.Core.Write.Remembered.{
  EndsWith, IsHit, find_merge-runs, merge_into-Remembers, create_new-Remembers, draft-Ready,
  new-Ready, old-Ready,
}
use vatbrain.Core.Write.Steps.{
  create_new, merge_into, finish, push_summary, gated, embedded, write_memory_persist, write_memory,
}

module _ {W : Type 0} ⦃d : Float64 W⦄ (deps : WriteDeps W)
    (explain : EpisodicMemory W → EpisodicMemory W → W → String) (fresh : Uuid) (now : Time)
    (clock : ℕ → Time) (event : WriteEvent) (project language entity : String)
    (task : TaskType) where
  -- The event is stored, and what it covers is retired.
  abbrev pub Accepts : List (UpdatePair W) → Result (WriteResult W) × Pipeline (Store W) → Type 0
  Accepts ps out =
      (r : WriteResult W) × (q : Pipeline (Store W)) × (out ≡ (ok r, q))
      × (r.persisted ≡ true)
      × Has (EndsWith event.summary) q.store r.memory_id
      × All (λ (p : UpdatePair W). IsRetired now q.store p.old_id) ps

  finish-Accepts :
      (prepared : PreparedWrite W) (v : List W) (t : UpdateTracker W) (ps : List (UpdatePair W))
      (cs : List (EpisodicMemory W)) (ctx : SeparationContext)
      (hit : Option (EpisodicMemory W × EpisodicMemory W)) (s : Store W)
      (w : Option WorkingMemoryBuffer)
      → MemoriesAreKeyed s
      → lookup fresh s.episodics ≡ none
      → All (λ (p : UpdatePair W). IsThere s p.old_id) ps
      → IsHit deps explain fresh now clock (unmergeable prepared.threshold v ctx ps) s cs hit
      → Accepts ps (
          finish memory_store deps explain fresh now clock event prepared v project language entity
            task t ps hit
            (record { store = s; working_mem = w }))
  unfolding finish push_summary unmergeable
  finish-Accepts prepared v t ps cs ctx none s w keyed n h hit =
      let (r, u, run, p, has, retired) =
        create_new-Remembers deps explain fresh now clock event prepared v project language entity
          task t ps s
          (new-Ready deps explain fresh now clock event prepared v project language entity task ps s
            n h) in
      (
        r,
        record { store = u; working_mem = pushed project event.summary w },
        rw run refl,
        p,
        has,
        retired,
      )
  finish-Accepts prepared v t ps cs ctx (some (c, existing)) s w keyed n h (i, k, e) =
      let same =
        lookup-AllPairs (λ j (m : EpisodicMemory W). m.id ≡ j) c.id s.episodics keyed.keyed e in
      let (r, u, run, p, has, retired) =
        merge_into-Remembers deps explain fresh now clock event prepared v project language entity
          task t ps c existing s
          (old-Ready deps explain fresh now clock event prepared v project language entity task ps s
            c existing same (ground arith) h) in
      (r, record { store = u; working_mem = w }, rw run refl, p, has, retired)

  -- On the in-memory store, an event that the gate accepts and that embeds is remembered: the write
  -- succeeds, the memory that it reports is stored, and its summary is that of the event or ends with
  -- it. Every memory that the search for candidates returns and that the event covers is retired.
  pub write_memory-remembers :
      (prepared : PreparedWrite W) (v : List W) (s : Store W) (w : Option WorkingMemoryBuffer)
      → prepare_write_event deps event project w ≡ ok prepared
      → prepared.gate.should_persist ≡ true
      → deps.embedder event.summary ≡ some v
      → MemoriesAreKeyed s
      → lookup fresh s.episodics ≡ none
      → (candidates : List (EpisodicMemory W)) × (search_episodic (candidates_request project v) s
          ≡ (ok candidates, s))
        × Accepts
            (detect_update explain
              (tracker_or_default deps.update_tracker)
              (draft event entity now)
              candidates)
            (write_memory memory_store deps explain fresh now clock event project language entity
              task
              (record { store = s; working_mem = w }))
  unfolding write_memory gated embedded write_memory_persist create_new merge_into new_memory
  write_memory-remembers prepared v s w e g m keyed n =
      let t = tracker_or_default deps.update_tracker in
      let ctx : SeparationContext = record {
        project_id = project;
        language = language;
        entity_id = entity;
      } in
      let (cs, found, there) = search_episodic-IsThere (candidates_request project v) s keyed in
      let ps = detect_update explain t (draft event entity now) cs in
      let (hit, run, is_hit) =
        find_merge-runs deps explain fresh now clock (unmergeable prepared.threshold v ctx ps) cs s
          there in
      (
        cs,
        found,
        rw (e, g, m, found, run)
            (finish-Accepts prepared v t ps cs ctx hit s w keyed n
              (draft-Ready deps explain fresh now clock event prepared v project language entity
                task t cs s there)
              is_hit),
      )
