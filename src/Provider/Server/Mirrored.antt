-- ===== src/Provider/Server/Mirrored.antt =====
-- What a mirrored write of internal/provider/lifecycle.go leaves in the in-memory store.
use vatbrain.Prelude.{
  ◌≡◌, ◌≢◌, refl, ◌∙◌, true, false, String, string_eq, nat_eq, nat_beq_iff, ◌==◌, Option, none,
  some, List, [], ◌∷◌, ◌++◌, arith,
}
use vatbrain.Prelude.Dict.{Dict, lookup, insert, lookup-insert}
use vatbrain.Prelude.Result.{ok}
use vatbrain.Prelude.Text.{Text}
use vatbrain.Float.{Float64}
use vatbrain.Models.Common.{Uuid, Time, trust_level_max}
use vatbrain.Models.Episodic.{EpisodicMemory}
use vatbrain.Store.Memory.State.{Store, change_episodic}
use vatbrain.Store.Memory.Episodics.{write_episodic, mark_obsolete}
use vatbrain.Store.Memory.Edges.{create_edge}
use vatbrain.Store.Memory.Backend.{memory_store}
use vatbrain.Store.Memory.Has.{Has, IsThere, change_episodic-runs}
use vatbrain.Provider.Server.{
  Server, SessionState, MemoryWriteEntry, WriteAction, WriteClock, OnMemoryWriteParams,
  OnMemoryWriteResult, session_for, entries_of, newest, push_entry, last_entry, target_or_default,
  mirrored_episode, remove_entry, supersede_entry, prior_entry, write_entry, run_action,
  handle_on_memory_write,
}

-- the answer to a removal
abbrev pub removal_of : MemoryWriteEntry → OnMemoryWriteResult
removal_of prev = record {
  persisted = false;
  memory_id = prev.memory_id;
  obsoleted = true;
  edge_created = false;
}

newest-append : (es : List MemoryWriteEntry) (e : MemoryWriteEntry) → newest (es ++ e ∷ []) ≡ some e
unfolding newest
newest-append [] e = refl
newest-append (f ∷ []) e = refl
newest-append (f ∷ g ∷ es) e = newest-append (g ∷ es) e

last_entry-push_entry :
    (target : String) (e : MemoryWriteEntry) (index : Dict String (List MemoryWriteEntry))
    → last_entry target (push_entry target e index) ≡ some e
unfolding last_entry push_entry
last_entry-push_entry target e index =
    rw (lookup-insert, (string_eq.beq_iff target target).1 refl)
      (newest-append (entries_of (lookup target index)) e)

module _ {W : Type 0} ⦃d : Float64 W⦄ where
  retire_other :
      (m m₀ : EpisodicMemory W) (old : Uuid) (now : Time) (s : Store W)
      → old ≢ m.id
      → lookup old s.episodics ≡ some m₀
      → mark_obsolete old now (write_episodic m s).1 ≡ (
        ok tt,
        record s {
          episodics =
              insert old (record m₀ { obsoleted_at = some now }) (insert m.id m s.episodics);
        },
      )
  unfolding mark_obsolete write_episodic
  retire_other m m₀ old now s ne e =
      let q : (m.id == old) ≡ false = ground (arith, ne) in
      let e' : lookup old (insert m.id m s.episodics) ≡ some m₀ = rw (lookup-insert, q) e in
      rw e' refl

  supersede_entry-runs :
      (clock : WriteClock) (id : Uuid) (prev : MemoryWriteEntry) (s t : Store W)
      → mark_obsolete prev.memory_id clock.retired s ≡ (ok tt, t)
      → supersede_entry memory_store clock id (some prev) s ≡ (
        record { persisted = true; memory_id = id; obsoleted = true; edge_created = true },
        (create_edge prev.memory_id id "DERIVED_FROM" [] clock.edge t).1,
      )
  unfolding supersede_entry create_edge
  supersede_entry-runs clock id prev s t run = rw run refl

  -- No memory but the one of that id differs.
  abbrev pub IsOnly : Uuid → Store W → Store W → Type 0
  IsOnly id s t = (other : Uuid) → other ≢ id → lookup other t.episodics ≡ lookup other s.episodics

  change_other :
      (id other : Uuid) (m : EpisodicMemory W) (s : Store W)
      → other ≢ id
      → lookup other (insert id m s.episodics) ≡ lookup other s.episodics
  change_other id other m s ne =
      let q : (id == other) ≡ false = ground (arith, ne) in rw (lookup-insert, q) refl

  -- What a replacement leaves: the last entry of its target retired, and the new entry stored with the
  -- content and the highest trust, active, and last in the index.
  pub record IsReplaced (hash : String) (id : Uuid) (old : Uuid) (now : Time)
      (p : OnMemoryWriteParams) (s : Server (Store W)) : Type 0 where
    pub retired : Has (λ m. m.obsoleted_at ≡ some now) s.store old
    pub stored :
        Has
          (λ m.
            (m.summary ≡ p.content) × (m.trust_level ≡ trust_level_max) × (m.obsoleted_at ≡ none))
          s.store
          id
    pub indexed :
        last_entry (target_or_default p.target) s.memory_write
        ≡ some (record { content_hash = hash; memory_id = id })

  module _ (entry_hash : Text → String) (embedder : Text → Option (List W)) where
    abbrev mirrored : WriteClock → Uuid → String → OnMemoryWriteParams → EpisodicMemory W
    mirrored clock id project p =
        mirrored_episode embedder id clock.created project (target_or_default p.target)
          (entry_hash p.content) p

    mirrored-id :
        (clock : WriteClock) (id : Uuid) (project : String) (p : OnMemoryWriteParams)
        → (mirrored clock id project p).id ≡ id
    unfolding mirrored_episode
    mirrored-id clock id project p = refl

    -- A write ends in what the supersession leaves, with the new entry in the index.
    write_entry-runs :
        (clock : WriteClock) (id : Uuid) (project : String) (p : OnMemoryWriteParams)
        (s : Server (Store W)) (prior : Option MemoryWriteEntry) (out : OnMemoryWriteResult)
        (t : Store W)
        → prior_entry p.action (target_or_default p.target) s.memory_write ≡ prior
        → supersede_entry memory_store clock id prior
            (write_episodic (mirrored clock id project p) s.store).1
          ≡ (out, t)
        → write_entry memory_store entry_hash embedder clock id project
            (target_or_default p.target)
            p
            s
          ≡ (
            ok out,
            record s {
              store = t;
              memory_write =
                  push_entry
                    (target_or_default p.target)
                    (record { content_hash = entry_hash p.content; memory_id = id })
                    s.memory_write;
            },
          )
    unfolding write_entry write_episodic
    write_entry-runs clock id project p s prior out t e run = rw (e, run) refl

    write_entry-IsReplaced :
        (clock : WriteClock) (id : Uuid) (project : String) (p : OnMemoryWriteParams)
        (s : Server (Store W)) (prev : MemoryWriteEntry)
        → p.action ≡ WriteAction.replace
        → last_entry (target_or_default p.target) s.memory_write ≡ some prev
        → prev.memory_id ≢ id
        → IsThere s.store prev.memory_id
        → (s' : Server (Store W)) × (write_entry memory_store entry_hash embedder clock id project
              (target_or_default p.target)
              p
              s
            ≡ (
              ok (record {
                persisted = true;
                memory_id = id;
                obsoleted = true;
                edge_created = true;
              }),
              s',
            ))
          × IsReplaced (entry_hash p.content) id prev.memory_id clock.retired p s'
    unfolding prior_entry create_edge mirrored_episode
    write_entry-IsReplaced clock id project p s prev a l ne (m₀, e, u) =
        let m = mirrored clock id project p in
        let run = retire_other m m₀ prev.memory_id clock.retired s.store ne e in
        let q : (prev.memory_id == id) ≡ false = ground (arith, ne) in
        (
          _,
          write_entry-runs clock id project p s (some prev) _ _ (rw a l)
              (supersede_entry-runs clock id prev _ _ run),
          record {
            retired = (
              record m₀ { obsoleted_at = some clock.retired },
              rw (lookup-insert, (nat_beq_iff prev.memory_id prev.memory_id).1 refl) refl,
              refl,
            );
            stored = (
              m,
              rw (lookup-insert, q, lookup-insert, (nat_beq_iff id id).1 refl) refl,
              (refl, refl, refl),
            );
            indexed = last_entry-push_entry _ _ _;
          },
        )

    handle-runs :
        (clock : WriteClock) (id : Uuid) (session : SessionState) (p : OnMemoryWriteParams)
        (action : WriteAction) (s : Server (Store W))
        → session_for p.session_id s ≡ some session
        → p.action ≡ action
        → handle_on_memory_write memory_store entry_hash embedder clock id p s
          ≡ run_action memory_store entry_hash embedder clock id session.project_id p action s
    unfolding handle_on_memory_write
    handle-runs clock id session p action s known a = rw (known, a) refl

    -- A replacement in a known session, of an entry whose memory is stored, reports the retirement and
    -- the edge: the memory of the last entry of the target is retired, and the new memory is stored with
    -- the content and the highest trust, active, and is the last entry.
    pub replace_supersedes :
        (clock : WriteClock) (id : Uuid) (session : SessionState) (p : OnMemoryWriteParams)
        (s : Server (Store W)) (prev : MemoryWriteEntry)
        → session_for p.session_id s ≡ some session
        → p.action ≡ WriteAction.replace
        → last_entry (target_or_default p.target) s.memory_write ≡ some prev
        → prev.memory_id ≢ id
        → IsThere s.store prev.memory_id
        → (s' : Server (Store W)) × (handle_on_memory_write memory_store entry_hash embedder clock
              id p s
            ≡ (
              ok (record {
                persisted = true;
                memory_id = id;
                obsoleted = true;
                edge_created = true;
              }),
              s',
            ))
          × IsReplaced (entry_hash p.content) id prev.memory_id clock.retired p s'
    unfolding run_action
    replace_supersedes clock id session p s prev known a l ne there =
        let (s', run, done) =
          write_entry-IsReplaced clock id session.project_id p s prev a l ne there in
        (s', handle-runs clock id session p WriteAction.replace s known a ∙ run, done)

    -- A removal in a known session, of an entry whose memory is stored, retires it and keeps the index.
    handle-removes :
        (clock : WriteClock) (id : Uuid) (session : SessionState) (p : OnMemoryWriteParams)
        (s : Server (Store W)) (prev : MemoryWriteEntry)
        → session_for p.session_id s ≡ some session
        → p.action ≡ WriteAction.remove
        → last_entry (target_or_default p.target) s.memory_write ≡ some prev
        → IsThere s.store prev.memory_id
        → (t : Store W) × (handle_on_memory_write memory_store entry_hash embedder clock id p s
            ≡ (ok (removal_of prev), record s { store = t }))
          × Has (λ m. m.obsoleted_at ≡ some clock.retired) t prev.memory_id
          × IsOnly prev.memory_id s.store t
    unfolding run_action remove_entry mark_obsolete
    handle-removes clock id session p s prev known a l (m₀, there, u) =
        let retire = λ (m : EpisodicMemory W). record m { obsoleted_at = some clock.retired } in
        let (run, gone) =
          change_episodic-runs (λ m. m.obsoleted_at ≡ some clock.retired) retire prev.memory_id
            s.store (λ m. refl) (m₀, there, u) in
        (
          (change_episodic prev.memory_id retire s.store).1,
          handle-runs clock id session p WriteAction.remove s known a ∙ rw (l, run) refl,
          gone,
          λ other ne. rw there (change_other prev.memory_id other (retire m₀) s.store ne),
        )

    -- A removal in a known session, of an entry whose memory is stored, retires that memory; a second
    -- removal of the same target succeeds too, and retires the same memory again at its own time. No other
    -- memory changes in either, so an older entry of the target stays as it is, and the index of the
    -- entries stays.
    pub removal_repeats :
        (clock clock' : WriteClock) (id id' : Uuid) (session : SessionState)
        (p : OnMemoryWriteParams) (s : Server (Store W)) (prev : MemoryWriteEntry)
        → session_for p.session_id s ≡ some session
        → p.action ≡ WriteAction.remove
        → last_entry (target_or_default p.target) s.memory_write ≡ some prev
        → IsThere s.store prev.memory_id
        → (s₁ s₂ : Server (Store W)) × (handle_on_memory_write memory_store entry_hash embedder
              clock id p s
            ≡ (ok (removal_of prev), s₁))
          × Has (λ m. m.obsoleted_at ≡ some clock.retired) s₁.store prev.memory_id
          × IsOnly prev.memory_id s.store s₁.store
          × (handle_on_memory_write memory_store entry_hash embedder clock' id' p s₁
              ≡ (ok (removal_of prev), s₂))
          × Has (λ m. m.obsoleted_at ≡ some clock'.retired) s₂.store prev.memory_id
          × IsOnly prev.memory_id s.store s₂.store
          × (s₂.memory_write ≡ s.memory_write)
    unfolding session_for
    removal_repeats clock clock' id id' session p s prev known a l there =
        let (t, run, (m, e, gone), only) =
          handle-removes clock id session p s prev known a l there in
        let s₁ = record s { store = t } in
        let (u, run', gone', only') =
          handle-removes clock' id' session p s₁ prev known a l (m, e, tt) in
        (
          s₁,
          record s₁ { store = u },
          run,
          (m, e, gone),
          only,
          run',
          gone',
          λ o ne. only' o ne ∙ only o ne,
          refl,
        )
