-- ===== src/Core/Write/Remembered.antt =====
-- What becomes of an accepted event in internal/core/write_pipeline.go, on the in-memory store.
use mathlib.Core.Path.{subst}
use mathlib.Core.Option.{none-ne-some}
use mathlib.Core.List.{append_assoc}
use vatbrain.Prelude.{
  ℕ, ◌≡◌, ◌≢◌, refl, sym, ap, ◌∙◌, Bool, true, false, String, Option, some, none, List, [], ◌∷◌,
  ◌++◌, All, All-imp, All-In, any, In, inl, inr, Bool-cases, nat_eq, nat_beq_iff, ◌==◌, arith,
}
use vatbrain.Prelude.Dict.{Dict, lookup, lookup-insert}
use vatbrain.Prelude.Result.{Result, ok, bind-ok, pure}
use vatbrain.Prelude.Text.{Text}
use vatbrain.Float.{Float64}
use vatbrain.Models.Common.{Uuid, Time, TaskType, MergeAction}
use vatbrain.Models.Episodic.{EpisodicMemory}
use vatbrain.Store.Memory.Backend.{memory_store}
use vatbrain.Store.Memory.Episodics.{write_episodic, get_episodic}
use vatbrain.Store.Memory.Has.{Has, HasIn, IsThere}
use vatbrain.Store.Memory.State.{Store}
use vatbrain.Core.Gate.{WriteEvent}
use vatbrain.Core.Update.{UpdatePair, UpdateTracker, detect_update, apply_update, AppliedUpdate}
use vatbrain.Core.Update.Applied.{IsRetired, apply_update-runs}
use vatbrain.Core.Update.Covered.{IsCovered, detect_update-IsCovered}
use vatbrain.Core.Write.{WriteDeps, WriteResult, PreparedWrite, merged, new_memory, draft}
use vatbrain.Core.Link.{link_on_write}
use vatbrain.Core.Write.Linked.{link_on_write-episodics}
use vatbrain.Core.Write.Steps.{apply_update_actions, find_merge, or_next, merge_into, create_new}

-- The memory's summary is the text, or ends with it.
abbrev pub EndsWith : {W : Type 0} → Text → EpisodicMemory W → Type 0
EndsWith text m = (start : Text) × (m.summary ≡ start ++ text)

module _ {W : Type 0} ⦃d : Float64 W⦄ (deps : WriteDeps W)
    (explain : EpisodicMemory W → EpisodicMemory W → W → String) (fresh : Uuid) (now : Time)
    (clock : ℕ → Time) where
  abbrev pub Ready : Store W → Uuid → List (UpdatePair W) → Type 0
  Ready s carrier ps = All (λ (p : UpdatePair W). (p.old_id ≢ carrier) × IsThere s p.old_id) ps

  -- The actions succeed, and keep the texts.
  apply_update_actions-runs :
      (t : UpdateTracker W) (m : EpisodicMemory W) (ps : List (UpdatePair W)) (text : Text)
      (s : Store W)
      → Ready s m.id ps
      → IsThere s m.id
      → Has (EndsWith text) s m.id
      → (w : W) × (u : Store W) × (apply_update_actions memory_store deps explain fresh now clock t
            m ps s
          ≡ (ok w, u))
        × Has (EndsWith text) u m.id
        × All (λ (p : UpdatePair W). IsRetired now u p.old_id) ps
  unfolding apply_update_actions
  apply_update_actions-runs t m [] text s h i k = (m.weight, s, refl, k, tt)
  apply_update_actions-runs t m (p ∷ ps) text s h i k =
      let (applied, u, run, same, retired, keeps) = apply_update-runs t m (p ∷ ps) now s h i in
      (
        applied.carrier_weight,
        u,
        bind-ok (apply_update memory_store t m (p ∷ ps) now)
            (λ (a : AppliedUpdate W). pure a.carrier_weight) s run,
        keeps (EndsWith text) m.id (λ n w f e. (e, e)) k,
        retired,
      )

  abbrev pub IsHit :
      (EpisodicMemory W → Bool)
      → Store W
      → List (EpisodicMemory W)
      → Option (EpisodicMemory W × EpisodicMemory W)
      → Type 0
  IsHit skip s cs none = Unit
  IsHit skip s cs (some (c, existing)) =
      In c cs × (skip c ≡ false) × (lookup c.id s.episodics ≡ some existing)

  IsHit-later :
      (skip : EpisodicMemory W → Bool) (s : Store W) (c : EpisodicMemory W)
      (cs : List (EpisodicMemory W)) (o : Option (EpisodicMemory W × EpisodicMemory W))
      → IsHit skip s cs o
      → IsHit skip s (c ∷ cs) o
  IsHit-later skip s c cs none h = tt
  IsHit-later skip s c cs (some (c', m)) (i, k, e) = (inr i, k, e)

  pub find_merge-runs :
      (skip : EpisodicMemory W → Bool) (cs : List (EpisodicMemory W)) (s : Store W)
      → All (λ (c : EpisodicMemory W). IsThere s c.id) cs
      → (o : Option (EpisodicMemory W × EpisodicMemory W)) × (find_merge memory_store deps explain
            fresh now clock skip cs s
          ≡ (ok o, s))
        × IsHit skip s cs o
  unfolding find_merge or_next get_episodic
  find_merge-runs skip [] s h = (none, refl, tt)
  find_merge-runs skip (c ∷ cs) s ((m, e, u), hs) = elim (Bool-cases (skip c)) [
    | inr k ↦ (some (c, m), rw (k, e), (inl refl, k, e))
    | inl k ↦
        let (o, run, hit) = find_merge-runs skip cs s hs in
        (o, rw k run, IsHit-later skip s c cs o hit)
  ]

  -- To write the carrier and act on what it covers succeeds, and keeps its text.
  written-Ready :
      (m : EpisodicMemory W) (ps : List (UpdatePair W)) (s : Store W)
      → Ready s m.id ps
      → Ready (write_episodic m s).1 m.id ps
  unfolding write_episodic
  written-Ready m ps s h =
      All-imp {P = λ (p : UpdatePair W). (p.old_id ≢ m.id) × IsThere s p.old_id}
        {Q = λ (p : UpdatePair W). (p.old_id ≢ m.id) × IsThere (write_episodic m s).1 p.old_id}
        (λ p (ne, (n, e, u)). (
          ne,
          (
            n,
            rw lookup-insert (let q : (m.id == p.old_id) ≡ false = ground (arith, ne) in rw q e),
            tt,
          ),
        ))
        ps h

  written-Has :
      (m : EpisodicMemory W) (P : EpisodicMemory W → Type 0) (s : Store W)
      → P m
      → Has P (write_episodic m s).1 m.id
  unfolding write_episodic
  written-Has m P s h = (m, rw (lookup-insert, (nat_beq_iff m.id m.id).1 refl), h)

  module _ (event : WriteEvent) (prepared : PreparedWrite W) (embedding : List W)
      (project language : String) (entity : String) (task : TaskType) where
    -- A step that succeeds, stores the event, and retires what it covers.
    abbrev pub Remembers : List (UpdatePair W) → Result (WriteResult W) × Store W → Type 0
    Remembers ps out =
        (r : WriteResult W) × (u : Store W) × (out ≡ (ok r, u))
        × (r.persisted ≡ true)
        × Has (EndsWith event.summary) u r.memory_id
        × All (λ (p : UpdatePair W). IsRetired now u p.old_id) ps

    pub merge_into-Remembers :
        (t : UpdateTracker W) (ps : List (UpdatePair W)) (candidate existing : EpisodicMemory W)
        (s : Store W)
        → Ready s existing.id ps
        → Remembers ps (
            merge_into memory_store deps explain fresh now clock event prepared embedding project
              language entity task t ps candidate existing s)
    unfolding merge_into merged write_episodic
    merge_into-Remembers t ps candidate existing s h =
        let m = merged event prepared.surprise embedding candidate now existing in
        let text : EndsWith event.summary m = (
          existing.summary ++ 10 ∷ [],
          sym (append_assoc existing.summary (10 ∷ []) event.summary),
        ) in
        let there = written-Has m (λ n. Unit {0}) s tt in
        let (w, u, run, kept, retired) =
          apply_update_actions-runs t m ps event.summary (write_episodic m s).1
            (written-Ready m ps s h) there (written-Has m (EndsWith event.summary) s text) in
        let result : WriteResult W = record {
          memory_id = m.id;
          persisted = true;
          gate_reason = prepared.gate.reason;
          merge_action = some MergeAction.updated_existing;
          weight = w;
        } in
        (result, u, rw run refl, refl, kept, retired)

    pub create_new-Remembers :
        (t : UpdateTracker W) (ps : List (UpdatePair W)) (s : Store W)
        → Ready s fresh ps
        → Remembers ps (
            create_new memory_store deps explain fresh now clock event prepared embedding project
              language entity task t ps s)
    unfolding create_new new_memory write_episodic
    create_new-Remembers t ps s h =
        let m = new_memory fresh event prepared embedding project language entity task now in
        let text : EndsWith event.summary m = ([], refl) in
        let there = written-Has m (λ n. Unit {0}) s tt in
        let (w, u, run, kept, retired) =
          apply_update_actions-runs t m ps event.summary (write_episodic m s).1
            (written-Ready m ps s h) there (written-Has m (EndsWith event.summary) s text) in
        let result : WriteResult W = record {
          memory_id = fresh;
          persisted = true;
          gate_reason = prepared.gate.reason;
          merge_action = some MergeAction.created_new;
          weight = w;
        } in
        elim (Bool-cases deps.skip_link_on_write) [
          | inl e ↦ (result, u, rw (run, e) refl, refl, kept, retired)
          | inr e ↦
              let linked =
                (link_on_write memory_store (some deps.embedder) clock fresh event.summary project
                  entity task u).1 in
              let same : u.episodics ≡ linked.episodics = sym (
                link_on_write-episodics (some deps.embedder) clock fresh event.summary project
                  entity task u) in
              (
                result,
                linked,
                rw (run, e) refl,
                refl,
                subst
                    (λ (ep : Dict Uuid (EpisodicMemory W)). HasIn (EndsWith event.summary) ep fresh)
                    same kept,
                All-imp
                    {P = λ (p : UpdatePair W).
                      HasIn (λ m. m.obsoleted_at ≡ some now) u.episodics p.old_id}
                    {Q = λ (p : UpdatePair W).
                      HasIn (λ m. m.obsoleted_at ≡ some now) linked.episodics p.old_id}
                    (λ p k.
                      subst
                        (λ (ep : Dict Uuid (EpisodicMemory W)).
                          HasIn (λ m. m.obsoleted_at ≡ some now) ep p.old_id)
                        same k)
                    ps retired,
              )
        ]

    -- what the memories that are covered are
    pub draft-Ready :
        (t : UpdateTracker W) (cs : List (EpisodicMemory W)) (s : Store W)
        → All (λ (c : EpisodicMemory W). IsThere s c.id) cs
        → All
            (λ (p : UpdatePair W). IsThere s p.old_id)
            (detect_update explain t (draft event entity now) cs)
    draft-Ready t cs s h =
        All-imp {P = IsCovered t (draft event entity now) cs}
          {Q = λ (p : UpdatePair W). IsThere s p.old_id}
          (λ p (old, i, at, a, b, c, e).
            subst (IsThere s) (sym at) (All-In (λ (m : EpisodicMemory W). IsThere s m.id) cs h i))
          _ (detect_update-IsCovered explain t (draft event entity now) cs)

    pub new-Ready :
        (ps : List (UpdatePair W)) (s : Store W)
        → lookup fresh s.episodics ≡ none
        → All (λ (p : UpdatePair W). IsThere s p.old_id) ps
        → Ready s fresh ps
    new-Ready ps s n h =
        All-imp {P = λ (p : UpdatePair W). IsThere s p.old_id}
          {Q = λ (p : UpdatePair W). (p.old_id ≢ fresh) × IsThere s p.old_id}
          (λ p (m, e, u). (
            λ same. none-ne-some _ (sym n ∙ ap (λ k. lookup k s.episodics) (sym same) ∙ e),
            (m, e, u),
          ))
          ps h

    pub old-Ready :
        (ps : List (UpdatePair W)) (s : Store W) (c existing : EpisodicMemory W)
        → existing.id ≡ c.id
        → any (λ (p : UpdatePair W). p.old_id == c.id) ps ≡ false
        → All (λ (p : UpdatePair W). IsThere s p.old_id) ps
        → Ready s existing.id ps
    old-Ready [] s c existing same e h = tt
    old-Ready (p ∷ ps) s c existing same e (h, hs) = (
      (λ q. let q' : p.old_id ≡ c.id = q ∙ same in ground arith, h),
      old-Ready ps s c existing same (ground arith) hs,
    )
