-- ===== src/Core/Update/Applied.antt =====
-- What internal/core/update_tracker.go does to the in-memory store.
use mathlib.Core.List.{append-nil, append_assoc}
use vatbrain.Prelude.{
  ◌≡◌, ◌≢◌, refl, ap, ◌∙◌, false, some, List, [], ◌∷◌, ◌++◌, All, All-imp, nat_eq, ◌==◌, arith,
}
use vatbrain.Prelude.Result.{ok, Result, bind-ok, pure, ◌>>◌}
use vatbrain.Float.{Float64}
use vatbrain.Float.Clamp.{clamp01}
use vatbrain.Models.Common.{Uuid, Time}
use vatbrain.Models.Episodic.{EpisodicMemory}
use vatbrain.Store.{Property}
use vatbrain.Store.Memory.Backend.{memory_store}
use vatbrain.Store.Memory.Edges.{create_edge}
use vatbrain.Store.Memory.Episodics.{mark_obsolete, update_episodic_weight}
use vatbrain.Store.Memory.Has.{Has, IsThere, change_episodic-Has, change_episodic-runs}
use vatbrain.Store.Memory.State.{Store, change_episodic}
use vatbrain.Core.Update.{
  UpdatePair, UpdateTracker, AppliedUpdate, positive_or, supersede, apply_pairs, boost_carrier,
  apply_update,
}

module _ {W : Type 0} ⦃d : Float64 W⦄ where
  -- The memory is stored, and has been retired at that time.
  abbrev pub IsRetired : Time → Store W → Uuid → Type 0
  IsRetired now = Has (λ m. m.obsoleted_at ≡ some now)

  -- What a step keeps: memories that have a property that no retirement or reweighting takes away.
  abbrev pub IsLasting : (EpisodicMemory W → Type 0) → Time → Type 0
  IsLasting P now =
      (m : EpisodicMemory W) (w f : W)
      → P m
      → P (record m { obsoleted_at = some now })
        × P (record m { weight = w; effective_frequency = f })

  -- One round succeeds, retires the covered memory, and keeps lasting properties.
  supersede-runs :
      (carrier : Uuid) (now : Time) (done : List (UpdatePair W)) (p : UpdatePair W) (s : Store W)
      → IsThere s p.old_id
      → (t : Store W) × (supersede memory_store carrier now done p s ≡ (ok (done ++ p ∷ []), t))
        × IsRetired now t p.old_id
        × ((P : EpisodicMemory W → Type 0) (id : Uuid) → IsLasting P now → Has P s id → Has P t id)
  unfolding supersede mark_obsolete create_edge
  supersede-runs carrier now done p s h =
      let retire = λ (m : EpisodicMemory W). record m { obsoleted_at = some now } in
      let (run, there) =
        change_episodic-runs (λ m. m.obsoleted_at ≡ some now) retire p.old_id s (λ m. refl) h in
      let s₁ = (change_episodic p.old_id retire s).1 in
      let props = ("at", Property.instant now) ∷ ("reason", Property.text p.reason) ∷ [] in
      let run' : supersede memory_store carrier now done p s
          ≡ (ok (done ++ p ∷ []), (create_edge carrier p.old_id "SUPERSEDED" props now s₁).1) =
        bind-ok (mark_obsolete p.old_id now)
          (λ _. create_edge carrier p.old_id "SUPERSEDED" props now >> pure (done ++ p ∷ [])) s
          run in
      (
        _,
        run',
        there,
        λ P id last k.
            change_episodic-Has P retire p.old_id id s (λ m q. (last m m.weight m.weight q).0) k,
      )

  apply_pairs-runs :
      (carrier : Uuid) (now : Time) (done ps : List (UpdatePair W)) (s : Store W)
      → All (λ (p : UpdatePair W). (p.old_id ≢ carrier) × IsThere s p.old_id) ps
      → (t : Store W) × (apply_pairs memory_store carrier now done ps s ≡ (ok (done ++ ps), t))
        × All (λ (p : UpdatePair W). IsRetired now t p.old_id) ps
        × ((P : EpisodicMemory W → Type 0) (id : Uuid) → IsLasting P now → Has P s id → Has P t id)
  unfolding apply_pairs
  apply_pairs-runs carrier now done [] s h = (s, rw append-nil, tt, λ P id last k. k)
  apply_pairs-runs carrier now done (p ∷ ps) s ((ne, h), hs) =
      let e : (p.old_id == carrier) ≡ false = ground (arith, ne) in
      let (t, run, retired, keeps) = supersede-runs carrier now done p s h in
      let hs' =
        All-imp {P = λ (q : UpdatePair W). (q.old_id ≢ carrier) × IsThere s q.old_id}
          {Q = λ (q : UpdatePair W). (q.old_id ≢ carrier) × IsThere t q.old_id}
          (λ q (ne', k). (ne', keeps (λ m. Unit {0}) q.old_id (λ m w f u. (tt, tt)) k)) ps hs in
      let (u, rest, all_retired, keeps') = apply_pairs-runs carrier now (done ++ p ∷ []) ps t hs' in
      (
        u,
        rw e (
            bind-ok (supersede memory_store carrier now done p)
              (λ done'. apply_pairs memory_store carrier now done' ps) s run
            ∙ rest
            ∙ ap (λ (l : List (UpdatePair W)). (ok l, u)) (append_assoc done (p ∷ []) ps)),
        (
          keeps' (λ m. m.obsoleted_at ≡ some now) p.old_id (λ m w f q. (refl, q)) retired,
          all_retired,
        ),
        λ P id last k. keeps' P id last (keeps P id last k),
      )

  pub apply_update-runs :
      (t : UpdateTracker W) (carrier : EpisodicMemory W) (ps : List (UpdatePair W)) (now : Time)
      (s : Store W)
      → All (λ (p : UpdatePair W). (p.old_id ≢ carrier.id) × IsThere s p.old_id) ps
      → IsThere s carrier.id
      → (applied : AppliedUpdate W) × (u : Store W) × (apply_update memory_store t carrier ps now s
          ≡ (ok applied, u))
        × (applied.applied_pairs ≡ ps)
        × All (λ (p : UpdatePair W). IsRetired now u p.old_id) ps
        × ((P : EpisodicMemory W → Type 0) (id : Uuid) → IsLasting P now → Has P s id → Has P u id)
  unfolding apply_update boost_carrier update_episodic_weight apply_pairs
  apply_update-runs t carrier [] now s h i = (_, s, refl, refl, tt, λ P id last k. k)
  apply_update-runs t carrier (p ∷ ps) now s h i =
      let (u, run, retired, keeps) = apply_pairs-runs carrier.id now [] (p ∷ ps) s h in
      let boosted = clamp01 (d.mul carrier.weight (positive_or t.weight_boost (d.ratio 15 10))) in
      let reweigh = λ (m : EpisodicMemory W). record m {
        weight = boosted;
        effective_frequency = carrier.effective_frequency;
      } in
      let there = keeps (λ m. Unit {0}) carrier.id (λ m w f q. (tt, tt)) i in
      let (run', _) = change_episodic-runs (λ m. Unit {0}) reweigh carrier.id u (λ m. tt) there in
      let applied : AppliedUpdate W = record { applied_pairs = p ∷ ps; carrier_weight = boosted } in
      let keeps' =
        λ (P : EpisodicMemory W → Type 0) (id : Uuid) (last : IsLasting P now) (k : Has P u id).
          change_episodic-Has P reweigh carrier.id id u
            (λ m q. (last m boosted carrier.effective_frequency q).1) k in
      (
        applied,
        (change_episodic carrier.id reweigh u).1,
        bind-ok (apply_pairs memory_store carrier.id now [] (p ∷ ps))
              (boost_carrier memory_store t carrier) s run
            ∙ bind-ok (update_episodic_weight carrier.id boosted carrier.effective_frequency)
                (λ _. pure applied) u run',
        refl,
        All-imp
            (λ (q : UpdatePair W) r.
              keeps' (λ m. m.obsoleted_at ≡ some now) q.old_id (λ m w f e. (refl, e)) r)
            (p ∷ ps) retired,
        λ P id last k. keeps' P id last (keeps P id last k),
      )
