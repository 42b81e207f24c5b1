-- ===== src/Core/Reconsolidation/Traced.antt =====
-- Every source of a corrected memory is accounted for, whatever the store answers.
use mathlib.Core.List.{append_assoc, append-nil}
use vatbrain.Prelude.{
  ◌≡◌, refl, sym, ◌∙◌, Bool, true, false, List, [], ◌∷◌, ◌++◌, any, inl, inr, Bool-cases, nat_eq,
  ◌==◌, if◌then◌else◌,
}
use vatbrain.Prelude.Int.{positive}
use vatbrain.Prelude.Result.{Action, Done, Error, Result, ok, err}
use vatbrain.Float.{Float64}
use vatbrain.Models.Common.{Uuid}
use vatbrain.Models.Episodic.{EpisodicMemory}
use vatbrain.Store.{MemoryStore, Edge}
use vatbrain.Core.Reconsolidation.{
  CorrectionDetail, ReconsolidationEngine, ReconsolidationResult, no_result, skip, failed, updated,
  reweighed, sourced, trace, traced, process_semantic, amend_semantic,
}

-- what becomes of a source
pub data Outcome : Type 0 where
  raised passed_over refused : Outcome

same : Outcome → Outcome → Bool
same raised raised = true
same passed_over passed_over = true
same refused refused = true
same _ _ = false

-- the memories with that outcome, in order
pub ids : Outcome → List (Outcome × Uuid) → List Uuid
unfolding same
ids o [] = []
ids o ((p, id) ∷ os) = if same o p then id ∷ ids o os else ids o os

module _ {W S : Type 0} ⦃d : Float64 W⦄ (store : MemoryStore W S) (engine : ReconsolidationEngine W)
    (amend : EpisodicMemory W → W → Action S Done) where
  -- the source's boosted weight is written
  abbrev boosted_write : EpisodicMemory W → Action S Done
  boosted_write ep =
      store.update_episodic_weight ep.id (d.mul ep.weight engine.correction_boost)
        ep.effective_frequency

  -- What becomes of the sources of some edges, one after the other, beside the stores before and after. A
  -- source that was met before, or that the store does not have, is passed over; one whose weight the
  -- store refuses to write is refused; and the others are raised and amended.
  pub data Follows : List Uuid → List (Edge W) → List (Outcome × Uuid) → S → S → Type 0 where
    done : {visited : List Uuid} {s : S} → Follows visited [] [] s s
    met :
        {visited : List Uuid} {e : Edge W} {es : List (Edge W)} {os : List (Outcome × Uuid)}
        {s u : S}
        → any (λ v. v == e.to_id) visited ≡ true
        → Follows (e.to_id ∷ visited) es os s u
        → Follows visited (e ∷ es) ((passed_over, e.to_id) ∷ os) s u
    missing :
        {visited : List Uuid} {e : Edge W} {es : List (Edge W)} {os : List (Outcome × Uuid)}
        {s t u : S} (x : Error)
        → any (λ v. v == e.to_id) visited ≡ false
        → store.get_episodic e.to_id s ≡ (err x, t)
        → Follows (e.to_id ∷ visited) es os t u
        → Follows visited (e ∷ es) ((passed_over, e.to_id) ∷ os) s u
    denied :
        {visited : List Uuid} {e : Edge W} {es : List (Edge W)} {os : List (Outcome × Uuid)}
        {s t t' u : S} (ep : EpisodicMemory W) (x : Error)
        → any (λ v. v == e.to_id) visited ≡ false
        → store.get_episodic e.to_id s ≡ (ok ep, t)
        → boosted_write ep t ≡ (err x, t')
        → Follows (e.to_id ∷ visited) es os t' u
        → Follows visited (e ∷ es) ((refused, ep.id) ∷ os) s u
    amended :
        {visited : List Uuid} {e : Edge W} {es : List (Edge W)} {os : List (Outcome × Uuid)}
        {s t t' u : S} (ep : EpisodicMemory W) (x : Done)
        → any (λ v. v == e.to_id) visited ≡ false
        → store.get_episodic e.to_id s ≡ (ok ep, t)
        → boosted_write ep t ≡ (ok x, t')
        → Follows
            (e.to_id ∷ visited)
            es
            os
            (amend ep (d.mul ep.weight engine.correction_boost) t').1
            u
        → Follows visited (e ∷ es) ((raised, ep.id) ∷ os) s u

module _ {W : Type 0} where
  -- The result names the memories of each outcome, after those that it had.
  pub record Names (r r' : ReconsolidationResult W) (os : List (Outcome × Uuid)) : Type 0 where
    pub updates : r'.updated_ids ≡ r.updated_ids ++ ids raised os
    pub skips : r'.skipped_ids ≡ r.skipped_ids ++ ids passed_over os
    pub fails : r'.failed_ids ≡ r.failed_ids ++ ids refused os

  no-Names : (r : ReconsolidationResult W) → Names r r []
  unfolding ids
  no-Names r = record {
    updates = sym (append-nil r.updated_ids);
    skips = sym (append-nil r.skipped_ids);
    fails = sym (append-nil r.failed_ids);
  }

module _ {W : Type 0} ⦃d : Float64 W⦄ where
  skip-Names :
      (id : Uuid) (r r' : ReconsolidationResult W) (os : List (Outcome × Uuid))
      → Names (skip id r) r' os
      → Names r r' ((passed_over, id) ∷ os)
  unfolding skip ids same
  skip-Names id r r' os n = record {
    updates = n.updates;
    skips = n.skips ∙ append_assoc r.skipped_ids (id ∷ []) (ids passed_over os);
    fails = n.fails;
  }

  failed-Names :
      (id : Uuid) (r r' : ReconsolidationResult W) (os : List (Outcome × Uuid))
      → Names (failed id r) r' os
      → Names r r' ((refused, id) ∷ os)
  unfolding failed ids same
  failed-Names id r r' os n = record {
    updates = n.updates;
    skips = n.skips;
    fails = n.fails ∙ append_assoc r.failed_ids (id ∷ []) (ids refused os);
  }

  updated-Names :
      (id : Uuid) (x : W) (r r' : ReconsolidationResult W) (os : List (Outcome × Uuid))
      → Names (updated id x r) r' os
      → Names r r' ((raised, id) ∷ os)
  unfolding updated ids same
  updated-Names id x r r' os n = record {
    updates = n.updates ∙ append_assoc r.updated_ids (id ∷ []) (ids raised os);
    skips = n.skips;
    fails = n.fails;
  }

module _ {W S : Type 0} ⦃d : Float64 W⦄ (store : MemoryStore W S) (engine : ReconsolidationEngine W)
    (detail : CorrectionDetail) (user : Bool) where
  -- A run over the edges succeeds, and names what becomes of each source.
  abbrev Accounts :
      (EpisodicMemory W → W → Action S Done)
      → List Uuid
      → ReconsolidationResult W
      → List (Edge W)
      → S
      → Result (ReconsolidationResult W) × S
      → Type 0
  Accounts amend visited r es s out =
      (r' : ReconsolidationResult W) × (u : S) × (os : List (Outcome × Uuid)) × (out ≡ (ok r', u))
      × Follows store engine amend visited es os s u
      × Names r r' os

  -- One source is settled so: the run goes on from there, with its outcome before those that follow.
  abbrev Settles :
      (EpisodicMemory W → W → Action S Done)
      → List Uuid
      → ReconsolidationResult W
      → Edge W
      → List (Edge W)
      → S
      → Result (ReconsolidationResult W) × S
      → Type 0
  Settles amend visited r e es s out =
      (r₁ : ReconsolidationResult W) × (t : S) × (out ≡ (ok r₁, t))
      × ((r' : ReconsolidationResult W) (u : S) (os : List (Outcome × Uuid))
          → Follows store engine amend (e.to_id ∷ visited) es os t u
          → Names r₁ r' os
          → (o : Outcome × Uuid) × Follows store engine amend visited (e ∷ es) (o ∷ os) s u
            × Names r r' (o ∷ os))

  reweighed-Settles :
      (amend : EpisodicMemory W → W → Action S Done) (visited : List Uuid)
      (r : ReconsolidationResult W) (e : Edge W) (es : List (Edge W)) (s t t' : S)
      (ep : EpisodicMemory W) (o : Result Done)
      → any (λ v. v == e.to_id) visited ≡ false
      → store.get_episodic e.to_id s ≡ (ok ep, t)
      → boosted_write store engine amend ep t ≡ (o, t')
      → Settles amend visited r e es s (
          reweighed store engine detail user amend ep
            (d.mul ep.weight engine.correction_boost)
            r
            o
            t')
  unfolding reweighed
  reweighed-Settles amend visited r e es s t t' ep (ok x) q g w = (
    _,
    _,
    refl,
    λ r' u os f n. ((raised, ep.id), amended ep x q g w f, updated-Names ep.id _ r r' os n),
  )
  reweighed-Settles amend visited r e es s t t' ep (err x) q g w = (
    _,
    _,
    refl,
    λ r' u os f n. ((refused, ep.id), denied ep x q g w f, failed-Names ep.id r r' os n),
  )

  sourced-Settles :
      (amend : EpisodicMemory W → W → Action S Done) (visited : List Uuid)
      (r : ReconsolidationResult W) (e : Edge W) (es : List (Edge W)) (s t : S)
      (o : Result (EpisodicMemory W))
      → any (λ v. v == e.to_id) visited ≡ false
      → store.get_episodic e.to_id s ≡ (o, t)
      → Settles amend visited r e es s (sourced store engine detail user amend e.to_id r o t)
  unfolding sourced
  sourced-Settles amend visited r e es s t (err x) q g = (
    _,
    _,
    refl,
    λ r' u os f n. ((passed_over, e.to_id), missing x q g f, skip-Names e.to_id r r' os n),
  )
  sourced-Settles amend visited r e es s t (ok ep) q g =
      reweighed-Settles amend visited r e es s t _ ep _ q g refl

  trace-Accounts :
      (amend : EpisodicMemory W → W → Action S Done) (visited : List Uuid)
      (r : ReconsolidationResult W) (es : List (Edge W)) (s : S)
      → Accounts amend visited r es s (trace store engine detail user amend visited r es s)
  unfolding trace
  trace-Accounts amend visited r [] s = (r, s, [], refl, done, no-Names r)
  trace-Accounts amend visited r (e ∷ es) s = elim (Bool-cases (any (λ v. v == e.to_id) visited)) [
    | inl q ↦
        let (r', t, os, run, f, n) =
          trace-Accounts amend (e.to_id ∷ visited) (skip e.to_id r) es s in
        (r', t, (passed_over, e.to_id) ∷ os, rw q run, met q f, skip-Names e.to_id r r' os n)
    | inr q ↦
        let (r₁, t, step, settle) =
          sourced-Settles amend visited r e es s (store.get_episodic e.to_id s).1
            (store.get_episodic e.to_id s).0 q refl in
        let (r', u, os, run, f, n) = trace-Accounts amend (e.to_id ∷ visited) r₁ es t in
        let (o, f', n') = settle r' u os f n in (r', u, o ∷ os, rw (q, step) run, f', n')
  ]

  -- Once the edges are read, a correction of a rule with at least one hop succeeds. It goes through the
  -- sources in the order of the edges: one that it has met, or that the store does not have, is passed
  -- over; one whose boosted weight the store refuses is not amended; and each of the others is raised and
  -- amended. The three lists of the result name exactly the memories of these outcomes, in that order.
  pub process_semantic-accounts :
      (id : Uuid) (edges : List (Edge W)) (s t : S)
      → store.get_edges id "DERIVED_FROM" "outgoing" s ≡ (ok edges, t)
      → positive engine.max_traceback_hops ≡ true
      → (r : ReconsolidationResult W) × (u : S) × (os : List (Outcome × Uuid)) × (process_semantic
            store engine detail user id s
          ≡ (ok r, u))
        × Follows store engine (amend_semantic store engine detail user) (id ∷ []) edges os t u
        × (r.updated_ids ≡ ids raised os)
        × (r.skipped_ids ≡ ids passed_over os)
        × (r.failed_ids ≡ ids refused os)
  unfolding process_semantic traced ids
  process_semantic-accounts id [] s t e h = (no_result id, t, [], rw e refl, done, refl, refl, refl)
  process_semantic-accounts id (x ∷ es) s t e h =
      let (r, u, os, run, f, n) =
        trace-Accounts (amend_semantic store engine detail user) (id ∷ []) (no_result id) (x ∷ es)
          t in
      (r, u, os, rw (e, h) run, f, n.updates, n.skips, n.fails)
