-- ===== src/Core/Consolidation/Reported.antt =====
-- The lines of internal/core/consolidation_engine.go on the in-memory store.
use mathlib.Core.List.{append_assoc, append-nil}
use mathlib.Core.Path.{subst}
use vatbrain.Prelude.{
  In-append_left, In-append_right, In-map, ◌+◌, ◌≡◌, refl, ap, ◌∙◌, ◌⊎◌, inl, inr, List, [], ◌∷◌,
  ◌++◌, some, length, map, All, All-imp, In, In-All, nat_eq, arith,
}
use vatbrain.Prelude.Dict.{lookup, insert, lookup-insert_inv}
use vatbrain.Prelude.Result.{ok}
use vatbrain.Float.{Float64}
use vatbrain.Models.Common.{Uuid, Time}
use vatbrain.Models.Pitfall.{PitfallMemory}
use vatbrain.Models.Semantic.{SemanticMemory}
use vatbrain.Store.{Edge, Property}
use vatbrain.Store.Memory.Backend.{memory_store}
use vatbrain.Store.Memory.Edges.{create_edge}
use vatbrain.Store.Memory.Episodics.{write_semantic}
use vatbrain.Store.Memory.Pitfalls.{write_pitfall}
use vatbrain.Store.Memory.State.{Store}
use vatbrain.Core.Consolidation.{
  PitfallRun, derived_edges, persist_rule, persist_pitfall, pitfall_loop,
}

module _ {W : Type 0} ⦃d : Float64 W⦄ (run : Uuid) (stamp : Uuid → Uuid → Time) where
  -- the edge from a rule or a pitfall to a memory that it is derived from
  abbrev pub derived_from : Uuid → Uuid → Edge W
  derived_from id source = record {
    from_id = id;
    to_id = source;
    edge_type = "DERIVED_FROM";
    properties = ("run_id", Property.uuid run) ∷ [];
    created_at = stamp id source;
  }

  -- Every source has its edge.
  abbrev pub HasEdges : Store W → Uuid → List Uuid → Type 0
  HasEdges t id sources = All (λ source. In (derived_from id source) t.edges) sources

  abbrev pub with_edges : Store W → Uuid → List Uuid → Store W
  with_edges s id sources = record s { edges = s.edges ++ map (derived_from id) sources }

  derived_edges-runs :
      (id : Uuid) (sources : List Uuid) (s : Store W)
      → derived_edges memory_store run stamp id sources s ≡ (ok tt, with_edges s id sources)
  unfolding derived_edges create_edge
  derived_edges-runs id [] s = rw append-nil refl
  derived_edges-runs id (source ∷ sources) s =
      derived_edges-runs id sources (record s { edges = s.edges ++ derived_from id source ∷ [] })
      ∙ ap (λ l. (ok tt, record s { edges = l }))
          (append_assoc s.edges (derived_from id source ∷ []) (map (derived_from id) sources))

  pub with_edges-HasEdges :
      (id : Uuid) (sources : List Uuid) (s : Store W)
      → HasEdges (with_edges s id sources) id sources
  with_edges-HasEdges id sources s =
      In-All _ sources
        (λ source i. In-append_right _ s.edges _ (In-map (derived_from id) source sources i))

  pub persist_rule-runs :
      (sem : SemanticMemory W) (s : Store W)
      → persist_rule memory_store run stamp sem s ≡ (
        ok tt,
        with_edges
            (record s { semantics = insert sem.id sem s.semantics })
            sem.id
            sem.source_episodic_ids,
      )
  unfolding persist_rule write_semantic
  persist_rule-runs sem s =
      derived_edges-runs sem.id sem.source_episodic_ids
        (record s { semantics = insert sem.id sem s.semantics })

  persist_pitfall-runs :
      (p : PitfallMemory W) (s : Store W)
      → persist_pitfall memory_store run stamp p s ≡ (
        ok tt,
        with_edges (record s { pitfalls = insert p.id p s.pitfalls }) p.id p.source_episodic_ids,
      )
  unfolding persist_pitfall write_pitfall
  persist_pitfall-runs p s =
      derived_edges-runs p.id p.source_episodic_ids
        (record s { pitfalls = insert p.id p s.pitfalls })

  -- What a line keeps: the memories, and every edge.
  pub record Keeps (s t : Store W) : Type 0 where
    pub memories : t.episodics ≡ s.episodics
    pub edges : (e : Edge W) → In e s.edges → In e t.edges

  pub Keeps-trans : (s t u : Store W) → Keeps s t → Keeps t u → Keeps s u
  Keeps-trans s t u h k = record {
    memories = k.memories ∙ h.memories;
    edges = λ e i. k.edges e (h.edges e i);
  }

  pub HasEdges-Keeps :
      (s t : Store W) (id : Uuid) (sources : List Uuid)
      → Keeps s t
      → HasEdges s id sources
      → HasEdges t id sources
  HasEdges-Keeps s t id sources k h =
      All-imp {P = λ x. In (derived_from id x) s.edges} {Q = λ x. In (derived_from id x) t.edges}
        (λ x i. k.edges (derived_from id x) i) sources h

  -- The pitfalls of `t` are those of `s`, or have an edge to each of their sources.
  abbrev pub PitfallsTraced : Store W → Store W → Type 0
  PitfallsTraced s t =
      (id : Uuid) (p : PitfallMemory W)
      → lookup id t.pitfalls ≡ some p
      → (lookup id s.pitfalls ≡ some p) ⊎ HasEdges t p.id p.source_episodic_ids

  pub pitfall_loop-traces :
      (ps : List (PitfallMemory W)) (r : PitfallRun) (s : Store W)
      → let (r', t) = pitfall_loop memory_store run stamp ps r s in
        (r'.error ≡ r.error)
        × (r'.pitfalls_persisted ≡ r.pitfalls_persisted + length ps)
        × Keeps s t
        × (t.semantics ≡ s.semantics)
        × PitfallsTraced s t
  unfolding pitfall_loop
  pitfall_loop-traces [] r s =
      (refl, omega arith, record { memories = refl; edges = λ e i. i }, refl, λ id p e. inl e)
  pitfall_loop-traces (p ∷ ps) r s =
      let s₁ =
        with_edges (record s { pitfalls = insert p.id p s.pitfalls }) p.id p.source_episodic_ids in
      let r₁ = record r { pitfalls_persisted = r.pitfalls_persisted + 1 } in
      let (e, n, k, same, old) = pitfall_loop-traces ps r₁ s₁ in
      let t = (pitfall_loop memory_store run stamp ps r₁ s₁).1 in
      let k₁ : Keeps s s₁ = record {
        memories = refl;
        edges = λ x i. In-append_left x s.edges _ i;
      } in
      rw (persist_pitfall-runs p s) (
        e,
        omega (arith, n),
        Keeps-trans s s₁ t k₁ k,
        same,
        λ id q l. elim (old id q l) [
          | inr h ↦ inr h
          | inl l₁ ↦ elim (lookup-insert_inv p.id id p s.pitfalls l₁) [
            | inr h ↦ inl h
            | inl (_, p≡q) ↦ inr (
                subst (λ (x : PitfallMemory W). HasEdges t x.id x.source_episodic_ids) p≡q
                  (HasEdges-Keeps s₁ t p.id p.source_episodic_ids k (
                    with_edges-HasEdges p.id p.source_episodic_ids
                      (record s { pitfalls = insert p.id p s.pitfalls }))))
          ]
        ],
      )
