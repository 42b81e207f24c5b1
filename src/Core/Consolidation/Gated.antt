-- ===== src/Core/Consolidation/Gated.antt =====
-- The rule line of internal/core/consolidation_engine.go on the in-memory store: the gate of the
-- backtest, and the edges of a rule.
use mathlib.Core.Path.{subst}
use vatbrain.Prelude.{
  In-append_left, length-map, ℕ, ◌+◌, ◌≤◌, ◌≡◌, refl, sym, ◌⊎◌, inl, inr, Bool-cases, true, false,
  leb, List, [], ◌∷◌, Option, some, length, All, nat_eq, arith,
}
use vatbrain.Prelude.Dict.{lookup, insert, lookup-insert_inv}
use vatbrain.Prelude.Text.{Text}
use vatbrain.Float.{Float64}
use vatbrain.Models.Common.{Uuid, Time}
use vatbrain.Models.Semantic.{SemanticMemory}
use vatbrain.Store.Memory.Backend.{memory_store}
use vatbrain.Store.Memory.State.{Store}
use vatbrain.Core.Consolidation.{ConsolidationEngine, RuleRun, rule_loop}
use vatbrain.Core.Consolidation.Reported.{
  HasEdges, with_edges, with_edges-HasEdges, persist_rule-runs, Keeps, Keeps-trans, HasEdges-Keeps,
}
use vatbrain.Core.Consolidation.Rules.{
  PatternCluster, extract_rule, backtest, running_average, rule_memory,
}

module _ {W : Type 0} ⦃d : Float64 W⦄ (run : Uuid) (stamp : Uuid → Uuid → Time)
    (engine : ConsolidationEngine W) where
  -- The rule has passed the gate of the backtest, comes from a cluster that is large enough, names
  -- its run, and has an edge to each of its sources.
  abbrev pub IsTraced : Store W → SemanticMemory W → Type 0
  IsTraced t m =
      (d.lt m.backtest_accuracy engine.accuracy_threshold ≡ false)
      × (leb engine.min_cluster_size (length m.source_episodic_ids) ≡ true)
      × (m.consolidation_run_id ≡ some run)
      × HasEdges run stamp t m.id m.source_episodic_ids

  abbrev pub RulesTraced : Store W → Store W → Type 0
  RulesTraced s t =
      (id : Uuid) (m : SemanticMemory W)
      → lookup id t.semantics ≡ some m
      → (lookup id s.semantics ≡ some m) ⊎ IsTraced t m

  module _ (scan : Text → Option W) (fresh : ℕ → Uuid) (clock : ℕ → Time)
      (emb : Option (Text → Option (List W))) where
    abbrev loop : List (PatternCluster W) → RuleRun W → Store W → RuleRun W × Store W
    loop = rule_loop memory_store run stamp engine scan fresh clock emb

    abbrev IsDone : RuleRun W → Store W → ℕ → RuleRun W → Store W → Type 0
    IsDone r s n r' t =
        (r'.error ≡ r.error)
        × (r'.rules_persisted ≤ r.rules_persisted + n)
        × Keeps run stamp s t
        × (t.pitfalls ≡ s.pitfalls)
        × RulesTraced s t

    pub rule_loop-traces :
        (cls : List (PatternCluster W)) (r : RuleRun W) (s : Store W)
        → All
            (λ (c : PatternCluster W). leb engine.min_cluster_size (length c.episodics) ≡ true)
            cls
        → let (r', t) = loop cls r s in IsDone r s (length cls) r' t
    unfolding rule_loop rule_memory
    rule_loop-traces [] r s a =
        (refl, omega arith, record { memories = refl; edges = λ e i. i }, refl, λ id m e. inl e)
    rule_loop-traces (cl ∷ cls) r s (large, a) =
        let n = r.rules_persisted in
        let accuracy = backtest scan engine.llm_client emb cl in
        let m =
          rule_memory run (fresh n) (clock n) cl (extract_rule engine.llm_client cl) accuracy in
        elim (Bool-cases (d.lt accuracy engine.accuracy_threshold)) [
          | inl low ↦
              let (e, b, k, same, old) = rule_loop-traces cls r s a in
              rw (low, rule_loop) (e, omega (arith, b), k, same, old)
          | inr high ↦
              let s₀ = record s { semantics = insert m.id m s.semantics } in
              let s₁ = with_edges run stamp s₀ m.id m.source_episodic_ids in
              let r₁ = record r {
                rules_persisted = n + 1;
                average_accuracy = running_average r.average_accuracy (n + 1) accuracy;
              } in
              let (e, b, k, same, old) = rule_loop-traces cls r₁ s₁ a in
              let t = (loop cls r₁ s₁).1 in
              let k₁ : Keeps run stamp s s₁ = record {
                memories = refl;
                edges = λ x i. In-append_left x s.edges _ i;
              } in
              let enough =
                subst (λ x. leb engine.min_cluster_size x ≡ true) (sym (length-map _ cl.episodics))
                  large in
              rw (high, rule_loop, persist_rule-runs run stamp m s)
                (
                  e,
                  omega (arith, b),
                  Keeps-trans run stamp s s₁ t k₁ k,
                  same,
                  λ id q l. elim (old id q l) [
                    | inr h ↦ inr h
                    | inl l₁ ↦ elim (lookup-insert_inv m.id id m s.semantics l₁) [
                      | inr h ↦ inl h
                      | inl (_, m≡q) ↦ inr (
                          subst (IsTraced t) m≡q (
                            high,
                            enough,
                            refl,
                            HasEdges-Keeps run stamp s₁ t m.id m.source_episodic_ids k
                                (with_edges-HasEdges run stamp m.id m.source_episodic_ids s₀),
                          ))
                    ]
                  ],
                )
        ]
