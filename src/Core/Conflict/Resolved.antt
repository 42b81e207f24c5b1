-- ===== src/Core/Conflict/Resolved.antt =====
-- What internal/core/conflict.go does to the in-memory store when it resolves a conflict.
use vatbrain.Prelude.{
  ℕ, ◌<◌, ◌≡◌, ◌≢◌, refl, true, false, some, [], ◌∷◌, ◌++◌, ltb, nat_eq, ◌==◌, arith,
}
use vatbrain.Prelude.Dict.{lookup, insert, lookup-insert}
use vatbrain.Prelude.Result.{ok}
use vatbrain.Prelude.Text.{Text}
use vatbrain.Float.{Float64}
use vatbrain.Models.Common.{Uuid, Time}
use vatbrain.Models.Conflict.{RuleConflict, ConflictStatus}
use vatbrain.Models.Semantic.{SemanticMemory}
use vatbrain.Store.{Property}
use vatbrain.Store.Memory.Backend.{memory_store, memory_conflicts}
use vatbrain.Store.Memory.Conflicts.{resolve_rule_conflict}
use vatbrain.Store.Memory.Edges.{create_edge}
use vatbrain.Store.Memory.Episodics.{mark_semantic_obsolete}
use vatbrain.Store.Memory.State.{Store}
use vatbrain.Core.Conflict.{resolve, retire_loser}

module _ {W : Type 0} ⦃d : Float64 W⦄ (verdict : ℕ → ℕ → Text) where
  -- the store after the loser was retired
  unfoldable pub retired :
      RuleConflict
      → RuleConflict
      → SemanticMemory W
      → SemanticMemory W
      → SemanticMemory W
      → Time
      → Store W
      → Store W
  retired conflict c winner loser l now s = record s {
    semantics = insert loser.id (record l { obsoleted_at = some now }) s.semantics;
    edges =
        s.edges
        ++ record {
          from_id = winner.id;
          to_id = loser.id;
          edge_type = "CONFLICTS_WITH";
          properties = ("resolution", Property.text "winner") ∷ [];
          created_at = now;
        }
          ∷ [];
    rule_conflicts =
        insert conflict.id
          (record c {
            status = ConflictStatus.auto_resolved;
            resolution = some winner.id;
            reason = verdict winner.trust_level loser.trust_level;
            resolved_at = some now;
          })
          s.rule_conflicts;
  }

  pub retire_loser-retired :
      (conflict : RuleConflict) (winner loser : SemanticMemory W) (now : Time) (s : Store W)
      {l : SemanticMemory W} {c : RuleConflict}
      → lookup loser.id s.semantics ≡ some l
      → lookup conflict.id s.rule_conflicts ≡ some c
      → retire_loser memory_store verdict memory_conflicts conflict winner loser now s ≡ (
        ok (record {
          status = ConflictStatus.auto_resolved;
          winner_id = winner.id;
          loser_id = loser.id;
        }),
        retired conflict c winner loser l now s,
      )
  unfolding retire_loser mark_semantic_obsolete create_edge resolve_rule_conflict retired
  retire_loser-retired conflict winner loser now s e f = rw (e, f)

  -- In either order, of two stored rules of different trust the lower is retired, and no other rule
  -- is touched; the conflict is recorded as settled for the higher, and an edge leads to the retired
  -- rule.
  pub resolve_retires_lower :
      (conflict : RuleConflict) (winner loser : SemanticMemory W) (now : Time) (s : Store W)
      (other : Uuid) {l : SemanticMemory W} {c : RuleConflict}
      → loser.trust_level < winner.trust_level
      → lookup loser.id s.semantics ≡ some l
      → lookup conflict.id s.rule_conflicts ≡ some c
      → other ≢ loser.id
      → let settled =
          resolve memory_store verdict (some memory_conflicts) conflict winner loser now s in
        let t = settled.1 in
        (resolve memory_store verdict (some memory_conflicts) conflict loser winner now s ≡ settled)
        × (settled.0
            ≡ ok (record {
              status = ConflictStatus.auto_resolved;
              winner_id = winner.id;
              loser_id = loser.id;
            }))
        × (lookup loser.id t.semantics ≡ some (record l { obsoleted_at = some now }))
        × (lookup other t.semantics ≡ lookup other s.semantics)
        × (lookup conflict.id t.rule_conflicts
            ≡ some (record c {
              status = ConflictStatus.auto_resolved;
              resolution = some winner.id;
              reason = verdict winner.trust_level loser.trust_level;
              resolved_at = some now;
            }))
        × (t.edges
            ≡ s.edges
              ++ record {
                from_id = winner.id;
                to_id = loser.id;
                edge_type = "CONFLICTS_WITH";
                properties = ("resolution", Property.text "winner") ∷ [];
                created_at = now;
              }
                ∷ [])
  unfolding resolve retired
  resolve_retires_lower conflict winner loser now s other {l} {c} lt e f ne =
      let run = retire_loser-retired conflict winner loser now s e f in
      let e₁ : (winner.trust_level == loser.trust_level) ≡ false = ground arith in
      let e₂ : (loser.trust_level == winner.trust_level) ≡ false = ground arith in
      let e₃ : ltb winner.trust_level loser.trust_level ≡ false = ground arith in
      let e₄ : ltb loser.trust_level winner.trust_level ≡ true = ground arith in
      let self : (k : ℕ) → (k == k) ≡ true = λ k. ground arith in
      let apart : (loser.id == other) ≡ false = ground (arith, ne) in
      rw (e₁, e₂, e₃, e₄, run)
        (
          refl,
          refl,
          rw (lookup-insert, self loser.id),
          rw (lookup-insert, apart),
          rw (lookup-insert, self conflict.id),
          refl,
        )
