-- ===== src/Store/Memory/State.antt =====
-- The `Store` record of internal/store/memory/memory_store.go, and the step that its methods share:
-- find an element by id, or fail, and write it back changed.
use vatbrain.Prelude.{Option, none, some, List, [], nat_eq}
use vatbrain.Prelude.Dict.{Dict, empty, lookup, insert}
use vatbrain.Prelude.Result.{Result, Action, ok, err, not_found, Done}
use vatbrain.Models.Common.{Uuid}
use vatbrain.Models.Episodic.{EpisodicMemory}
use vatbrain.Models.Semantic.{SemanticMemory}
use vatbrain.Models.Pitfall.{PitfallMemory}
use vatbrain.Models.Conflict.{RuleConflict}
use vatbrain.Store.{Edge}

-- The lists of pitfall edges and of consolidation runs, which no engine reads, are left out.
pub record Store (W : Type 0) : Type 0 where
  pub episodics : Dict Uuid (EpisodicMemory W)
  pub semantics : Dict Uuid (SemanticMemory W)
  pub pitfalls : Dict Uuid (PitfallMemory W)
  pub edges : List (Edge W)
  pub rule_conflicts : Dict Uuid RuleConflict

-- `NewStore`
abbrev pub new_store : {W : Type 0} → Store W
new_store = record {
  episodics = empty;
  semantics = empty;
  pitfalls = empty;
  edges = [];
  rule_conflicts = empty;
}

-- `v, ok := m[id]; if !ok { return not found }`, and the change of the element in place.
abbrev pub changed : {V : Type 0} → Uuid → (V → V) → Option V → Dict Uuid V → Result (Dict Uuid V)
changed id f none m = err not_found
changed id f (some v) m = ok (insert id (f v) m)

abbrev pub found : {V : Type 0} → Option V → Result V
found none = err not_found
found (some v) = ok v

module _ {W : Type 0} where
  abbrev pub keep_episodics :
      Store W → Result (Dict Uuid (EpisodicMemory W)) → Result Done × Store W
  keep_episodics s (ok m) = (ok tt, record s { episodics = m })
  keep_episodics s (err e) = (err e, s)

  abbrev pub keep_semantics :
      Store W → Result (Dict Uuid (SemanticMemory W)) → Result Done × Store W
  keep_semantics s (ok m) = (ok tt, record s { semantics = m })
  keep_semantics s (err e) = (err e, s)

  abbrev pub keep_pitfalls : Store W → Result (Dict Uuid (PitfallMemory W)) → Result Done × Store W
  keep_pitfalls s (ok m) = (ok tt, record s { pitfalls = m })
  keep_pitfalls s (err e) = (err e, s)

  abbrev pub keep_conflicts : Store W → Result (Dict Uuid RuleConflict) → Result Done × Store W
  keep_conflicts s (ok m) = (ok tt, record s { rule_conflicts = m })
  keep_conflicts s (err e) = (err e, s)

  abbrev pub change_episodic : Uuid → (EpisodicMemory W → EpisodicMemory W) → Action (Store W) Done
  change_episodic id f s = keep_episodics s (changed id f (lookup id s.episodics) s.episodics)

  abbrev pub change_semantic : Uuid → (SemanticMemory W → SemanticMemory W) → Action (Store W) Done
  change_semantic id f s = keep_semantics s (changed id f (lookup id s.semantics) s.semantics)

  abbrev pub change_pitfall : Uuid → (PitfallMemory W → PitfallMemory W) → Action (Store W) Done
  change_pitfall id f s = keep_pitfalls s (changed id f (lookup id s.pitfalls) s.pitfalls)

  abbrev pub change_conflict : Uuid → (RuleConflict → RuleConflict) → Action (Store W) Done
  change_conflict id f s =
      keep_conflicts s (changed id f (lookup id s.rule_conflicts) s.rule_conflicts)
