-- ===== src/Core/Write/Linked.antt =====
-- What linking on write in internal/core/link_on_write.go leaves alone.
use vatbrain.Prelude.{
  Option-cases, arith, ℕ, ◌≡◌, refl, ◌∙◌, Bool-cases, inl, inr, String, Option, List, [], ◌∷◌,
  nat_eq, ◌==◌, string_eq, ◌&&◌, ◌!=◌,
}
use vatbrain.Prelude.Text.{Text}
use vatbrain.Float.{Float64}
use vatbrain.Models.Common.{Uuid, Time, TaskType, task_debug}
use vatbrain.Models.Episodic.{EpisodicMemory}
use vatbrain.Models.Pitfall.{PitfallMemory}
use vatbrain.Store.Memory.Backend.{memory_store}
use vatbrain.Store.Memory.Edges.{create_edge}
use vatbrain.Store.Memory.Pitfalls.{touch_pitfall, search_pitfall_by_entity}
use vatbrain.Store.Memory.Search.{search_episodic}
use vatbrain.Store.Memory.State.{Store}
use vatbrain.Core.Link.{
  relate, relate_all, trigger_all, trigger, link_similarity, link_on_write, linked_to, triggered,
}

module _ {W : Type 0} ⦃d : Float64 W⦄ (embedder : Option (Text → Option (List W)))
    (clock : ℕ → Time) where
  touch-episodics :
      (id : Uuid) (now : Time) (s : Store W) → (touch_pitfall id now s).1.episodics ≡ s.episodics
  unfolding touch_pitfall
  touch-episodics id now s = ground arith

  relate_all-episodics :
      (memory : Uuid) (summary : Text) (rs : List (EpisodicMemory W)) (s : Store W)
      → (relate_all memory_store embedder clock memory summary rs s).1.episodics ≡ s.episodics
  unfolding relate_all relate create_edge
  relate_all-episodics memory summary [] s = refl
  relate_all-episodics memory summary (r ∷ rs) s = elim (Bool-cases (r.id == memory)) [
    | inl e ↦ rw e (relate_all-episodics memory summary rs s)
    | inr e ↦ elim (Option-cases (link_similarity embedder summary r.summary)) [
      | inl n ↦ rw (e, n) (relate_all-episodics memory summary rs s)
      | inr (x, n) ↦ rw (e, n) (relate_all-episodics memory summary rs _)
    ]
  ]

  trigger_all-episodics :
      (memory : Uuid) (ps : List (PitfallMemory W)) (s : Store W)
      → (trigger_all memory_store embedder clock memory ps s).1.episodics ≡ s.episodics
  unfolding trigger_all trigger create_edge
  trigger_all-episodics memory [] s = refl
  trigger_all-episodics memory (p ∷ ps) s =
      trigger_all-episodics memory ps _ ∙ touch-episodics p.id (clock 2) _

  -- Linking a memory changes no memory.
  pub link_on_write-episodics :
      (memory : Uuid) (summary : Text) (project entity : String) (task : TaskType) (s : Store W)
      → (link_on_write memory_store embedder clock memory summary project entity task s).1.episodics
        ≡ s.episodics
  unfolding link_on_write linked_to triggered search_episodic search_pitfall_by_entity
  link_on_write-episodics memory summary project entity task s =
      elim (Bool-cases (task == task_debug && entity != "")) [
        | inl e ↦ rw e (trigger_all-episodics memory _ _ ∙ relate_all-episodics memory summary _ s)
        | inr e ↦ rw e (relate_all-episodics memory summary _ s)
      ]
