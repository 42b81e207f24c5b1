-- ===== src/Core/Link.antt =====
-- internal/core/link_on_write.go: edges from a new memory to what it is related to. Every step is
-- best-effort: an error is logged and dropped. `embedder` is `none` where the code has nil.
use vatbrain.Prelude.{
  ℕ, ◌+◌, ◌-◌, false, ◌&&◌, ◌||◌, String, Option, none, some, List, [], ◌∷◌, length, keep, any,
  nat_eq, string_eq, ◌==◌, ◌!=◌, if◌then◌else◌,
}
use vatbrain.Prelude.Int.{pos}
use vatbrain.Prelude.Result.{Action, Done, Result, ok, err, pure, ◌>>!◌}
use vatbrain.Prelude.Text.{Text, text_eq}
use vatbrain.Float.{Float64, zero_f}
use vatbrain.Models.Common.{Uuid, Time, TaskType, task_debug}
use vatbrain.Models.Episodic.{EpisodicMemory}
use vatbrain.Models.Pitfall.{PitfallMemory}
use vatbrain.Store.{MemoryStore, EpisodicSearchRequest, Property}
use vatbrain.Vector.{is_empty}
use vatbrain.Core.Gate.{tokenize, embedding_similarity}

module _ {W : Type 0} ⦃d : Float64 W⦄ where
  -- The quotient of the source is one division of whole numbers.
  unfoldable pub token_similarity : Text → Text → W
  token_similarity a b =
      let ta = tokenize a in
      let tb = tokenize b in
      let n = length (keep (λ t. any (λ u. u == t) tb) ta) in
      if is_empty ta || is_empty tb then zero_f else d.ratio n (length ta + length tb - n)

  over : W → W → Option W
  over threshold s = if d.le threshold s then some s else none

  by_embedding : Option W → Text → Text → Option W
  unfolding over
  by_embedding (some sim) a b = over (d.ratio 7 10) sim
  by_embedding none a b = over (d.ratio 15 100) (token_similarity a b)

  -- `linkSimilarity`: `none` where the code returns -1.
  unfoldable pub link_similarity : Option (Text → Option (List W)) → Text → Text → Option W
  unfolding by_embedding
  link_similarity none a b = by_embedding none a b
  link_similarity (some embed) a b = by_embedding (embedding_similarity embed a b) a b

module _ {W S : Type 0} ⦃d : Float64 W⦄ (store : MemoryStore W S)
    (embedder : Option (Text → Option (List W))) (clock : ℕ → Time) where
  unfoldable pub relate : Uuid → Uuid → Option W → Action S Done
  relate memory other none = pure tt
  relate memory other (some strength) =
      store.create_edge memory other "RELATES_TO"
        (("strength", Property.number strength)
          ∷ ("dimension", Property.text "SEMANTIC")
          ∷ ("created_at", Property.instant (clock 0))
          ∷ [])
        (clock 1)

  unfoldable pub relate_all : Uuid → Text → List (EpisodicMemory W) → Action S Done
  unfolding relate
  relate_all memory summary [] = pure tt
  relate_all memory summary (r ∷ rs) =
      (if r.id == memory
        then pure tt
        else relate memory r.id (link_similarity embedder summary r.summary))
      >>! relate_all memory summary rs

  unfoldable pub trigger : Uuid → Result Done → Action S Done
  trigger p (ok u) = store.touch_pitfall p (clock 2)
  trigger p (err e) = pure tt

  unfoldable pub trigger_all : Uuid → List (PitfallMemory W) → Action S Done
  unfolding trigger
  trigger_all memory [] = pure tt
  trigger_all memory (p ∷ ps) =
      (λ s.
        let (r, t) =
          store.create_edge memory p.id "TRIGGERED_PITFALL"
            (("similarity", Property.number zero_f) ∷ []) (clock 3) s in
        trigger p.id r t)
      >>! trigger_all memory ps

  unfoldable pub triggered : Uuid → Result (List (PitfallMemory W)) → Action S Done
  triggered memory (ok ps) = trigger_all memory ps
  triggered memory (err e) = pure tt

  unfoldable pub linked_to :
      Uuid → Text → Result (List (EpisodicMemory W)) → Action S Done → Action S Done
  linked_to memory summary (ok related) next = relate_all memory summary related >>! next
  linked_to memory summary (err e) next = pure tt

  candidates_request : String → EpisodicSearchRequest W
  candidates_request project = record {
    project_id = project;
    language = "";
    task_type = "";
    min_weight = zero_f;
    limit = pos 20;
    include_obsolete = false;
    embedding = none;
    surprise_boost = zero_f;
    occurred_after = 0;
    occurred_before = 0;
    sort_by_occurred_at = false;
    query = [];
    rrf_k = pos 0;
  }

  -- `LinkOnWrite`, which returns nothing.
  unfoldable pub link_on_write : Uuid → Text → String → String → TaskType → Action S Done
  unfolding triggered linked_to candidates_request
  link_on_write memory summary project entity task s =
      let pitfalls : Action S Done =
        λ t. let (r, u) = store.search_pitfall_by_entity entity project t in triggered memory r u in
      let (r, t) = store.search_episodic (candidates_request project) s in
      linked_to memory summary r (if task == task_debug && entity != "" then pitfalls else pure tt)
        t
