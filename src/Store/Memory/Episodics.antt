-- ===== src/Store/Memory/Episodics.antt =====
-- Episodic and semantic records of internal/store/memory/memory_store.go. Reads and writes copy the
-- record, so no caller shares one with the store.
use vatbrain.Prelude.{
  ℕ, String, List, [], ◌∷◌, some, length, nat_eq, string_eq, ◌==◌, if◌then◌else◌,
}
use vatbrain.Prelude.Dict.{Dict, lookup, insert, delete}
use vatbrain.Prelude.Result.{Action, ok, Done}
use vatbrain.Models.Common.{Uuid, Time}
use vatbrain.Models.Episodic.{EpisodicMemory}
use vatbrain.Models.Semantic.{SemanticMemory}
use vatbrain.Store.Memory.State.{Store, found, change_episodic, change_semantic}

module _ {W : Type 0} where
  unfoldable pub write_episodic : EpisodicMemory W → Action (Store W) Done
  write_episodic m s = (ok tt, record s { episodics = insert m.id m s.episodics })

  unfoldable pub get_episodic : Uuid → Action (Store W) (EpisodicMemory W)
  get_episodic id s = (found (lookup id s.episodics), s)

  unfoldable pub touch_episodic : Uuid → Time → Action (Store W) Done
  touch_episodic id now = change_episodic id (λ m. record m { last_accessed_at = some now })

  unfoldable pub update_episodic_weight : Uuid → W → W → Action (Store W) Done
  update_episodic_weight id weight freq =
      change_episodic id (λ m. record m { weight = weight; effective_frequency = freq })

  unfoldable pub mark_obsolete : Uuid → Time → Action (Store W) Done
  mark_obsolete id at = change_episodic id (λ m. record m { obsoleted_at = some at })

  -- the keys that the loop of `DeleteEpisodicByProject` deletes
  keys_in_project : String → List (Uuid × EpisodicMemory W) → List Uuid
  keys_in_project project [] = []
  keys_in_project project ((id, m) ∷ l) =
      let rest = keys_in_project project l in if m.project_id == project then id ∷ rest else rest

  delete_all : List Uuid → Dict Uuid (EpisodicMemory W) → Dict Uuid (EpisodicMemory W)
  delete_all [] d = d
  delete_all (id ∷ ids) d = delete_all ids (delete id d)

  -- Deleting while ranging visits each key once, so the keys are collected first.
  unfoldable pub delete_episodic_by_project : String → Action (Store W) ℕ
  unfolding keys_in_project delete_all
  delete_episodic_by_project project s =
      let ids = keys_in_project project s.episodics.entries in
      (ok (length ids), record s { episodics = delete_all ids s.episodics })

  unfoldable pub write_semantic : SemanticMemory W → Action (Store W) Done
  write_semantic m s = (ok tt, record s { semantics = insert m.id m s.semantics })

  unfoldable pub get_semantic : Uuid → Action (Store W) (SemanticMemory W)
  get_semantic id s = (found (lookup id s.semantics), s)

  unfoldable pub update_semantic_weight : Uuid → W → W → Action (Store W) Done
  update_semantic_weight id weight freq =
      change_semantic id (λ m. record m { weight = weight; effective_frequency = freq })

  unfoldable pub mark_semantic_obsolete : Uuid → Time → Action (Store W) Done
  mark_semantic_obsolete id at = change_semantic id (λ m. record m { obsoleted_at = some at })
