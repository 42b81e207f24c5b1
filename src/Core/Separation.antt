-- ===== src/Core/Separation.antt =====
-- internal/core/pattern_separation.go: whether a new memory merges with a candidate.
use vatbrain.Prelude.{
  Bool, ◌≡◌, ◌↔◌, true, false, String, List, string_eq, ◌!=◌, if◌then◌else◌, arith,
}
use vatbrain.Float.{Float64}
use vatbrain.Vector.{cosine_similarity}

pub record SeparationContext : Type 0 where
  pub project_id : String
  pub language : String
  pub entity_id : String

pub record SeparationResult : Type 0 where
  pub should_merge : Bool
  pub reason : String

module _ {W : Type 0} ⦃d : Float64 W⦄ where
  -- `Check`, with the threshold of the receiver.
  unfoldable pub check_separation :
      W → List W → List W → SeparationContext → SeparationContext → SeparationResult
  check_separation threshold new candidate new_ctx ctx =
      if d.lt (cosine_similarity new candidate) threshold
      then record { should_merge = false; reason = "below_similarity_threshold" }
      else if new_ctx.project_id != ctx.project_id
      then record { should_merge = false; reason = "different_project" }
      else if new_ctx.language != ctx.language
      then record { should_merge = false; reason = "different_language" }
      else if new_ctx.entity_id != ctx.entity_id
      then record { should_merge = false; reason = "different_entity" }
      else record { should_merge = true; reason = "same_entity_same_context" }

  -- Two memories merge exactly if their similarity is not below the threshold and they agree on the
  -- project, the language and the entity.
  pub merges_iff :
      (threshold : W) (new candidate : List W) (new_ctx ctx : SeparationContext)
      → ((check_separation threshold new candidate new_ctx ctx).should_merge ≡ true) ↔ (
          (d.lt (cosine_similarity new candidate) threshold ≡ false)
          × (new_ctx.project_id ≡ ctx.project_id)
          × (new_ctx.language ≡ ctx.language)
          × (new_ctx.entity_id ≡ ctx.entity_id))
  unfolding check_separation
  merges_iff threshold new candidate a b = ground (
    arith,
    string_eq.beq_iff a.project_id b.project_id,
    string_eq.beq_iff a.language b.language,
    string_eq.beq_iff a.entity_id b.entity_id,
  )
