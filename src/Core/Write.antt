-- ===== src/Core/Write.antt =====
-- internal/core/write_pipeline.go: from an event to a stored memory. The store is a parameter, so it
-- is never nil; `now` is the reading of the clock that the code takes once, `fresh` the new
-- identifier, and `clock` the readings of the links.
pub mod Steps
pub mod Linked
pub mod Remembered
pub mod Accepted
use vatbrain.Prelude.{
  ℕ, Bool, true, false, not, ◌&&◌, ◌||◌, String, Option, none, some, List, [], ◌∷◌, ◌++◌, any, map,
  nat_eq, string_eq, ◌==◌, if◌then◌else◌,
}
use vatbrain.Prelude.Int.{pos}
use vatbrain.Prelude.Result.{
  Action, Done, Error, Result, ok, err, pure, raise, not_configured, embed_failed, store_failed,
  ◌>>=◌, ◌>>◌, ◌>>!◌,
}
use vatbrain.Prelude.Text.{Text}
use vatbrain.Float.{Float64, zero_f}
use vatbrain.Float.Clamp.{clamp01}
use vatbrain.Models.Common.{
  Uuid, Time, TaskType, SourceType, MergeAction, is_zero, before, default_trust_level,
}
use vatbrain.Models.Episodic.{EpisodicMemory, effective_occurred_at}
use vatbrain.Store.{MemoryStore, EpisodicSearchRequest}
use vatbrain.Store.WorkingMemory.{WorkingMemoryBuffer, push_cycle, get_cycles}
use vatbrain.Vector.{is_empty, cosine_similarity}
use vatbrain.Core.Decay.{WeightDecayEngine, compute_full}
use vatbrain.Core.Gate.{SignificanceGate, GateResult, WriteEvent, WorkingMemoryCycle, evaluate}
use vatbrain.Core.Link.{link_on_write}
use vatbrain.Core.Separation.{SeparationContext, check_separation}
use vatbrain.Core.Surprise.{SurpriseScorer, surprise_score}
use vatbrain.Core.Update.{
  UpdatePair, UpdateTracker, default_update_tracker, detect_update, apply_update,
}

-- `none` is a nil component. The threshold stands for the pattern separation, which holds no more.
pub record WriteDeps (W : Type 0) : Type 0 where
  pub gate : Option (SignificanceGate W)
  pub pattern_sep : Option W
  pub weight_decay : Option (WeightDecayEngine W)
  pub embedder : Text → Option (List W)
  pub surprise : Option (SurpriseScorer W)
  pub skip_link_on_write : Bool
  pub update_tracker : Option (UpdateTracker W)

pub record WriteResult (W : Type 0) : Type 0 where
  pub memory_id : Uuid
  pub persisted : Bool
  pub gate_reason : String
  pub merge_action : Option MergeAction
  pub weight : W

pub record PreparedWrite (W : Type 0) : Type 0 where
  pub gate : GateResult
  pub surprise : W
  pub threshold : W
  pub decay : WeightDecayEngine W

-- What the pipeline changes: the store, and the working memory if there is one.
pub record Pipeline (S : Type 0) : Type 0 where
  pub store : S
  pub working_mem : Option WorkingMemoryBuffer

abbrev pub on_store : {S A : Type 0} → Action S A → Action (Pipeline S) A
on_store m p = let (r, s) = m p.store in (r, record p { store = s })

abbrev wrap_result : {A : Type 0} → Error → Result A → Result A
wrap_result e (ok a) = ok a
wrap_result e (err f) = err e

-- `fmt.Errorf("%w: %v", e, err)`
abbrev pub wrapped : {S A : Type 0} → Error → Action S A → Action S A
wrapped e m s = let (r, t) = m s in (wrap_result e r, t)

cycles_of : String → Option WorkingMemoryBuffer → List WorkingMemoryCycle
cycles_of project none = []
cycles_of project (some w) = map (λ s. record { summary = s }) (get_cycles project w)

unfoldable pub pushed : String → Text → Option WorkingMemoryBuffer → Option WorkingMemoryBuffer
pushed project summary none = none
pushed project summary (some w) = some (push_cycle project summary w)

module _ {W : Type 0} ⦃d : Float64 W⦄ where
  -- `prepareWriteEvent`
  unfoldable pub prepare_write_event :
      WriteDeps W → WriteEvent → String → Option WorkingMemoryBuffer → Result (PreparedWrite W)
  unfolding cycles_of
  prepare_write_event deps event project w = elim deps.gate [
    | none ↦ err not_configured
    | some g ↦ elim deps.pattern_sep [
      | none ↦ err not_configured
      | some threshold ↦ elim deps.weight_decay [
        | none ↦ err not_configured
        | some decay ↦ ok (record {
          gate = evaluate g event (cycles_of project w);
          surprise = surprise_score deps.surprise event;
          threshold = threshold;
          decay = decay;
        })
      ]
    ]
  ]

  unfoldable pub tracker_or_default : Option (UpdateTracker W) → UpdateTracker W
  tracker_or_default none = default_update_tracker
  tracker_or_default (some t) = t

  -- the memory that the event would become, for the judgement of what it covers
  unfoldable pub draft : WriteEvent → String → Time → EpisodicMemory W
  draft event entity now = record {
    id = 0;
    project_id = "";
    language = "";
    task_type = "";
    summary = event.summary;
    source_type = SourceType.other "";
    trust_level = 0;
    weight = zero_f;
    effective_frequency = zero_f;
    created_at = now;
    last_accessed_at = none;
    obsoleted_at = none;
    entity_group = entity;
    embedding_id = "";
    context_vector = [];
    full_snapshot_uri = "";
    is_correction = false;
    surprise_score = zero_f;
    occurred_at = event.occurred_at;
  }

  -- The `continue` tests of the loop over the candidates.
  unfoldable pub unmergeable :
      W → List W → SeparationContext → List (UpdatePair W) → EpisodicMemory W → Bool
  unmergeable threshold embedding ctx covered c =
      any (λ (p : UpdatePair W). p.old_id == c.id) covered
      || is_empty c.context_vector
      || not
          (check_separation threshold embedding c.context_vector ctx (record {
            project_id = c.project_id;
            language = c.language;
            entity_id = c.entity_group;
          })).should_merge

  -- The existing memory with the event appended.
  unfoldable pub merged :
      WriteEvent → W → List W → EpisodicMemory W → Time → EpisodicMemory W → EpisodicMemory W
  merged event surprise embedding candidate now existing = record existing {
    summary = existing.summary ++ 10 ∷ event.summary;
    weight = clamp01 (d.add (cosine_similarity embedding candidate.context_vector) (d.ratio 1 10));
    last_accessed_at = some now;
    occurred_at =
        if not (is_zero event.occurred_at)
          && before event.occurred_at (effective_occurred_at existing)
        then event.occurred_at
        else existing.occurred_at;
    is_correction = event.is_correction || existing.is_correction;
    surprise_score =
        if d.lt existing.surprise_score surprise then surprise else existing.surprise_score;
  }

  unfoldable pub new_memory :
      Uuid
      → WriteEvent
      → PreparedWrite W
      → List W
      → String
      → String
      → String
      → TaskType
      → Time
      → EpisodicMemory W
  new_memory id event prepared embedding project language entity task now =
      let (freq, weight) = compute_full prepared.decay (now ∷ []) now now in
      record {
        id = id;
        project_id = project;
        language = language;
        task_type = task;
        summary = event.summary;
        source_type = SourceType.llm;
        trust_level = default_trust_level;
        weight = weight;
        effective_frequency = freq;
        created_at = now;
        last_accessed_at = none;
        obsoleted_at = none;
        entity_group = entity;
        embedding_id = "";
        context_vector = embedding;
        full_snapshot_uri = "";
        is_correction = event.is_correction;
        surprise_score = prepared.surprise;
        occurred_at = if is_zero event.occurred_at then now else event.occurred_at;
      }

  unfoldable pub candidates_request : String → List W → EpisodicSearchRequest W
  candidates_request project embedding = record {
    project_id = project;
    language = "";
    task_type = "";
    min_weight = zero_f;
    limit = pos 5;
    include_obsolete = false;
    embedding = some embedding;
    surprise_boost = zero_f;
    occurred_after = 0;
    occurred_before = 0;
    sort_by_occurred_at = false;
    query = [];
    rrf_k = pos 0;
  }
