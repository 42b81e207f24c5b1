-- ===== src/Provider/Edit.antt =====
-- internal/provider/risk.go: what is to be known before an edit. The sizes of files are a parameter, as
-- are the clock and the times of the counters.
use vatbrain.Prelude.{ℕ, String, string_eq, ◌==◌, List, [], ◌∷◌, ◌++◌, Option, map, if◌then◌else◌}
use vatbrain.Prelude.Format.{trim_space, spaced}
use vatbrain.Prelude.Int.{pos}
use vatbrain.Prelude.Result.{Action, Result, Done, ok, err, pure, store_failed, ◌>>!◌}
use vatbrain.Prelude.Text.{Text, codes}
use vatbrain.Float.{Float64, of_nat}
use vatbrain.Models.Common.{Uuid, Time, TaskType, trust_level_max}
use vatbrain.Models.Episodic.{EpisodicMemory}
use vatbrain.Models.Pitfall.{PitfallMemory, PitfallStatus, normalize}
use vatbrain.Store.{MemoryStore}
use vatbrain.Core.Risk.{RiskRequest, RiskResult, compute_risk}
use vatbrain.Provider.Retrieve.{retrieve_episodic, retrieve_pitfalls}
use vatbrain.Provider.Server.{Server, session_for, with_session}

pub record PrepareEditContextParams : Type 0 where
  pub session_id : String
  pub files : List String
  pub task_type : TaskType
  pub language : String
  pub user_goal : Text
  pub project_id : String

pub record PitfallOut (W : Type 0) : Type 0 where
  pub pitfall_id : Uuid
  pub entity_id : String
  pub signature : Text
  pub root_cause_category : String
  pub fix_strategy : Text
  pub status : PitfallStatus
  pub confidence : W
  pub occurrence_count : ℕ

pub record MemoryOut : Type 0 where
  pub memory_id : Uuid
  pub summary : Text
  pub project_id : String
  pub language : String

pub record PrepareEditContextResult (W : Type 0) : Type 0 where
  pub risk_score : W
  pub reason_codes : List String
  pub pitfalls : List (PitfallOut W)
  pub memories : List MemoryOut

module _ {W : Type 0} ⦃d : Float64 W⦄ where
  unfoldable pub pitfall_out : PitfallMemory W → PitfallOut W
  pitfall_out p = record {
    pitfall_id = p.id;
    entity_id = p.entity_id;
    signature = p.signature;
    root_cause_category = p.root_cause_category;
    fix_strategy = p.fix_strategy;
    status = normalize p.status;
    confidence = d.div (of_nat p.trust_level) (of_nat trust_level_max);
    occurrence_count = p.occurrence_count;
  }

  unfoldable pub memory_out : EpisodicMemory W → MemoryOut
  memory_out m = record {
    memory_id = m.id;
    summary = m.summary;
    project_id = m.project_id;
    language = m.language;
  }

  unfoldable pub edit_context : RiskResult W → PrepareEditContextResult W
  unfolding pitfall_out memory_out
  edit_context risk = record {
    risk_score = risk.risk_score;
    reason_codes = risk.reason_codes;
    pitfalls = map pitfall_out risk.pitfalls;
    memories = map memory_out risk.episodes;
  }

module _ {W S : Type 0} ⦃d : Float64 W⦄ (store : MemoryStore W S) (embed : Text → Option (List W))
    (complexity : List String → W) (now : Time) where
  -- Each pitfall is counted as shown; an error is logged.
  unfoldable pub count_shown : List (PitfallMemory W) → Action S Done
  count_shown [] = pure tt
  count_shown (p ∷ ps) = store.add_pitfall_counters p.id (pos 1) (pos 0) now >>! count_shown ps

  edit_query : PrepareEditContextParams → Text
  edit_query p = trim_space (p.user_goal ++ 32 ∷ spaced (map codes p.files))

  risk_request : PrepareEditContextParams → String → RiskRequest W
  risk_request p project = record {
    files = p.files;
    entity_ids = [];
    project_id = project;
    language = p.language;
    task_type = p.task_type;
    user_goal = p.user_goal;
    complexity = complexity p.files;
  }

  -- what follows the two retrievals
  with_pitfalls :
      PrepareEditContextParams
      → String
      → List (EpisodicMemory W)
      → Result (List (PitfallMemory W)) × S
      → Result (PrepareEditContextResult W) × S
  unfolding risk_request count_shown edit_context
  with_pitfalls p project episodes (err e, s) = (err store_failed, s)
  with_pitfalls p project episodes (ok pitfalls, s) =
      let risk = compute_risk (risk_request p project) pitfalls episodes now in
      let (_, s') = count_shown risk.pitfalls s in (ok (edit_context risk), s')

  with_episodes :
      PrepareEditContextParams
      → String
      → Result (List (EpisodicMemory W)) × S
      → Result (PrepareEditContextResult W) × S
  unfolding with_pitfalls edit_query
  with_episodes p project (err e, s) = (err store_failed, s)
  with_episodes p project (ok episodes, s) =
      with_pitfalls p project episodes
        (retrieve_pitfalls store embed project (edit_query p) (pos 3) s)

  unfoldable pub prepare_edit :
      PrepareEditContextParams → String → Action S (PrepareEditContextResult W)
  unfolding with_episodes edit_query
  prepare_edit p project s =
      with_episodes p project (retrieve_episodic store embed now project (edit_query p) (pos 5) s)

  -- `handlePrepareEditContext`
  unfoldable pub handle_prepare_edit_context :
      PrepareEditContextParams → Action (Server S) (PrepareEditContextResult W)
  unfolding prepare_edit
  handle_prepare_edit_context p s =
      with_session (session_for p.session_id s)
        (λ session t.
          let project = if p.project_id == "" then session.project_id else p.project_id in
          let (r, st) = prepare_edit p project t.store in (r, record t { store = st }))
        s
