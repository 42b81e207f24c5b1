-- ===== src/Core/Reconsolidation.antt =====
-- internal/core/reconsolidation_engine.go: a correction flows back to the memories that a corrected
-- one derives from.
pub mod Traced
pub mod Stale
use vatbrain.Prelude.{
  ℕ, ◌+◌, Bool, true, false, not, ◌&&◌, ◌||◌, String, Option, none, some, List, [], ◌∷◌, ◌++◌, any,
  ltb, nat_eq, string_eq, ◌==◌, if◌then◌else◌,
}
use vatbrain.Prelude.Int.{ℤ, pos, positive}
use vatbrain.Prelude.Result.{
  Action, Done, Result, ok, err, pure, raise, invalid_argument, ◌>>=◌, ◌>>◌, ◌>>!◌,
}
use vatbrain.Prelude.Text.{Text, codes}
use vatbrain.Float.{Float64, zero_f}
use vatbrain.Models.Common.{Uuid, Time}
use vatbrain.Models.Episodic.{EpisodicMemory}
use vatbrain.Store.{MemoryStore, Edge}
use vatbrain.Vector.{is_empty}

pub record CorrectionDetail : Type 0 where
  pub original : Text
  pub corrected_to : Text

pub record ReconsolidationEngine (W : Type 0) : Type 0 where
  pub correction_boost : W
  pub max_traceback_hops : ℤ
  pub correction_source_threshold : ℤ

pub record ReconsolidationResult (W : Type 0) : Type 0 where
  pub corrected_id : Uuid
  pub updated_ids : List Uuid
  pub skipped_ids : List Uuid
  pub failed_ids : List Uuid
  pub total_weight_delta : W

module _ {W : Type 0} ⦃d : Float64 W⦄ where
  -- `DefaultReconsolidationEngine`
  abbrev pub default_reconsolidation_engine : ReconsolidationEngine W
  default_reconsolidation_engine = record {
    correction_boost = d.ratio 15 10;
    max_traceback_hops = pos 2;
    correction_source_threshold = pos 2;
  }

  abbrev pub no_result : Uuid → ReconsolidationResult W
  no_result id = record {
    corrected_id = id;
    updated_ids = [];
    skipped_ids = [];
    failed_ids = [];
    total_weight_delta = zero_f;
  }

  unfoldable pub skip : Uuid → ReconsolidationResult W → ReconsolidationResult W
  skip id r = record r { skipped_ids = r.skipped_ids ++ id ∷ [] }

  unfoldable pub failed : Uuid → ReconsolidationResult W → ReconsolidationResult W
  failed id r = record r { failed_ids = r.failed_ids ++ id ∷ [] }

  unfoldable pub updated : Uuid → W → ReconsolidationResult W → ReconsolidationResult W
  updated id delta r = record r {
    updated_ids = r.updated_ids ++ id ∷ [];
    total_weight_delta = d.add r.total_weight_delta delta;
  }

-- `if isUserCorrected && ep.TrustLevel < 5 { ep.TrustLevel++ }`
abbrev pub more_trusted : {W : Type 0} → EpisodicMemory W → EpisodicMemory W
more_trusted ep = record ep {
  trust_level = if ltb ep.trust_level 5 then ep.trust_level + 1 else ep.trust_level;
}

module _ {W S : Type 0} ⦃d : Float64 W⦄ (store : MemoryStore W S) (engine : ReconsolidationEngine W)
    (detail : CorrectionDetail) (user : Bool) where
  -- `processEpisodic`. The touch and the last write are best-effort.
  unfoldable pub process_episodic : Uuid → Time → Action S (ReconsolidationResult W)
  process_episodic id now = do
    ep ← store.get_episodic id
    let weight = d.mul ep.weight engine.correction_boost
    store.update_episodic_weight ep.id weight ep.effective_frequency
    let raised : EpisodicMemory W = record (more_trusted ep) {
      surprise_score =
          if d.lt ep.surprise_score (d.ratio 7 10) then d.ratio 7 10 else ep.surprise_score;
      weight = weight;
    }
    let result : ReconsolidationResult W = record (no_result id) {
      updated_ids = id ∷ [];
      total_weight_delta = d.sub weight ep.weight;
    }
    store.touch_episodic ep.id now
        >>! ((if user then store.write_episodic raised else pure tt) >>! pure result)

  -- What `processSemantic` writes of a source: the correction, then the trust.
  unfoldable pub amend_semantic : EpisodicMemory W → W → Action S Done
  amend_semantic ep weight =
      let amended : EpisodicMemory W = record ep {
        summary = ep.summary ++ 10 ∷ codes "[corrected] " ++ detail.corrected_to;
        weight = weight;
      } in
      store.write_episodic amended
      >>! (if user && ltb ep.trust_level 5
          then store.write_episodic (more_trusted amended)
          else pure tt)

  -- What `processPitfall` writes of a source: the trust.
  unfoldable pub amend_pitfall : EpisodicMemory W → W → Action S Done
  amend_pitfall ep weight =
      if user && ltb ep.trust_level 5
      then store.write_episodic (record (more_trusted ep) { weight = weight })
      else pure tt

  reweighed :
      (EpisodicMemory W → W → Action S Done)
      → EpisodicMemory W
      → W
      → ReconsolidationResult W
      → Result Done
      → Action S (ReconsolidationResult W)
  reweighed amend ep weight r (ok u) =
      amend ep weight >>! pure (updated ep.id (d.sub weight ep.weight) r)
  reweighed amend ep weight r (err e) = pure (failed ep.id r)

  -- The end of the loop's body, with what `GetEpisodic` returned.
  sourced :
      (EpisodicMemory W → W → Action S Done)
      → Uuid
      → ReconsolidationResult W
      → Result (EpisodicMemory W)
      → Action S (ReconsolidationResult W)
  unfolding reweighed
  sourced amend id r (err e) s = (ok (skip id r), s)
  sourced amend id r (ok ep) s =
      let weight = d.mul ep.weight engine.correction_boost in
      let (done, t) = store.update_episodic_weight ep.id weight ep.effective_frequency s in
      reweighed amend ep weight r done t

  -- The loop over the edges, which two functions of the source write out.
  unfoldable pub trace :
      (EpisodicMemory W → W → Action S Done)
      → List Uuid
      → ReconsolidationResult W
      → List (Edge W)
      → Action S (ReconsolidationResult W)
  unfolding sourced
  trace amend visited r [] = pure r
  trace amend visited r (e ∷ es) =
      (if any (λ v. v == e.to_id) visited then pure (skip e.to_id r) else λ s.
      let (o, t) = store.get_episodic e.to_id s in sourced amend e.to_id r o t)
      >>= λ r'. trace amend (e.to_id ∷ visited) r' es

  traced : (EpisodicMemory W → W → Action S Done) → Uuid → Action S (ReconsolidationResult W)
  traced amend id = do
    edges ← store.get_edges id "DERIVED_FROM" "outgoing"
    if is_empty edges || not (positive engine.max_traceback_hops)
        then pure (no_result id)
        else trace amend (id ∷ []) (no_result id) edges

  unfoldable pub process_semantic : Uuid → Action S (ReconsolidationResult W)
  unfolding traced
  process_semantic id = traced amend_semantic id

  unfoldable pub process_pitfall : Uuid → Action S (ReconsolidationResult W)
  unfolding traced
  process_pitfall id = traced amend_pitfall id

  -- `Process`
  unfoldable pub process : Uuid → String → Time → Action S (ReconsolidationResult W)
  process id type now =
      if type == "episodic"
      then process_episodic id now
      else if type == "semantic"
      then process_semantic id
      else if type == "pitfall"
      then process_pitfall id
      else raise invalid_argument
