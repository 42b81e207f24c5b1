-- ===== src/Core/Update.antt =====
-- internal/core/update_tracker.go: a newer memory covers older ones about the same subject. The
-- message that explains a pair is a parameter.
pub mod Covered
pub mod Applied
use vatbrain.Prelude.{
  ℕ, Bool, true, false, not, ◌&&◌, ◌||◌, String, Option, none, some, List, [], ◌∷◌, ◌++◌, length,
  is_some, nat_eq, string_eq, ◌==◌, ◌!=◌, if◌then◌else◌,
}
use vatbrain.Prelude.Format.{contains}
use vatbrain.Prelude.Int.{pos}
use vatbrain.Prelude.Result.{Action, Done, pure, ◌>>=◌, ◌>>◌}
use vatbrain.Float.{Float64, zero_f}
use vatbrain.Float.Clamp.{clamp01}
use vatbrain.Models.Common.{Uuid, Time, after}
use vatbrain.Models.Episodic.{EpisodicMemory, effective_occurred_at}
use vatbrain.Store.{MemoryStore, EpisodicSearchRequest, Property}
use vatbrain.Vector.{is_empty}
use vatbrain.Core.Conflict.Directive.{Polarity, detect_polarity, bigram_dice, same_polarity}

pub record UpdatePair (W : Type 0) : Type 0 where
  pub old_id : Uuid
  pub old_occurred_at : Time
  pub new_occurred_at : Time
  pub bigram_similarity : W
  pub polarity_old : Polarity
  pub polarity_new : Polarity
  pub reason : String

pub record UpdateTracker (W : Type 0) : Type 0 where
  pub min_bigram_similarity : W
  pub restatement_similarity : W
  pub weight_boost : W

pub record AppliedUpdate (W : Type 0) : Type 0 where
  pub applied_pairs : List (UpdatePair W)
  pub carrier_weight : W

pub record UpdateTrackingResult (W : Type 0) : Type 0 where
  pub detected : ℕ
  pub applied : ℕ
  pub pairs : List (UpdatePair W)
  pub carrier_weight : W

module _ {W : Type 0} ⦃d : Float64 W⦄ where
  -- `DefaultUpdateTracker`
  abbrev pub default_update_tracker : UpdateTracker W
  default_update_tracker = record {
    min_bigram_similarity = d.ratio 25 100;
    restatement_similarity = d.ratio 9 10;
    weight_boost = d.ratio 15 10;
  }

  abbrev pub positive_or : W → W → W
  positive_or x fallback = if d.le x zero_f then fallback else x

  polarity_flip : EpisodicMemory W → EpisodicMemory W → Bool
  polarity_flip new old =
      let (pn, directive_new) = detect_polarity new.summary in
      let (po, directive_old) = detect_polarity old.summary in
      directive_new && directive_old && not (same_polarity pn po)

  -- The `continue` tests of the loop, in their order.
  unfoldable pub uncovered : UpdateTracker W → EpisodicMemory W → EpisodicMemory W → Bool
  unfolding polarity_flip
  uncovered t new old =
      let sim = bigram_dice new.summary old.summary in
      let restatement =
        d.le (positive_or t.restatement_similarity (d.ratio 9 10)) sim
        || contains new.summary old.summary
        || contains old.summary new.summary in
      old.id == new.id
      || is_some old.obsoleted_at
      || (new.entity_group != "" && old.entity_group != "" && new.entity_group != old.entity_group)
      || d.lt sim (positive_or t.min_bigram_similarity (d.ratio 25 100))
      || (restatement && not (polarity_flip new old))
      || not (after (effective_occurred_at new) (effective_occurred_at old))

  module _ (explain : EpisodicMemory W → EpisodicMemory W → W → String) where
    unfoldable pub update_pair : EpisodicMemory W → EpisodicMemory W → UpdatePair W
    update_pair new old =
        let sim = bigram_dice new.summary old.summary in
        record {
          old_id = old.id;
          old_occurred_at = effective_occurred_at old;
          new_occurred_at = effective_occurred_at new;
          bigram_similarity = sim;
          polarity_old = (detect_polarity old.summary).0;
          polarity_new = (detect_polarity new.summary).0;
          reason = explain new old sim;
        }

    -- `DetectUpdate`
    pub detect_update :
        UpdateTracker W → EpisodicMemory W → List (EpisodicMemory W) → List (UpdatePair W)
    detect_update t new [] = []
    detect_update t new (old ∷ olds) =
        let rest = detect_update t new olds in
        if uncovered t new old then rest else update_pair new old ∷ rest

module _ {W S : Type 0} ⦃d : Float64 W⦄ (store : MemoryStore W S) where
  unfoldable pub supersede :
      Uuid → Time → List (UpdatePair W) → UpdatePair W → Action S (List (UpdatePair W))
  supersede carrier now done p = do
    store.mark_obsolete p.old_id now
    store.create_edge carrier p.old_id "SUPERSEDED"
        (("at", Property.instant now) ∷ ("reason", Property.text p.reason) ∷ []) now
    pure (done ++ p ∷ [])

  -- The loop of `ApplyUpdate`, with the pairs that were applied.
  pub apply_pairs :
      Uuid → Time → List (UpdatePair W) → List (UpdatePair W) → Action S (List (UpdatePair W))
  apply_pairs carrier now done [] = pure done
  apply_pairs carrier now done (p ∷ ps) =
      (if p.old_id == carrier then pure done else supersede carrier now done p) >>= λ done'.
      apply_pairs carrier now done' ps

  boost_carrier :
      UpdateTracker W → EpisodicMemory W → List (UpdatePair W) → Action S (AppliedUpdate W)
  boost_carrier t carrier [] = pure (record { applied_pairs = []; carrier_weight = zero_f })
  boost_carrier t carrier (p ∷ ps) =
      let boosted = clamp01 (d.mul carrier.weight (positive_or t.weight_boost (d.ratio 15 10))) in
      store.update_episodic_weight carrier.id boosted carrier.effective_frequency
      >> pure (record { applied_pairs = p ∷ ps; carrier_weight = boosted })

  -- `ApplyUpdate`. On an error the code also returns what it applied, which its callers ignore.
  unfoldable pub apply_update :
      UpdateTracker W → EpisodicMemory W → List (UpdatePair W) → Time → Action S (AppliedUpdate W)
  unfolding boost_carrier
  apply_update t carrier pairs now = apply_pairs carrier.id now [] pairs >>= boost_carrier t carrier

  module _ (explain : EpisodicMemory W → EpisodicMemory W → W → String) where
    peers_request : String → EpisodicSearchRequest W
    peers_request project = record {
      project_id = project;
      language = "";
      task_type = "";
      min_weight = zero_f;
      limit = pos 500;
      include_obsolete = false;
      embedding = none;
      surprise_boost = zero_f;
      occurred_after = 0;
      occurred_before = 0;
      sort_by_occurred_at = true;
      query = [];
      rrf_k = pos 0;
    }

    track :
        UpdateTracker W
        → EpisodicMemory W
        → Time
        → List (UpdatePair W)
        → Action S (UpdateTrackingResult W)
    track t mem now [] =
        pure (record { detected = 0; applied = 0; pairs = []; carrier_weight = zero_f })
    track t mem now (p ∷ ps) = do
      applied ← apply_update t mem (p ∷ ps) now
      pure (record {
        detected = length (p ∷ ps);
        applied = length applied.applied_pairs;
        pairs = p ∷ ps;
        carrier_weight = applied.carrier_weight;
      })

    -- `RunUpdateTracking`
    unfoldable pub run_update_tracking : Uuid → W → Time → Action S (UpdateTrackingResult W)
    unfolding peers_request track
    run_update_tracking id boost now = do
      mem ← store.get_episodic id
      peers ← store.search_episodic (peers_request mem.project_id)
      let t =
            if d.lt zero_f boost
            then record default_update_tracker { weight_boost = boost }
            else default_update_tracker in
          track t mem now (detect_update explain t mem peers)
