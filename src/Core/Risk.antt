-- ===== src/Core/Risk.antt =====
-- internal/core/risk_engine.go: the risk of an edit, from the pitfalls that may be injected.
pub mod Range
pub mod Surfaced
use vatbrain.Prelude.{
  ℕ, ◌+◌, ◌^◌, Bool, true, false, not, ◌&&◌, ◌||◌, String, Option, none, some, List, [], ◌∷◌, ◌++◌,
  map, take, ltb, leb, if◌then◌else◌,
}
use vatbrain.Prelude.Int.{ℤ, positive, pos_part}
use vatbrain.Prelude.Sort.{sort_by}
use vatbrain.Prelude.Text.{Text}
use vatbrain.Float.{Float64, zero_f, one_f, of_nat, neg, min_f, days_since}
use vatbrain.Models.Common.{Time, TaskType, trust_level_max}
use vatbrain.Models.Episodic.{EpisodicMemory}
use vatbrain.Models.Pitfall.{PitfallMemory, injectable, pitfall_protection_level_max}
use vatbrain.Vector.{is_empty}

pub record RiskRequest (W : Type 0) : Type 0 where
  pub files : List String
  pub entity_ids : List String
  pub project_id : String
  pub language : String
  pub task_type : TaskType
  pub user_goal : Text
  pub complexity : W

pub record RiskResult (W : Type 0) : Type 0 where
  pub risk_score : W
  pub reason_codes : List String
  pub pitfalls : List (PitfallMemory W)
  pub episodes : List (EpisodicMemory W)

-- The set of reasons, one flag for each string that the code puts in it.
pub record Reasons : Type 0 where
  pub user_corrected : Bool
  pub recent_error : Bool
  pub high_risk_pitfall : Bool
  pub memory_recall : Bool
  pub editing_files : Bool
  pub high_complexity : Bool

pub record RiskScored (W : Type 0) : Type 0 where
  pub p : PitfallMemory W
  pub score : W

-- What the loop has gathered.
pub record RiskState (W : Type 0) : Type 0 where
  pub total : W
  pub reasons : Reasons
  pub scores : List (RiskScored W)

reason : Bool → String → List String
reason b code = if b then code ∷ [] else []

-- `reasonList`: the reasons of the set, sorted.
unfoldable pub reason_list : Reasons → List String
unfolding reason
reason_list r =
    reason r.editing_files "editing_files"
    ++ reason r.high_complexity "high_complexity"
    ++ reason r.high_risk_pitfall "high_risk_pitfall"
    ++ reason r.memory_recall "memory_recall"
    ++ reason r.recent_error "recent_error"
    ++ reason r.user_corrected "user_corrected"

-- in nanoseconds
abbrev pub recent_error_window : Time
recent_error_window = 604800000000000

-- `p.LastOccurredAt != nil && now.Sub(*p.LastOccurredAt) < recentErrorWindow`
is_recent : Time → Option Time → Bool
is_recent now none = false
is_recent now (some t) = ltb now (t + recent_error_window)

abbrev pub risk_pitfall_cap : ℕ
risk_pitfall_cap = 3

module _ {W : Type 0} ⦃d : Float64 W⦄ where
  unfoldable pub complexity_factor : W → W
  complexity_factor c =
      if d.le c zero_f
      then d.ratio 5 10
      else if d.lt one_f c
      then d.ratio 15 10
      else d.add (d.ratio 5 10) c

  unfoldable pub occurrence_decay : Time → Option Time → W
  occurrence_decay now none = one_f
  occurrence_decay now (some t) = d.exp (d.div (neg (days_since now t)) (d.ratio 30 1))

  unfoldable pub contribution : Time → PitfallMemory W → W
  contribution now p =
      d.mul
        (d.mul (min_f one_f (d.div (of_nat p.occurrence_count) (d.ratio 3 1)))
          (d.div (of_nat p.trust_level) (of_nat trust_level_max)))
        (occurrence_decay now p.last_occurred_at)

  -- One round of the loop. The first line is `continue`.
  unfoldable pub risk_step : Time → RiskState W → PitfallMemory W → RiskState W
  unfolding is_recent
  risk_step now st p =
      let contrib = contribution now p in
      if injectable p
      then record {
        total = d.add st.total contrib;
        reasons = record st.reasons {
          user_corrected = st.reasons.user_corrected || p.was_user_corrected;
          recent_error = st.reasons.recent_error || is_recent now p.last_occurred_at;
          high_risk_pitfall = st.reasons.high_risk_pitfall || d.le (d.ratio 6 10) contrib;
        };
        scores = st.scores ++ record { p = p; score = contrib } ∷ [];
      }
      else st

  pub risk_loop : Time → RiskState W → List (PitfallMemory W) → RiskState W
  risk_loop now st [] = st
  risk_loop now st (p ∷ ps) = risk_loop now (risk_step now st p) ps

  abbrev pub no_risk : RiskState W
  no_risk = record {
    total = zero_f;
    reasons = record {
      user_corrected = false;
      recent_error = false;
      high_risk_pitfall = false;
      memory_recall = false;
      editing_files = false;
      high_complexity = false;
    };
    scores = [];
  }

  abbrev pub higher_risk : RiskScored W → RiskScored W → Bool
  higher_risk a b = d.lt b.score a.score

  unfoldable pub compute_risk :
      RiskRequest W → List (PitfallMemory W) → List (EpisodicMemory W) → Time → RiskResult W
  compute_risk req pitfalls episodes now =
      let st = risk_loop now no_risk pitfalls in
      let risk = min_f one_f st.total in
      record {
        risk_score = min_f one_f (d.mul risk (complexity_factor req.complexity));
        reason_codes = reason_list (record st.reasons {
          memory_recall = not (is_empty episodes);
          editing_files = not (is_empty req.files);
          high_complexity = d.le (d.ratio 75 100) req.complexity;
        });
        pitfalls =
            map (λ (x : RiskScored W). x.p) (take risk_pitfall_cap (sort_by higher_risk st.scores));
        episodes = episodes;
      }

  -- `1.0 / math.Pow(2, level)`, which is exact
  unfoldable pub protection_decay_rate : ℤ → W
  protection_decay_rate level =
      let n = pos_part level in
      let top = pitfall_protection_level_max in
      if not (positive level) then one_f else d.ratio 1 (2 ^ (if ltb top n then top else n))

  unfoldable pub protection_decayed_weight : W → ℤ → W → W
  protection_decayed_weight base level days =
      let decay = d.exp (d.mul (d.div (neg days) (d.ratio 30 1)) (protection_decay_rate level)) in
      let w = d.mul base decay in
      if d.le days zero_f
      then base
      else if d.lt w zero_f
      then zero_f
      else if d.lt one_f w
      then one_f
      else w
