-- ===== src/Core/Conflict.antt =====
-- internal/core/conflict.go: contradictions between rules. The messages that the code formats are
-- parameters, and so are the readings of the clock and the fresh identifiers, by the number of the
-- pair that they are for.
pub mod Directive
pub mod Detected
pub mod Resolved
pub mod Counted
use Directive.{Polarity, detect_polarity, bigram_dice, same_polarity}
use vatbrain.Prelude.{
  ℕ, zero, suc, ◌+◌, ◌*◌, Bool, true, false, not, ◌&&◌, ◌||◌, String, Option, none, some, List, [],
  ◌∷◌, ◌++◌, map, keep, any, length, ltb, leb, is_some, nat_eq, string_eq, ◌==◌, if◌then◌else◌,
}
use vatbrain.Prelude.Dict.{Dict, empty, values, lookup, insert}
use vatbrain.Prelude.Int.{ℤ, pos, positive, pos_part}
use vatbrain.Prelude.Result.{
  Action, Done, Error, pure, raise, unsupported, invalid_argument, ◌>>=◌, ◌>>◌, ◌>>!◌,
}
use vatbrain.Prelude.Text.{Text, codes, is_blank}
use vatbrain.Float.{Float64, zero_f}
use vatbrain.Models.Common.{Uuid, Time, MemoryType}
use vatbrain.Models.Conflict.{RuleConflict, ConflictStatus, ConflictBasis}
use vatbrain.Models.Semantic.{SemanticMemory}
use vatbrain.Store.{MemoryStore, RuleConflictStore, SemanticSearchRequest, Property}
use vatbrain.Vector.{is_empty}

pub record ConflictPair (W : Type 0) : Type 0 where
  pub rule_a : SemanticMemory W
  pub rule_b : SemanticMemory W
  pub reason : Text

pub record ConflictDetector (W : Type 0) : Type 0 where
  pub min_bigram_similarity : W
  pub max_rules_per_type : ℤ

pub record ResolveOutcome : Type 0 where
  pub status : ConflictStatus
  pub winner_id : Uuid
  pub loser_id : Uuid

pub record DetectionResult : Type 0 where
  pub detected : ℕ
  pub auto_resolved : ℕ
  pub pending : ℕ

bucket_of : {A : Type 0} → Option (List A) → List A
bucket_of none = []
bucket_of (some l) = l

-- `pairKey`: an identifier is a number, in the order of its text.
unfoldable pub pair_key : Uuid → Uuid → Uuid × Uuid
pair_key a b = if ltb a b then (a, b) else (b, a)

is_pending : ConflictStatus → Bool
is_pending ConflictStatus.pending = true
is_pending _ = false

unfoldable pub is_auto_resolved : ConflictStatus → Bool
is_auto_resolved ConflictStatus.auto_resolved = true
is_auto_resolved _ = false

module _ {W : Type 0} ⦃d : Float64 W⦄ where
  -- `DefaultConflictDetector`
  abbrev pub default_conflict_detector : ConflictDetector W
  default_conflict_detector = record {
    min_bigram_similarity = d.ratio 25 100;
    max_rules_per_type = pos 50;
  }

  -- One round of the loop that fills the buckets; two of its branches are `continue`.
  unfoldable pub bucketed :
      ℕ
      → Dict MemoryType (List (SemanticMemory W))
      → SemanticMemory W
      → Dict MemoryType (List (SemanticMemory W))
  unfolding bucket_of
  bucketed max buckets r =
      let bucket = bucket_of (lookup r.type buckets) in
      if is_some r.obsoleted_at || leb max (length bucket)
      then buckets
      else insert r.type (bucket ++ r ∷ []) buckets

  pub fill_buckets :
      ℕ
      → Dict MemoryType (List (SemanticMemory W))
      → List (SemanticMemory W)
      → Dict MemoryType (List (SemanticMemory W))
  fill_buckets max buckets [] = buckets
  fill_buckets max buckets (r ∷ rs) = fill_buckets max (bucketed max buckets r) rs

  -- the tests on a pair, in the order of the code
  unfoldable pub contradicts : W → SemanticMemory W → SemanticMemory W → Bool
  contradicts min_sim a b =
      let (pa, directive_a) = detect_polarity a.content in
      let (pb, directive_b) = detect_polarity b.content in
      not (not directive_a || not directive_b || same_polarity pa pb)
      && not (d.lt (bigram_dice a.content b.content) min_sim)

  module _ (describe : SemanticMemory W → SemanticMemory W → Text) where
    -- the inner loop, for `a`
    pub pairs_with : W → SemanticMemory W → List (SemanticMemory W) → List (ConflictPair W)
    pairs_with min_sim a [] = []
    pairs_with min_sim a (b ∷ bs) =
        let rest = pairs_with min_sim a bs in
        if contradicts min_sim a b
        then record { rule_a = a; rule_b = b; reason = describe a b } ∷ rest
        else rest

    pub pairs_in : W → List (SemanticMemory W) → List (ConflictPair W)
    pairs_in min_sim [] = []
    pairs_in min_sim (a ∷ bs) = pairs_with min_sim a bs ++ pairs_in min_sim bs

    pub pairs_in_all : W → List (List (SemanticMemory W)) → List (ConflictPair W)
    pairs_in_all min_sim [] = []
    pairs_in_all min_sim (b ∷ bs) = pairs_in min_sim b ++ pairs_in_all min_sim bs

    -- `Detect`
    unfoldable pub detect : ConflictDetector W → List (SemanticMemory W) → List (ConflictPair W)
    detect detector rules =
        let min_sim =
          if d.le detector.min_bigram_similarity zero_f
          then d.ratio 25 100
          else detector.min_bigram_similarity in
        let max =
          if positive detector.max_rules_per_type
          then pos_part detector.max_rules_per_type
          else 50 in
        pairs_in_all min_sim (values (fill_buckets max empty rules))

-- The store, and its conflict interface if it has one.
module _ {W S : Type 0} (store : MemoryStore W S) (verdict : ℕ → ℕ → Text) where
  pub retire_loser :
      RuleConflictStore W S
      → RuleConflict
      → SemanticMemory W
      → SemanticMemory W
      → Time
      → Action S ResolveOutcome
  retire_loser cs conflict winner loser now = do
    cs.mark_semantic_obsolete loser.id now
    store.create_edge winner.id loser.id "CONFLICTS_WITH"
          (("resolution", Property.text "winner") ∷ []) now
        >>! cs.resolve_rule_conflict conflict.id ConflictStatus.auto_resolved winner.id
            (verdict winner.trust_level loser.trust_level) now
    pure (record {
      status = ConflictStatus.auto_resolved;
      winner_id = winner.id;
      loser_id = loser.id;
    })

  -- `Resolve`
  unfoldable pub resolve :
      Option (RuleConflictStore W S)
      → RuleConflict
      → SemanticMemory W
      → SemanticMemory W
      → Time
      → Action S ResolveOutcome
  unfolding retire_loser
  resolve none conflict a b now = raise unsupported
  resolve (some cs) conflict a b now =
      if a.trust_level == b.trust_level
      then pure (record { status = ConflictStatus.pending; winner_id = 0; loser_id = 0 })
      else if ltb a.trust_level b.trust_level
      then retire_loser cs conflict b a now
      else retire_loser cs conflict a b now

  settle_manually : RuleConflictStore W S → RuleConflict → Uuid → Uuid → Text → Time → Action S Done
  settle_manually cs conflict winner loser reason now = do
    cs.mark_semantic_obsolete loser now
    store.create_edge winner loser "CONFLICTS_WITH" (("resolution", Property.text "manual") ∷ [])
          now
        >>! cs.resolve_rule_conflict conflict.id ConflictStatus.manual_resolved winner reason now

  -- `ResolveManually`: the winner must be one of the two rules.
  unfoldable pub resolve_manually :
      Option (RuleConflictStore W S) → RuleConflict → Uuid → Text → Time → Action S Done
  unfolding settle_manually
  resolve_manually none conflict winner note now = raise unsupported
  resolve_manually (some cs) conflict winner note now =
      let reason = if is_blank note then codes "manual adjudication" else note in
      if winner == conflict.rule_a_id
      then settle_manually cs conflict winner conflict.rule_b_id reason now
      else if winner == conflict.rule_b_id
      then settle_manually cs conflict winner conflict.rule_a_id reason now
      else raise invalid_argument

abbrev pub none_detected : DetectionResult
none_detected = record { detected = 0; auto_resolved = 0; pending = 0 }

-- `result.AutoResolved++` or `result.Pending++`
unfoldable pub counted : ConflictStatus → DetectionResult → DetectionResult
counted status r =
    if is_auto_resolved status
    then record r { auto_resolved = r.auto_resolved + 1 }
    else record r { pending = r.pending + 1 }

module _ {W S : Type 0} ⦃d : Float64 W⦄ (store : MemoryStore W S) (verdict : ℕ → ℕ → Text)
    (describe : SemanticMemory W → SemanticMemory W → Text) (fresh : ℕ → Uuid)
    (clock : ℕ → Time) where
  new_conflict : ℕ → ConflictPair W → RuleConflict
  new_conflict k pair = record {
    id = fresh k;
    rule_a_id = pair.rule_a.id;
    rule_b_id = pair.rule_b.id;
    entity_group = pair.rule_a.entity_group;
    basis = ConflictBasis.polarity;
    status = ConflictStatus.pending;
    resolution = none;
    reason = pair.reason;
    created_at = clock (2 * k);
    resolved_at = none;
  }

  is_tracked : List (Uuid × Uuid) → ConflictPair W → Bool
  is_tracked tracked pair =
      let key = pair_key pair.rule_a.id pair.rule_b.id in
      any (λ (t : Uuid × Uuid). t.0 == key.0 && t.1 == key.1) tracked

  -- The body of the loop, for a pair that is not tracked.
  unfoldable pub settle_pair :
      RuleConflictStore W S → ℕ → ConflictPair W → DetectionResult → Action S DetectionResult
  unfolding new_conflict
  settle_pair cs k pair result = do
    cs.save_rule_conflict (new_conflict k pair)
    outcome ←
        resolve store verdict (some cs) (new_conflict k pair) pair.rule_a pair.rule_b
          (clock (2 * k + 1))
    pure (counted outcome.status (record result { detected = result.detected + 1 }))

  -- The loop over the pairs; `k` numbers the rounds.
  pub settle_pairs :
      RuleConflictStore W S
      → List (Uuid × Uuid)
      → ℕ
      → List (ConflictPair W)
      → DetectionResult
      → Action S DetectionResult
  unfolding is_tracked
  settle_pairs cs tracked k [] result = pure result
  settle_pairs cs tracked k (pair ∷ pairs) result =
      (if is_tracked tracked pair then pure result else settle_pair cs k pair result) >>= λ r.
      settle_pairs cs tracked (suc k) pairs r

  tracked_of : List RuleConflict → List (Uuid × Uuid)
  unfolding is_pending
  tracked_of existing =
      map (λ (c : RuleConflict). pair_key c.rule_a_id c.rule_b_id)
        (keep (λ (c : RuleConflict). is_pending c.status) existing)

  -- `RunRuleConflictDetection`. On an error the code also returns the counts so far, which its
  -- callers ignore.
  unfoldable pub run_rule_conflict_detection :
      Option (RuleConflictStore W S) → String → Action S DetectionResult
  unfolding tracked_of
  run_rule_conflict_detection none project = raise unsupported
  run_rule_conflict_detection (some cs) project = do
    rules ←
        store.search_semantic (record { project_id = project; memory_type = ""; limit = pos 1000 })
    existing ← cs.list_rule_conflicts "" (pos 2000)
    settle_pairs cs (tracked_of existing) 0 (detect describe default_conflict_detector rules)
        none_detected
