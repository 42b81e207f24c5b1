-- ===== src/Core/Consolidation/Failing.antt =====
-- The errors of a run of internal/core/consolidation_engine.go, over any store.
use vatbrain.Prelude.{ℕ, ◌+◌, ◌≤◌, ◌<◌, ◌≡◌, ◌⊎◌, List, Option, none, some, length}
use vatbrain.Prelude.Result.{Result, Error, ok, err, store_failed}
use vatbrain.Prelude.Text.{Text}
use vatbrain.Float.{Float64}
use vatbrain.Models.Common.{Uuid}
use vatbrain.Store.{MemoryStore, EpisodicScanItem}
use vatbrain.Core.Consolidation.{ConsolidationEngine, ConsolidationRunResult, Readings}
use vatbrain.Core.Extractor.Parse.{Decoder}

-- Either nothing failed and all is persisted, or the failure of the store is recorded, and not all is.
abbrev Counted : Option Error → (persisted all : ℕ) → Type 0
Counted e persisted all =
    ((e ≡ none) × (persisted ≡ all)) ⊎ ((e ≡ some store_failed) × (persisted < all))

abbrev Bounded : Option Error → (persisted all : ℕ) → Type 0
Bounded e persisted all =
    ((e ≡ none) × (persisted ≤ all)) ⊎ ((e ≡ some store_failed) × (persisted < all))

module _ {W S : Type 0} ⦃d : Float64 W⦄ (store : MemoryStore W S) (engine : ConsolidationEngine W)
    (scan : Text → Option W) (decoder : Decoder W) (emb : Option (Text → Option (List W)))
    (run : Uuid) (readings : Readings) where
  -- What a report says of failures.
  abbrev pub IsHonest : ConsolidationRunResult W → Type 0
  IsHonest r =
      Bounded r.rules_error r.rules_persisted r.candidate_rules_found
      × Counted r.pitfall_error (r.pitfalls_persisted + r.pitfalls_merged) r.pitfalls_extracted

  -- What a run makes of the result of its scan.
  abbrev pub Answers :
      Result (List (EpisodicScanItem W)) → S → Result (ConsolidationRunResult W) × S → Type 0
  Answers (err e) s x = x ≡ (err store_failed, s)
  Answers (ok eps) s (r, t) =
      (res : ConsolidationRunResult W) × (r ≡ ok res)
      × (res.episodics_scanned ≡ length eps)
      × IsHonest res
