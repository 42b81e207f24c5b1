-- ===== src/Tests/Watcher.antt =====
-- The theorems on internal/watcher, applied to two memories of one provider.
use vatbrain.Prelude.{
  ℕ, ◌<◌, ◌≤◌, true, take, length-take, Option, ◌+◌, ◌≡◌, refl, Bool, Bool-cases, inl, inr, String,
  string_eq, ◌==◌, any, List, [], ◌∷◌, none, length, arith,
}
use vatbrain.Prelude.Dict.{empty, values, lookup, insert}
use vatbrain.Prelude.Text.{Text}
use vatbrain.Prelude.Result.{ok, err, store_failed}
use vatbrain.Float.Fixed.{Fixed, fixed_float}
use vatbrain.Models.Common.{Uuid}
use vatbrain.Store.{MemoryStore}
use vatbrain.Store.Memory.Backend.{memory_store}
use vatbrain.Store.Memory.State.{Store, new_store}
use vatbrain.Watcher.Refiner.{Refiner, RefineOutput}
use vatbrain.Watcher.Scan.{MemoryWatcher, scan_all}
use vatbrain.Watcher.Scan.Counted.{
  Outcome, wrote, passed_over, refused, count, Follows, found_by, scan_all-Settles,
}
use vatbrain.Watcher.Scan.Repeated.{IsBounded, scan_all-repeats}
use vatbrain.Watcher.Seen.{
  RawMemory, SeenCache, ProviderRegistry, list_providers, register, register_all,
}

abbrev in_list : String → List String → Bool
in_list k c = any (λ x. x == k) c

-- a cache of two keys at most, which drops the oldest one
abbrev listed : SeenCache (List String)
listed = record { contains = in_list; add = λ k c. take 2 (k ∷ c) }

listed_kept :
    (j k : String) (c : List String)
    → length c < 2
    → in_list k c ≡ true
    → in_list k (take 2 (j ∷ c)) ≡ true
listed_kept j k [] h e = ground (arith, e)
listed_kept j k (x ∷ []) h e = elim (Bool-cases (j == k)) [ inl q ↦ rw q refl | inr q ↦ rw q e ]
listed_kept j k (x ∷ y ∷ c) h e = absurd (omega arith)

abbrev listed_bound : IsBounded listed 2
listed_bound = record {
  size = length;
  added = λ k c. ground (arith, string_eq.beq_iff k k);
  kept = listed_kept;
  grows = λ k c. omega (arith, length-take 2 (k ∷ c));
}

abbrev raw : String → RawMemory
raw hash = record {
  provider_name = "cursor";
  source_uri = "rules.mdc";
  content = "Fix the panic in @src/pool.go before the release";
  front_matter = empty;
  content_hash = hash;
  modified_at = 50;
  project_id = "vatbrain";
  metadata = empty;
}

abbrev registry : ProviderRegistry
registry =
    register_all (record { name = "cursor"; scan = ok (raw "a1" ∷ raw "b2" ∷ []) } ∷ []) empty

abbrev refiner : Refiner Fixed
refiner = record { llm_client = none; embedder = none; system_prompt = [] }

abbrev watcher : MemoryWatcher (List String) (Store Fixed)
watcher = record { registry = registry; seen = []; last_scan_stats = empty; memories = new_store }

abbrev numbers : ℕ → ℕ
numbers n = 1 + n

abbrev always : ℕ → ℕ
always n = 100

abbrev no_answer : Text → Option (RefineOutput Fixed)
no_answer t = none

scan_all-Settles_example :
    let (r, w') =
      scan_all listed memory_store no_answer refiner none numbers always always watcher in
    let ps = list_providers registry in
    (os : List Outcome) × (n : ℕ) × Follows listed memory_store no_answer refiner none numbers
      always always
      (found_by ps)
      os
      0
      []
      new_store
      n
      w'.seen
      w'.memories
    × (r.total_written ≡ count wrote os)
    × (r.total_skipped ≡ count passed_over os)
    × (r.total_failed ≡ count refused os)
    × (r.total_found ≡ length (found_by ps))
    × (r.adapters_scanned ≡ length ps)
scan_all-Settles_example =
    scan_all-Settles listed memory_store no_answer refiner none numbers always always watcher

-- a store that refuses every memory
abbrev closed_store : MemoryStore Fixed (Store Fixed)
closed_store = record memory_store { write_episodic = λ m s. (err store_failed, s) }

two_fit : length {A = String} [] + length (found_by (list_providers registry)) ≤ 2
unfolding list_providers register_all register values lookup insert
two_fit = ground arith

scan_all-repeats_example :
    let scan = λ (fresh : ℕ → Uuid).
      scan_all listed closed_store (λ t. none) refiner none fresh (λ n. 100) (λ n. 100) in
    let w₁ = (scan (λ n. 1 + n) watcher).1 in
    let (r, w₂) = scan (λ n. 9 + n) w₁ in
    (r.total_skipped ≡ r.total_found)
    × (r.total_written ≡ 0)
    × (r.total_failed ≡ 0)
    × (w₂.memories ≡ w₁.memories)
    × (w₂.seen ≡ w₁.seen)
scan_all-repeats_example =
    scan_all-repeats listed closed_store (λ t. none) refiner none (λ n. 100) 2 listed_bound
      (λ n. 1 + n) (λ n. 9 + n) (λ n. 100) (λ n. 100) watcher two_fit
