-- ===== src/Watcher/Scan/Counted.antt =====
-- What becomes of each memory that a scan of internal/watcher/watcher.go finds, over any store.
use vatbrain.Prelude.{
  ℕ, ◌+◌, Bool, true, false, ◌++◌, length-append, if◌then◌else◌, ap, ◌≡◌, refl, ◌∙◌, inl, inr,
  Bool-cases, String, string_eq, List, [], ◌∷◌, Option, none, some, length, arith,
}
use vatbrain.Prelude.Dict.{empty}
use vatbrain.Prelude.Result.{Result, Error, Done, ok, err}
use vatbrain.Prelude.Text.{Text}
use vatbrain.Float.{Float64}
use vatbrain.Models.Common.{Uuid, Time}
use vatbrain.Models.Episodic.{EpisodicMemory}
use vatbrain.Store.{MemoryStore}
use vatbrain.Watcher.Refiner.{Refiner, RefineOutput, refine}
use vatbrain.Watcher.Scan.{
  Cycle, MemoryWatcher, skip, fail, count_written, after_write, after_refine, scan_raw, scan_raws,
  scan_found, scan_providers, scan_all, no_stat, no_result,
}
use vatbrain.Watcher.Seen.{
  RawMemory, SeenCache, has_seen, mark_seen, MemoryProvider, list_providers,
}
use vatbrain.Core.Link.{link_on_write}

-- what becomes of a memory that is found
pub data Outcome : Type 0 where
  wrote passed_over refused : Outcome

same : Outcome → Outcome → Bool
same wrote wrote = true
same passed_over passed_over = true
same refused refused = true
same _ _ = false

pub count : Outcome → List Outcome → ℕ
unfolding same
count o [] = 0
count o (p ∷ os) = (if same o p then 1 else 0) + count o os

count-append :
    (o : Outcome) (os os' : List Outcome) → count o (os ++ os') ≡ count o os + count o os'
unfolding count
count-append o [] os' = omega arith
count-append o (p ∷ os) os' = omega (arith, count-append o os os')

-- the memories of the providers whose scan succeeds
abbrev pub found_in : Result (List RawMemory) → List RawMemory
found_in (ok raws) = raws
found_in (err e) = []

abbrev pub found_by : List MemoryProvider → List RawMemory
found_by [] = []
found_by (p ∷ ps) = found_in p.scan ++ found_by ps

module _ {W C S : Type 0} ⦃d : Float64 W⦄ (cache : SeenCache C) (store : MemoryStore W S)
    (decode : Text → Option (RefineOutput W)) (refiner : Refiner W)
    (embedder : Option (Text → Option (List W))) (fresh : ℕ → Uuid)
    (clock link_clock : ℕ → Time) where
  -- the memory is refined, as the one of that number
  abbrev refined_as : RawMemory → ℕ → Option (EpisodicMemory W)
  refined_as raw n = refine decode refiner (fresh n) (clock n) raw

  abbrev linked : EpisodicMemory W → S → S
  linked ep s =
      (link_on_write store embedder link_clock ep.id ep.summary ep.project_id ep.entity_group
        ep.task_type s).1

  -- What becomes of some memories, one after the other, beside how many were refined, the seen set and the
  -- store, before and after. One that was seen, or that the refiner gives up, is passed over; one that the
  -- store does not accept is refused; and the others are written and linked. Those that were not seen are
  -- marked as seen, whatever becomes of them.
  pub data Follows : List RawMemory → List Outcome → ℕ → C → S → ℕ → C → S → Type 0 where
    done : {n : ℕ} {c : C} {s : S} → Follows [] [] n c s n c s
    known :
        {raw : RawMemory} {raws : List RawMemory} {os : List Outcome} {n m : ℕ} {c e : C} {s u : S}
        → has_seen cache raw.source_uri raw.content_hash c ≡ true
        → Follows raws os n c s m e u
        → Follows (raw ∷ raws) (passed_over ∷ os) n c s m e u
    vague :
        {raw : RawMemory} {raws : List RawMemory} {os : List Outcome} {n m : ℕ} {c e : C} {s u : S}
        → has_seen cache raw.source_uri raw.content_hash c ≡ false
        → refined_as raw n ≡ none
        → Follows raws os (n + 1) (mark_seen cache raw.source_uri raw.content_hash c) s m e u
        → Follows (raw ∷ raws) (passed_over ∷ os) n c s m e u
    denied :
        {raw : RawMemory} {raws : List RawMemory} {os : List Outcome} {n m : ℕ} {c e : C}
        {s t u : S} (ep : EpisodicMemory W) (x : Error)
        → has_seen cache raw.source_uri raw.content_hash c ≡ false
        → refined_as raw n ≡ some ep
        → store.write_episodic ep s ≡ (err x, t)
        → Follows raws os (n + 1) (mark_seen cache raw.source_uri raw.content_hash c) t m e u
        → Follows (raw ∷ raws) (refused ∷ os) n c s m e u
    stored :
        {raw : RawMemory} {raws : List RawMemory} {os : List Outcome} {n m : ℕ} {c e : C}
        {s t u : S} (ep : EpisodicMemory W) (x : Done)
        → has_seen cache raw.source_uri raw.content_hash c ≡ false
        → refined_as raw n ≡ some ep
        → store.write_episodic ep s ≡ (ok x, t)
        → Follows raws os
            (n + 1)
            (mark_seen cache raw.source_uri raw.content_hash c)
            (linked ep t)
            m
            e
            u
        → Follows (raw ∷ raws) (wrote ∷ os) n c s m e u

  Follows-append :
      {raws raws' : List RawMemory} {os os' : List Outcome} {n m k : ℕ} {c e f : C} {s t u : S}
      → Follows raws os n c s m e t
      → Follows raws' os' m e t k f u
      → Follows (raws ++ raws') (os ++ os') n c s k f u
  Follows-append done g = g
  Follows-append (known h f) g = known h (Follows-append f g)
  Follows-append (vague h r f) g = vague h r (Follows-append f g)
  Follows-append (denied ep x h r w f) g = denied ep x h r w (Follows-append f g)
  Follows-append (stored ep x h r w f) g = stored ep x h r w (Follows-append f g)

  -- Each memory has one outcome.
  pub Follows-length :
      {raws : List RawMemory} {os : List Outcome} {n m : ℕ} {c e : C} {s u : S}
      → Follows raws os n c s m e u
      → count wrote os + count passed_over os + count refused os ≡ length raws
  unfolding count same
  Follows-length done = refl
  Follows-length (known h f) = omega (arith, Follows-length f)
  Follows-length (vague h r f) = omega (arith, Follows-length f)
  Follows-length (denied ep x h r w f) = omega (arith, Follows-length f)
  Follows-length (stored ep x h r w f) = omega (arith, Follows-length f)

  abbrev raw_step : RawMemory → Cycle C S → Cycle C S
  raw_step = scan_raw cache store decode refiner embedder fresh clock link_clock

  -- The counts of a cycle are those of the outcomes, beside what it had.
  record Counts (c c' : Cycle C S) (os : List Outcome) : Type 0 where
    writes : c'.result.total_written ≡ c.result.total_written + count wrote os
    skips : c'.result.total_skipped ≡ c.result.total_skipped + count passed_over os
    fails : c'.result.total_failed ≡ c.result.total_failed + count refused os
    found : c'.result.total_found ≡ c.result.total_found
    scanned : c'.result.adapters_scanned ≡ c.result.adapters_scanned

  no-Counts : (c : Cycle C S) → Counts c c []
  unfolding count
  no-Counts c = record {
    writes = omega arith;
    skips = omega arith;
    fails = omega arith;
    found = refl;
    scanned = refl;
  }

  Counts-append :
      (a b c : Cycle C S) (os os' : List Outcome)
      → Counts a b os
      → Counts b c os'
      → Counts a c (os ++ os')
  Counts-append a b c os os' h k = record {
    writes = omega (arith, h.writes, k.writes, count-append wrote os os');
    skips = omega (arith, h.skips, k.skips, count-append passed_over os os');
    fails = omega (arith, h.fails, k.fails, count-append refused os os');
    found = k.found ∙ h.found;
    scanned = k.scanned ∙ h.scanned;
  }

  -- The cycle goes through the memories so.
  abbrev Runs : List RawMemory → Cycle C S → Cycle C S → Type 0
  Runs raws c c' =
      (os : List Outcome) × Follows raws os c.refined c.seen c.memories c'.refined c'.seen
        c'.memories
      × Counts c c' os

  abbrev marked : RawMemory → Cycle C S → Cycle C S
  marked raw c = record c {
    seen = mark_seen cache raw.source_uri raw.content_hash c.seen;
    refined = c.refined + 1;
  }

  after_write-Runs :
      (raw : RawMemory) (c : Cycle C S) (ep : EpisodicMemory W) (r : Result Done × S)
      → has_seen cache raw.source_uri raw.content_hash c.seen ≡ false
      → refined_as raw c.refined ≡ some ep
      → store.write_episodic ep c.memories ≡ r
      → Runs (raw ∷ []) c (
          after_write cache store decode refiner embedder fresh clock link_clock ep r
            (marked raw c))
  unfolding after_write fail count_written count same
  after_write-Runs raw c ep (ok x, s) h e w = (
    wrote ∷ [],
    stored ep x h e w done,
    record {
      writes = refl;
      skips = omega arith;
      fails = omega arith;
      found = refl;
      scanned = refl;
    },
  )
  after_write-Runs raw c ep (err x, s) h e w = (
    refused ∷ [],
    denied ep x h e w done,
    record {
      writes = omega arith;
      skips = omega arith;
      fails = refl;
      found = refl;
      scanned = refl;
    },
  )

  skip-Counts : (c c' : Cycle C S) → c'.result ≡ c.result → Counts c (skip c') (passed_over ∷ [])
  unfolding skip count same
  skip-Counts c c' e = record {
    writes = omega (arith, ap (λ r. r.total_written) e);
    skips = omega (arith, ap (λ r. r.total_skipped) e);
    fails = omega (arith, ap (λ r. r.total_failed) e);
    found = ap (λ r. r.total_found) e;
    scanned = ap (λ r. r.adapters_scanned) e;
  }

  after_refine-Runs :
      (raw : RawMemory) (c : Cycle C S) (o : Option (EpisodicMemory W))
      → has_seen cache raw.source_uri raw.content_hash c.seen ≡ false
      → refined_as raw c.refined ≡ o
      → Runs
          (raw ∷ [])
          c
          (after_refine cache store decode refiner embedder fresh clock link_clock o (marked raw c))
  unfolding after_refine skip
  after_refine-Runs raw c none h e =
      (passed_over ∷ [], vague h e done, skip-Counts c (marked raw c) refl)
  after_refine-Runs raw c (some ep) h e =
      after_write-Runs raw c ep (store.write_episodic ep c.memories) h e refl

  scan_raw-Runs : (raw : RawMemory) (c : Cycle C S) → Runs (raw ∷ []) c (raw_step raw c)
  unfolding scan_raw skip
  scan_raw-Runs raw c = elim (Bool-cases (has_seen cache raw.source_uri raw.content_hash c.seen)) [
    | inl e ↦ rw e (passed_over ∷ [], known e done, skip-Counts c c refl)
    | inr e ↦ rw e (after_refine-Runs raw c (refined_as raw c.refined) e refl)
  ]

  scan_raws-Runs :
      (raws : List RawMemory) (c : Cycle C S)
      → Runs raws c (scan_raws cache store decode refiner embedder fresh clock link_clock raws c)
  unfolding scan_raws
  scan_raws-Runs [] c = ([], done, no-Counts c)
  scan_raws-Runs (raw ∷ raws) c =
      let (os, f, k) = scan_raw-Runs raw c in
      let (os', f', k') = scan_raws-Runs raws (raw_step raw c) in
      (os ++ os', Follows-append f f', Counts-append c (raw_step raw c) _ os os' k k')

  -- What a cycle does to the counts of a whole scan.
  abbrev Scans : List RawMemory → ℕ → Cycle C S → Cycle C S → Type 0
  Scans raws n c c' =
      (os : List Outcome) × Follows raws os c.refined c.seen c.memories c'.refined c'.seen
        c'.memories
      × (c'.result.total_written ≡ c.result.total_written + count wrote os)
      × (c'.result.total_skipped ≡ c.result.total_skipped + count passed_over os)
      × (c'.result.total_failed ≡ c.result.total_failed + count refused os)
      × (c'.result.total_found ≡ c.result.total_found + length raws)
      × (c'.result.adapters_scanned ≡ c.result.adapters_scanned + n)

  scan_found-Scans :
      (name : String) (r : Result (List RawMemory)) (c : Cycle C S)
      → Scans
          (found_in r)
          0
          c
          (scan_found cache store decode refiner embedder fresh clock link_clock name r c)
  unfolding scan_found count
  scan_found-Scans name (err e) c =
      ([], done, omega arith, omega arith, omega arith, omega arith, omega arith)
  scan_found-Scans name (ok raws) c =
      let (os, f, k) = scan_raws-Runs raws (record c {
        result = record c.result { total_found = c.result.total_found + length raws };
        stat = no_stat;
      }) in
      (os, f, k.writes, k.skips, k.fails, k.found, omega (arith, k.scanned))

  scan_providers-Scans :
      (ps : List MemoryProvider) (c : Cycle C S)
      → Scans
          (found_by ps)
          (length ps)
          c
          (scan_providers cache store decode refiner embedder fresh clock link_clock ps c)
  unfolding scan_providers count
  scan_providers-Scans [] c =
      ([], done, omega arith, omega arith, omega arith, omega arith, omega arith)
  scan_providers-Scans (p ∷ ps) c =
      let c₁ = record c {
        result = record c.result { adapters_scanned = c.result.adapters_scanned + 1 };
      } in
      let (os, f, w, k, x, n, a) = scan_found-Scans p.name p.scan c₁ in
      let (os', f', w', k', x', n', a') =
        scan_providers-Scans ps (
          scan_found cache store decode refiner embedder fresh clock link_clock p.name p.scan c₁) in
      (
        os ++ os',
        Follows-append f f',
        omega (arith, w, w', count-append wrote os os'),
        omega (arith, k, k', count-append passed_over os os'),
        omega (arith, x, x', count-append refused os os'),
        omega (arith, n, n', length-append (found_in p.scan) (found_by ps)),
        omega (arith, a, a'),
      )

  -- Over any store, a scan goes through every provider and finds the memories that those give whose scan
  -- succeeds. It takes them in order: what was seen, or is not refined, is passed over; what the store does
  -- not accept is refused; and the rest is written and linked. The three counts are those of these
  -- outcomes.
  pub scan_all-Settles :
      (w : MemoryWatcher C S)
      → let (r, w') = scan_all cache store decode refiner embedder fresh clock link_clock w in
        let ps = list_providers w.registry in
        (os : List Outcome) × (n : ℕ) × Follows
          (found_by ps)
          os
          0
          w.seen
          w.memories
          n
          w'.seen
          w'.memories
        × (r.total_written ≡ count wrote os)
        × (r.total_skipped ≡ count passed_over os)
        × (r.total_failed ≡ count refused os)
        × (r.total_found ≡ length (found_by ps))
        × (r.adapters_scanned ≡ length ps)
  unfolding scan_all no_result
  scan_all-Settles w =
      let ps = list_providers w.registry in
      let start : Cycle C S = record {
        result = no_result;
        stat = no_stat;
        per_provider = empty;
        seen = w.seen;
        memories = w.memories;
        refined = 0;
      } in
      let (os, f, k, s, x, n, a) = scan_providers-Scans ps start in
      (
        os,
        (scan_providers cache store decode refiner embedder fresh clock link_clock ps
            start).refined,
        f,
        omega (arith, k),
        omega (arith, s),
        omega (arith, x),
        omega (arith, n),
        omega (arith, a),
      )
