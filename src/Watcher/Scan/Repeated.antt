-- ===== src/Watcher/Scan/Repeated.antt =====
-- A second scan of internal/watcher/watcher.go over the same files, over any store.
use vatbrain.Prelude.{
  ℕ, suc, length, length-append, ◌<◌, ◌≤◌, ◌+◌, ◌≡◌, refl, sym, ◌∙◌, inl, inr, Bool-cases, true,
  String, List, [], ◌∷◌, Option, none, some, All, All-imp, arith,
}
use mathlib.Core.Path.{subst}
use vatbrain.Prelude.Dict.{empty}
use vatbrain.Prelude.Result.{Result, Done, ok, err}
use vatbrain.Prelude.Text.{Text}
use vatbrain.Float.{Float64}
use vatbrain.Models.Common.{Uuid, Time}
use vatbrain.Models.Episodic.{EpisodicMemory}
use vatbrain.Store.{MemoryStore}
use vatbrain.Watcher.Refiner.{Refiner, RefineOutput}
use vatbrain.Watcher.Scan.{
  SyncResult, Cycle, MemoryWatcher, skip, fail, count_written, after_write, after_refine, scan_raw,
  scan_raws, scan_found, scan_providers, scan_all, no_stat, no_result,
}
use vatbrain.Watcher.Scan.Counted.{found_in, found_by, Follows-length, scan_all-Settles}
use vatbrain.Watcher.Seen.{
  RawMemory, SeenCache, seen_key, has_seen, mark_seen, MemoryProvider, list_providers,
}

-- What a cache does that holds `cap` keys at most: it contains what was added last, drops nothing while it
-- is not full, and grows by one key at most.
pub record IsBounded {C : Type 0} (cache : SeenCache C) (cap : ℕ) : Type 0 where
  pub size : C → ℕ
  pub added : (k : String) (c : C) → cache.contains k (cache.add k c) ≡ true
  pub kept :
      (j k : String) (c : C)
      → size c < cap
      → cache.contains k c ≡ true
      → cache.contains k (cache.add j c) ≡ true
  pub grows : (k : String) (c : C) → size (cache.add k c) ≤ suc (size c)

module _ {W C S : Type 0} ⦃d : Float64 W⦄ (cache : SeenCache C) (store : MemoryStore W S)
    (decode : Text → Option (RefineOutput W)) (refiner : Refiner W)
    (embedder : Option (Text → Option (List W))) (fresh : ℕ → Uuid)
    (clock link_clock : ℕ → Time) where
  abbrev IsSeen : C → RawMemory → Type 0
  IsSeen c raw = has_seen cache raw.source_uri raw.content_hash c ≡ true

  abbrev GivesSeen : C → Result (List RawMemory) → Type 0
  GivesSeen c (ok raws) = All (IsSeen c) raws
  GivesSeen c (err e) = Unit

  -- Whatever is seen stays seen.
  abbrev Grows : C → C → Type 0
  Grows c c' = (raw : RawMemory) → IsSeen c raw → IsSeen c' raw

  abbrev raws_step : List RawMemory → Cycle C S → Cycle C S
  raws_step = scan_raws cache store decode refiner embedder fresh clock link_clock

  abbrev found_step : String → Result (List RawMemory) → Cycle C S → Cycle C S
  found_step = scan_found cache store decode refiner embedder fresh clock link_clock

  abbrev providers_step : List MemoryProvider → Cycle C S → Cycle C S
  providers_step = scan_providers cache store decode refiner embedder fresh clock link_clock

  after_write-seen :
      (ep : EpisodicMemory W) (r : Result Done × S) (c : Cycle C S)
      → (after_write cache store decode refiner embedder fresh clock link_clock ep r c).seen
        ≡ c.seen
  unfolding after_write fail count_written
  after_write-seen ep (ok _, s) c = refl
  after_write-seen ep (err e, s) c = refl

  after_refine-seen :
      (m : Option (EpisodicMemory W)) (c : Cycle C S)
      → (after_refine cache store decode refiner embedder fresh clock link_clock m c).seen ≡ c.seen
  unfolding after_refine skip
  after_refine-seen none c = refl
  after_refine-seen (some ep) c = after_write-seen ep (store.write_episodic ep c.memories) c

  module _ (cap : ℕ) (bound : IsBounded cache cap) where
    scan_raw-sees :
        (raw : RawMemory) (c : Cycle C S)
        → bound.size c.seen < cap
        → let c' = scan_raw cache store decode refiner embedder fresh clock link_clock raw c in
          Grows c.seen c'.seen × IsSeen c'.seen raw × (bound.size c'.seen ≤ suc (bound.size c.seen))
    unfolding scan_raw skip has_seen mark_seen
    scan_raw-sees raw c small =
        let k = seen_key raw.source_uri raw.content_hash in
        elim (Bool-cases (cache.contains k c.seen)) [
          | inl e ↦ rw e (λ o h. h, e, omega arith)
          | inr e ↦
              rw (e, after_refine-seen)
                (
                  λ o h. bound.kept k (seen_key o.source_uri o.content_hash) c.seen small h,
                  bound.added k c.seen,
                  bound.grows k c.seen,
                )
        ]

    scan_raws-sees :
        (raws : List RawMemory) (c : Cycle C S)
        → bound.size c.seen + length raws ≤ cap
        → let c' = raws_step raws c in
          Grows c.seen c'.seen
          × All (IsSeen c'.seen) raws
          × (bound.size c'.seen ≤ bound.size c.seen + length raws)
    unfolding scan_raws
    scan_raws-sees [] c small = (λ o h. h, tt, omega arith)
    scan_raws-sees (raw ∷ raws) c small =
        let (g, h, l) = scan_raw-sees raw c (omega arith) in
        let (g', hs, l') =
          scan_raws-sees raws
            (scan_raw cache store decode refiner embedder fresh clock link_clock raw c)
            (omega arith) in
        (λ o i. g' o (g o i), (g' raw h, hs), omega arith)

    scan_found-sees :
        (name : String) (r : Result (List RawMemory)) (c : Cycle C S)
        → bound.size c.seen + length (found_in r) ≤ cap
        → let c' = found_step name r c in
          Grows c.seen c'.seen
          × GivesSeen c'.seen r
          × (bound.size c'.seen ≤ bound.size c.seen + length (found_in r))
    unfolding scan_found
    scan_found-sees name (err e) c small = (λ o h. h, tt, omega arith)
    scan_found-sees name (ok raws) c small = scan_raws-sees raws _ small

    GivesSeen-Grows :
        (c c' : C) (r : Result (List RawMemory)) → Grows c c' → GivesSeen c r → GivesSeen c' r
    GivesSeen-Grows c c' (err e) g h = tt
    GivesSeen-Grows c c' (ok raws) g h = All-imp {P = IsSeen c} {Q = IsSeen c'} g raws h

    scan_providers-sees :
        (ps : List MemoryProvider) (c : Cycle C S)
        → bound.size c.seen + length (found_by ps) ≤ cap
        → let c' = providers_step ps c in
          Grows c.seen c'.seen × All (λ (p : MemoryProvider). GivesSeen c'.seen p.scan) ps
    unfolding scan_providers
    scan_providers-sees [] c small = (λ o h. h, tt)
    scan_providers-sees (p ∷ ps) c small =
        let c₁ = record c {
          result = record c.result { adapters_scanned = c.result.adapters_scanned + 1 };
        } in
        let c₂ = found_step p.name p.scan c₁ in
        let len = length-append (found_in p.scan) (found_by ps) in
        let (g, h, l) = scan_found-sees p.name p.scan c₁ (omega (arith, len, small)) in
        let (g', hs) = scan_providers-sees ps c₂ (omega (arith, len, small, l)) in
        (λ o i. g' o (g o i), (GivesSeen-Grows c₂.seen (providers_step ps c₂).seen p.scan g' h, hs))

  -- A cycle that only skips.
  abbrev IsIdle : Cycle C S → Cycle C S → Type 0
  IsIdle c c' =
      (c'.seen ≡ c.seen)
      × (c'.memories ≡ c.memories)
      × (c'.result.total_written ≡ c.result.total_written)
      × (c'.result.total_failed ≡ c.result.total_failed)

  scan_raws-IsIdle :
      (raws : List RawMemory) (c : Cycle C S)
      → All (IsSeen c.seen) raws
      → IsIdle c (raws_step raws c)
  unfolding scan_raws skip
  scan_raws-IsIdle [] c h = (refl, refl, refl, refl)
  scan_raws-IsIdle (raw ∷ raws) c (h, hs) =
      let e : scan_raw cache store decode refiner embedder fresh clock link_clock raw c ≡ skip c =
        rw (h, scan_raw) refl in
      subst (λ x. IsIdle c (raws_step raws x)) (sym e) (scan_raws-IsIdle raws (skip c) hs)

  scan_found-IsIdle :
      (name : String) (r : Result (List RawMemory)) (c : Cycle C S)
      → GivesSeen c.seen r
      → IsIdle c (found_step name r c)
  unfolding scan_found
  scan_found-IsIdle name (err e) c h = (refl, refl, refl, refl)
  scan_found-IsIdle name (ok raws) c h = scan_raws-IsIdle raws _ h

  scan_providers-IsIdle :
      (ps : List MemoryProvider) (c : Cycle C S)
      → All (λ (p : MemoryProvider). GivesSeen c.seen p.scan) ps
      → IsIdle c (providers_step ps c)
  unfolding scan_providers
  scan_providers-IsIdle [] c h = (refl, refl, refl, refl)
  scan_providers-IsIdle (p ∷ ps) c (h, hs) =
      let c₁ = record c {
        result = record c.result { adapters_scanned = c.result.adapters_scanned + 1 };
      } in
      let (k, m, n, f) = scan_found-IsIdle p.name p.scan c₁ h in
      let (k', m', n', f') =
        scan_providers-IsIdle ps (found_step p.name p.scan c₁)
          (subst (λ x. All (λ (p : MemoryProvider). GivesSeen x p.scan) ps) (sym k) hs) in
      (k' ∙ k, m' ∙ m, n' ∙ n, f' ∙ f)

module _ {W C S : Type 0} ⦃d : Float64 W⦄ (cache : SeenCache C) (store : MemoryStore W S)
    (decode : Text → Option (RefineOutput W)) (refiner : Refiner W)
    (embedder : Option (Text → Option (List W))) (link_clock : ℕ → Time) where
  abbrev scan_with : (ℕ → Uuid) → (ℕ → Time) → MemoryWatcher C S → SyncResult × MemoryWatcher C S
  scan_with fresh clock = scan_all cache store decode refiner embedder fresh clock link_clock

  -- Over any store, and where the cache, which is bounded, has room for as many keys as the first scan finds
  -- memories, a scan that follows it over the same files skips all that it finds, and leaves the store as it
  -- is. So a memory whose write failed is not tried again.
  pub scan_all-repeats :
      (cap : ℕ) (bound : IsBounded cache cap) (fresh fresh' : ℕ → Uuid) (clock clock' : ℕ → Time)
      (w : MemoryWatcher C S)
      → bound.size w.seen + length (found_by (list_providers w.registry)) ≤ cap
      → let w₁ = (scan_with fresh clock w).1 in
        let (r, w₂) = scan_with fresh' clock' w₁ in
        (r.total_skipped ≡ r.total_found)
        × (r.total_written ≡ 0)
        × (r.total_failed ≡ 0)
        × (w₂.memories ≡ w₁.memories)
        × (w₂.seen ≡ w₁.seen)
  unfolding scan_all no_result no_stat
  scan_all-repeats cap bound fresh fresh' clock clock' w small =
      let ps = list_providers w.registry in
      let start : C → S → Cycle C S = λ seen memories. record {
        result = no_result;
        stat = no_stat;
        per_provider = empty;
        seen = seen;
        memories = memories;
        refined = 0;
      } in
      let (_, hs) =
        scan_providers-sees cache store decode refiner embedder fresh clock link_clock cap bound ps
          (start w.seen w.memories) small in
      let w₁ = (scan_with fresh clock w).1 in
      let (k, m, n, f) =
        scan_providers-IsIdle cache store decode refiner embedder fresh' clock' link_clock ps
          (start w₁.seen w₁.memories) hs in
      let (os, number, follows, written, skipped, failed, total, _) =
        scan_all-Settles cache store decode refiner embedder fresh' clock' link_clock w₁ in
      let each =
        Follows-length cache store decode refiner embedder fresh' clock' link_clock follows in
      (omega (arith, written, skipped, failed, total, each, n, f), n, f, m, k)
