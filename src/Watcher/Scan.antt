-- ===== src/Watcher/Scan.antt =====
-- internal/watcher/watcher.go: a scan cycle over the providers. The clock and the identifiers are
-- parameters, by the number of the memory that is refined; the ticker is not modelled.
pub mod Counted
pub mod Repeated
use vatbrain.Prelude.{
  ℕ, ◌+◌, Bool, true, false, String, string_eq, List, [], ◌∷◌, Option, none, some, length,
  if◌then◌else◌,
}
use vatbrain.Prelude.Dict.{Dict, empty, insert}
use vatbrain.Prelude.Result.{Result, Done, ok, err}
use vatbrain.Prelude.Text.{Text}
use vatbrain.Float.{Float64}
use vatbrain.Models.Common.{Uuid, Time}
use vatbrain.Models.Episodic.{EpisodicMemory}
use vatbrain.Store.{MemoryStore}
use vatbrain.Core.Link.{link_on_write}
use vatbrain.Watcher.Refiner.{Refiner, RefineOutput, refine}
use vatbrain.Watcher.Seen.{
  RawMemory, SeenCache, has_seen, mark_seen, MemoryProvider, ProviderRegistry, list_providers,
}

pub record ScanStat : Type 0 where
  pub new_count : ℕ
  pub skipped_count : ℕ

pub record SyncResult : Type 0 where
  pub adapters_scanned : ℕ
  pub total_found : ℕ
  pub total_written : ℕ
  pub total_skipped : ℕ
  pub total_failed : ℕ

-- The watcher, with the store that it writes to.
pub record MemoryWatcher (C S : Type 0) : Type 0 where
  pub registry : ProviderRegistry
  pub seen : C
  pub last_scan_stats : Dict String ScanStat
  pub memories : S

-- The local variables of a cycle, with the set and the store, and the number of memories refined.
pub record Cycle (C S : Type 0) : Type 0 where
  pub result : SyncResult
  pub stat : ScanStat
  pub per_provider : Dict String ScanStat
  pub seen : C
  pub memories : S
  pub refined : ℕ

unfoldable pub no_stat : ScanStat
no_stat = record { new_count = 0; skipped_count = 0 }

unfoldable pub no_result : SyncResult
no_result = record {
  adapters_scanned = 0;
  total_found = 0;
  total_written = 0;
  total_skipped = 0;
  total_failed = 0;
}

module _ {C S : Type 0} where
  unfoldable pub skip : Cycle C S → Cycle C S
  skip c = record c {
    result = record c.result { total_skipped = c.result.total_skipped + 1 };
    stat = record c.stat { skipped_count = c.stat.skipped_count + 1 };
  }

  unfoldable pub fail : Cycle C S → Cycle C S
  fail c = record c { result = record c.result { total_failed = c.result.total_failed + 1 } }

  unfoldable pub count_written : Cycle C S → Cycle C S
  count_written c = record c {
    result = record c.result { total_written = c.result.total_written + 1 };
    stat = record c.stat { new_count = c.stat.new_count + 1 };
  }

module _ {W C S : Type 0} ⦃d : Float64 W⦄ (cache : SeenCache C) (store : MemoryStore W S)
    (decode : Text → Option (RefineOutput W)) (refiner : Refiner W)
    (embedder : Option (Text → Option (List W))) (fresh : ℕ → Uuid)
    (clock link_clock : ℕ → Time) where
  -- what follows `WriteEpisodic`: the links, best-effort
  unfoldable pub after_write : EpisodicMemory W → Result Done × S → Cycle C S → Cycle C S
  unfolding fail count_written
  after_write ep (err e, s) c = fail (record c { memories = s })
  after_write ep (ok _, s) c =
      let (_, linked) =
        link_on_write store embedder link_clock ep.id ep.summary ep.project_id ep.entity_group
          ep.task_type s in
      count_written (record c { memories = linked })

  unfoldable pub after_refine : Option (EpisodicMemory W) → Cycle C S → Cycle C S
  unfolding after_write skip
  after_refine none c = skip c
  after_refine (some ep) c = after_write ep (store.write_episodic ep c.memories) c

  -- one raw memory
  unfoldable pub scan_raw : RawMemory → Cycle C S → Cycle C S
  unfolding after_refine skip
  scan_raw raw c =
      let marked = record c {
        seen = mark_seen cache raw.source_uri raw.content_hash c.seen;
        refined = c.refined + 1;
      } in
      if has_seen cache raw.source_uri raw.content_hash c.seen
      then skip c
      else after_refine (refine decode refiner (fresh c.refined) (clock c.refined) raw) marked

  unfoldable pub scan_raws : List RawMemory → Cycle C S → Cycle C S
  unfolding scan_raw
  scan_raws [] c = c
  scan_raws (raw ∷ raws) c = scan_raws raws (scan_raw raw c)

  -- one provider, whose statistics are recorded at the end
  unfoldable pub scan_found : String → Result (List RawMemory) → Cycle C S → Cycle C S
  unfolding scan_raws no_stat
  scan_found name (err e) c = c
  scan_found name (ok raws) c =
      let c' = scan_raws raws (record c {
        result = record c.result { total_found = c.result.total_found + length raws };
        stat = no_stat;
      }) in
      record c' { per_provider = insert name c'.stat c'.per_provider }

  unfoldable pub scan_providers : List MemoryProvider → Cycle C S → Cycle C S
  unfolding scan_found
  scan_providers [] c = c
  scan_providers (p ∷ ps) c = scan_providers ps (
      scan_found p.name p.scan (record c {
        result = record c.result { adapters_scanned = c.result.adapters_scanned + 1 };
      }))

  unfoldable pub scan_all : MemoryWatcher C S → SyncResult × MemoryWatcher C S
  unfolding scan_providers no_stat no_result
  scan_all w =
      let c = scan_providers (list_providers w.registry) (record {
        result = no_result;
        stat = no_stat;
        per_provider = empty;
        seen = w.seen;
        memories = w.memories;
        refined = 0;
      }) in
      (
        c.result,
        record w { seen = c.seen; last_scan_stats = c.per_provider; memories = c.memories },
      )
