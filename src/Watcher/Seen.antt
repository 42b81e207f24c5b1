-- ===== src/Watcher/Seen.antt =====
-- internal/watcher/provider.go: a raw memory, the set of those that are seen, and the registry of the
-- providers. The cache under the set is golang-lru; it is a parameter, with its two operations. A
-- provider's scan reads files; its outcome is a field.
use Prim.Native.Char.{nul}
use Prim.Native.String.{◌++◌ as str_append}
use vatbrain.Prelude.{Bool, String, string_eq, List, [], ◌∷◌, none, some, is_some, if◌then◌else◌}
use vatbrain.Prelude.Dict.{Dict, lookup, insert, values}
use vatbrain.Prelude.Result.{Result, Done, ok, err, duplicate, not_found}
use vatbrain.Models.Common.{Time}

pub record RawMemory : Type 0 where
  pub provider_name : String
  pub source_uri : String
  pub content : String
  pub front_matter : Dict String String
  pub content_hash : String
  pub modified_at : Time
  pub project_id : String
  pub metadata : Dict String String

-- `Contains` and `Add` of the cache
pub record SeenCache (C : Type 0) : Type 0 where
  pub contains : String → C → Bool
  pub add : String → C → C

-- `seenSet.key`
unfoldable pub seen_key : (uri hash : String) → String
seen_key uri hash = str_append uri (String.◌∷◌ nul hash)

module _ {C : Type 0} (cache : SeenCache C) where
  unfoldable pub has_seen : (uri hash : String) → C → Bool
  unfolding seen_key
  has_seen uri hash c = cache.contains (seen_key uri hash) c

  unfoldable pub mark_seen : (uri hash : String) → C → C
  unfolding seen_key
  mark_seen uri hash c = cache.add (seen_key uri hash) c

  -- `restore`
  unfoldable pub restore_seen : List String → C → C
  restore_seen [] c = c
  restore_seen (k ∷ ks) c = restore_seen ks (cache.add k c)

pub record MemoryProvider : Type 0 where
  pub name : String
  pub scan : Result (List RawMemory)

-- `ProviderRegistry`
abbrev pub ProviderRegistry : Type 0
ProviderRegistry = Dict String MemoryProvider

-- A name that is taken is refused, and the registry stays.
unfoldable pub register : MemoryProvider → ProviderRegistry → Result Done × ProviderRegistry
register p r = if is_some (lookup p.name r) then (err duplicate, r) else (ok tt, insert p.name p r)

unfoldable pub list_providers : ProviderRegistry → List MemoryProvider
list_providers r = values r

unfoldable pub get_provider : String → ProviderRegistry → Result MemoryProvider
get_provider name r = elim (lookup name r) [ none ↦ err not_found | some p ↦ ok p ]

-- The loop of `NewMemoryWatcher`: a provider that is refused is logged.
unfoldable pub register_all : List MemoryProvider → ProviderRegistry → ProviderRegistry
unfolding register
register_all [] r = r
register_all (p ∷ ps) r = register_all ps (register p r).1
