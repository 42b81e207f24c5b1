-- ===== src/Tests/Lru.antt =====
-- The theorem on internal/store/lru, applied to a cache with room for one item.
use vatbrain.Prelude.{ℕ, nat_eq, ◌==◌, ◌≡◌, refl, arith, true, Option, none, some, if◌then◌else◌}
use vatbrain.Prelude.Int.{pos}
use vatbrain.Store.Lru.{
  CacheEntry, LruCache, IsLru, HotCache, hot_get, hot_set, hot_remove, hot_clear, hot_set-get,
}

abbrev Slot : Type 0
Slot = Option (ℕ × CacheEntry ℕ)

abbrev kept_at : ℕ → Slot → Option (CacheEntry ℕ)
kept_at k none = none
kept_at k (some (j, e)) = if j == k then some e else none

abbrev emptied_at : ℕ → Slot → Slot
emptied_at k none = none
emptied_at k (some (j, e)) = if j == k then none else some (j, e)

abbrev slot : LruCache Slot ℕ (CacheEntry ℕ)
slot = record {
  get = λ k c. (kept_at k c, c);
  add = λ k e c. some (k, e);
  remove = emptied_at;
  purge = λ c. none;
  len = λ c. elim c [ none ↦ 0 | some e ↦ 1 ];
}

slot_removed : (k : ℕ) (c : Slot) → kept_at k (emptied_at k c) ≡ none
slot_removed k none = refl
slot_removed k (some (j, e)) = ground arith

slot-IsLru : IsLru slot
slot-IsLru = record {
  get-add = λ k e c. ground (arith, nat_eq.beq_iff k k);
  get-remove = slot_removed;
  get-purge = λ k c. refl;
}

abbrev one_item : HotCache Slot
one_item = record { cache = some (4, record { value = 9; expires = 50 }); ttl = pos 60 }

hot_set-get_example :
    let (r, h) = hot_get slot 170 7 (hot_set slot 100 7 42 one_item) in
    (r ≡ none)
    × (true ≡ true → (hot_get slot 120 7 h).0 ≡ none)
    × ((hot_get slot 170 7 (hot_remove slot 7 one_item)).0 ≡ none)
    × ((hot_get slot 170 7 (hot_clear slot one_item)).0 ≡ none)
hot_set-get_example = hot_set-get slot slot-IsLru 100 170 120 7 42 one_item
