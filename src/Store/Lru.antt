-- ===== src/Store/Lru.antt =====
-- internal/store/lru/cache.go: a cache whose items expire. The cache under it is golang-lru; it is a
-- parameter, with what the code relies on as laws. A lock makes each part that it holds one step.
use vatbrain.Prelude.{
  ℕ, ◌+◌, ◌≡◌, refl, sym, ap, ◌∙◌, arith, Bool, true, ◌&&◌, Bool-cases, inl, inr, Option, none,
  some, ltb, if◌then◌else◌,
}
use vatbrain.Prelude.Int.{ℤ, positive, pos_part}
use vatbrain.Models.Common.{Time, after}
use mathlib.Core.Path.{subst}

pub record CacheEntry (V : Type 0) : Type 0 where
  pub value : V
  pub expires : Time

pub record LruCache (C K E : Type 0) : Type 0 where
  pub get : K → C → Option E × C
  pub add : K → E → C → C
  pub remove : K → C → C
  pub purge : C → C
  pub len : C → ℕ

-- What the code relies on, for a cache with room for an item.
pub record IsLru {C K E : Type 0} (ops : LruCache C K E) : Type 0 where
  pub get-add : (k : K) (e : E) (c : C) → (ops.get k (ops.add k e c)).0 ≡ some e
  pub get-remove : (k : K) (c : C) → (ops.get k (ops.remove k c)).0 ≡ none
  pub get-purge : (k : K) (c : C) → (ops.get k (ops.purge c)).0 ≡ none

-- `ttl` is in nanoseconds; items do not expire where it is not positive.
pub record HotCache (C : Type 0) : Type 0 where
  pub cache : C
  pub ttl : ℤ

module _ {C K V : Type 0} (ops : LruCache C K (CacheEntry V)) where
  abbrev expired : ℤ → Time → CacheEntry V → Bool
  expired ttl now e = positive ttl && after now e.expires

  got : Time → K → ℤ → Option (CacheEntry V) × C → Option V × HotCache C
  got now k ttl (none, c) = (none, record { cache = c; ttl = ttl })
  got now k ttl (some e, c) =
      if expired ttl now e
      then (none, record { cache = ops.remove k c; ttl = ttl })
      else (some e.value, record { cache = c; ttl = ttl })

  -- `HotCache.Get`
  unfoldable pub hot_get : Time → K → HotCache C → Option V × HotCache C
  unfolding got
  hot_get now k h = got now k h.ttl (ops.get k h.cache)

  unfoldable pub hot_set : Time → K → V → HotCache C → HotCache C
  hot_set now k v h = record h {
    cache =
        ops.add k
          (record { value = v; expires = if positive h.ttl then now + pos_part h.ttl else 0 })
          h.cache;
  }

  unfoldable pub hot_remove : K → HotCache C → HotCache C
  hot_remove k h = record h { cache = ops.remove k h.cache }

  unfoldable pub hot_clear : HotCache C → HotCache C
  hot_clear h = record h { cache = ops.purge h.cache }

  unfoldable pub hot_len : HotCache C → ℕ
  hot_len h = ops.len h.cache

  abbrev Answers : Time → Time → K → CacheEntry V → ℤ → Option V × HotCache C → Type 0
  Answers now again k e ttl (r, h) =
      (r ≡ (if expired ttl now e then none else some e.value))
      × (expired ttl now e ≡ true → (hot_get again k h).0 ≡ none)

  got-none :
      (again : Time) (k : K) (ttl : ℤ) (r : Option (CacheEntry V) × C)
      → r.0 ≡ none
      → (got again k ttl r).0 ≡ none
  unfolding got
  got-none again k ttl r h = subst (λ x. (got again k ttl (x, r.1)).0 ≡ none) (sym h) refl

  got-Answers :
      (laws : IsLru ops) (now again : Time) (k : K) (e : CacheEntry V) (ttl : ℤ) (c : C)
      → Answers now again k e ttl (got now k ttl (some e, c))
  unfolding got hot_get
  got-Answers laws now again k e ttl c = elim (Bool-cases (expired ttl now e)) [
    | inl x ↦
        rw x (refl, λ y. got-none again k ttl (ops.get k (ops.remove k c)) (laws.get-remove k c))
    | inr x ↦ rw x (refl, λ y. ground (arith, x, y))
  ]

  -- What is set is got until it expires, if it expires at all; a get that finds it expired takes it out, so
  -- that no later one gets it, whatever its clock says. What is removed or cleared is not got.
  pub hot_set-get :
      (laws : IsLru ops) (now later again : Time) (k : K) (v : V) (h : HotCache C)
      → let (r, h') = hot_get later k (hot_set now k v h) in
        let old = positive h.ttl && ltb (now + pos_part h.ttl) later in
        (r ≡ (if old then none else some v))
        × (old ≡ true → (hot_get again k h').0 ≡ none)
        × ((hot_get later k (hot_remove k h)).0 ≡ none)
        × ((hot_get later k (hot_clear h)).0 ≡ none)
  unfolding hot_set hot_remove hot_clear hot_get
  hot_set-get laws now later again k v h =
      let e : CacheEntry V = record {
        value = v;
        expires = if positive h.ttl then now + pos_part h.ttl else 0;
      } in
      let r = ops.get k (ops.add k e h.cache) in
      let same : expired h.ttl later e ≡ (positive h.ttl && ltb (now + pos_part h.ttl) later) =
        elim (Bool-cases (positive h.ttl)) [ inl p ↦ rw p refl | inr p ↦ rw p refl ] in
      let (value, gone) =
        subst (λ x. Answers later again k e h.ttl (got later k h.ttl (x, r.1)))
          (sym (laws.get-add k e h.cache)) (got-Answers laws later again k e h.ttl r.1) in
      (
        value ∙ ap (λ b. if b then none else some v) same,
        λ old. gone (same ∙ old),
        got-none later k h.ttl (ops.get k (ops.remove k h.cache)) (laws.get-remove k h.cache),
        got-none later k h.ttl (ops.get k (ops.purge h.cache)) (laws.get-purge k h.cache),
      )
