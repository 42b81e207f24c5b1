-- ===== src/Store/Memory/Has.antt =====
-- What the calls on internal/store/memory/memory_store.go keep of a stored memory.
use mathlib.Core.Option.{some-injective}
use mathlib.Core.Path.{subst}
use vatbrain.Prelude.{
  ◌≡◌, refl, sym, ap, List, [], ◌∷◌, All, All-keep, All-take, All-map, take, length, arith, ◌∙◌,
  Option, some, none, inl, inr, Bool-cases, Option-cases, nat_eq, nat_beq_iff, ◌==◌,
}
use vatbrain.Prelude.Dict.{Dict, lookup, lookup-insert, values}
use vatbrain.Prelude.Dict.Entries.{AllPairs, AllPairs-both, entries-IsFound, values-AllPairs}
use vatbrain.Prelude.Sort.{sort_by, All-sort_by}
use vatbrain.Prelude.Int.{cut_limit}
use vatbrain.Float.{Float64}
use vatbrain.Store.{EpisodicSearchRequest}
use vatbrain.Store.Memory.Search.{
  Scored, scored_of, ranked, ranked_by_weight, ranked_by_embedding, search_episodic, candidates_of,
  newer, heavier, higher_score,
}
use vatbrain.Prelude.Result.{ok}
use vatbrain.Models.Common.{Uuid}
use vatbrain.Models.Episodic.{EpisodicMemory}
use vatbrain.Store.Memory.State.{Store, change_episodic}

module _ {W : Type 0} where
  abbrev pub HasIn : (EpisodicMemory W → Type 0) → Dict Uuid (EpisodicMemory W) → Uuid → Type 0
  HasIn P ms id = (m : EpisodicMemory W) × (lookup id ms ≡ some m) × P m

  -- A memory of that id is stored and has the property.
  abbrev pub Has : (EpisodicMemory W → Type 0) → Store W → Uuid → Type 0
  Has P s id = HasIn P s.episodics id

  abbrev pub IsThere : Store W → Uuid → Type 0
  IsThere s id = Has (λ m. Unit {0}) s id

  -- A change that keeps the property of each memory keeps it in the store.
  pub change_episodic-Has :
      (P : EpisodicMemory W → Type 0) (f : EpisodicMemory W → EpisodicMemory W) (j id : Uuid)
      (s : Store W)
      → ((m : EpisodicMemory W) → P m → P (f m))
      → Has P s id
      → Has P (change_episodic j f s).1 id
  change_episodic-Has P f j id s keeps (m, e, h) = elim (Option-cases (lookup j s.episodics)) [
    | inl n ↦ rw n (m, e, h)
    | inr (m', e') ↦ rw e' (elim (Bool-cases (j == id)) [
      | inl q ↦
          let same : m' ≡ m =
            some-injective _ _
              (sym e' ∙ ap (λ k. lookup k s.episodics) ((nat_beq_iff j id).0 q) ∙ e) in
          (f m', rw (lookup-insert, q), keeps m' (subst P (sym same) h))
      | inr q ↦ (m, rw (lookup-insert, q) e, h)
    ])
  ]

  -- On a stored memory a change succeeds, and what holds of every changed memory holds of it.
  pub change_episodic-runs :
      (P : EpisodicMemory W → Type 0) (f : EpisodicMemory W → EpisodicMemory W) (id : Uuid)
      (s : Store W)
      → ((m : EpisodicMemory W) → P (f m))
      → IsThere s id
      → (change_episodic id f s ≡ (ok tt, (change_episodic id f s).1))
        × Has P (change_episodic id f s).1 id
  change_episodic-runs P f id s all (m, e, u) =
      rw e (refl, (f m, rw (lookup-insert, (nat_beq_iff id id).1 refl), all m))

-- Every memory is stored under its own id.
pub record MemoriesAreKeyed {W : Type 0} (s : Store W) : Type 0 where
  pub keyed : AllPairs (λ id (m : EpisodicMemory W). m.id ≡ id) s.episodics.entries

module _ {W : Type 0} ⦃d : Float64 W⦄ where
  memories-IsThere :
      (s : Store W)
      → MemoriesAreKeyed s
      → All (λ (m : EpisodicMemory W). IsThere s m.id) (values s.episodics)
  memories-IsThere s h =
      values-AllPairs _ _ s.episodics
        (λ k v (same, (w, e)). (w, ap (λ i. lookup i s.episodics) same ∙ e, tt))
        (AllPairs-both _ _ _ h.keyed (entries-IsFound s.episodics))

  scored_of-All :
      (P : EpisodicMemory W → Type 0) (q : List W) (ms : List (EpisodicMemory W))
      → All P ms
      → All (λ (x : Scored W). P x.mem) (scored_of q ms)
  unfolding scored_of
  scored_of-All P q [] h = tt
  scored_of-All P q (m ∷ ms) (h, hs) = ground (arith, scored_of-All P q ms hs)

  ranked_by_weight-All :
      (P : EpisodicMemory W → Type 0) (req : EpisodicSearchRequest W) (ms : List (EpisodicMemory W))
      → All P ms
      → All P (ranked_by_weight req ms)
  unfolding ranked_by_weight
  ranked_by_weight-All P req ms h =
      let n = cut_limit req.limit 10 (length ms) in
      ground (
        arith,
        All-take P n (sort_by newer ms) (All-sort_by newer P ms h),
        All-take P n (sort_by heavier ms) (All-sort_by heavier P ms h),
      )

  ranked_by_embedding-All :
      (P : EpisodicMemory W → Type 0) (q : List W) (req : EpisodicSearchRequest W)
      (ms : List (EpisodicMemory W))
      → All P ms
      → All P (ranked_by_embedding q req ms)
  unfolding ranked_by_embedding
  ranked_by_embedding-All P q req ms h =
      let results = sort_by higher_score (scored_of q ms) in
      let n = cut_limit req.limit 10 (length results) in
      let top =
        All-take (λ (x : Scored W). P x.mem) n results
          (All-sort_by higher_score _ _ (scored_of-All P q ms h)) in
      let by_time = λ (a : Scored W) (b : Scored W). newer a.mem b.mem in
      All-map (λ (x : Scored W). x.mem) (λ (x : Scored W). P x.mem) P _ (λ x k. k)
        (elim (Bool-cases req.sort_by_occurred_at) [
          | inl e ↦ rw e (All-sort_by by_time (λ (x : Scored W). P x.mem) (take n results) top)
          | inr e ↦ rw e top
        ])

  ranked-All :
      (P : EpisodicMemory W → Type 0) (embedding : Option (List W)) (req : EpisodicSearchRequest W)
      (ms : List (EpisodicMemory W))
      → All P ms
      → All P (ranked embedding req ms)
  unfolding ranked
  ranked-All P none req ms h = ranked_by_weight-All P req ms h
  ranked-All P (some q) req ms h =
      ground (arith, ranked_by_weight-All P req ms h, ranked_by_embedding-All P q req ms h)

  -- What `SearchEpisodic` returns is stored.
  pub search_episodic-IsThere :
      (req : EpisodicSearchRequest W) (s : Store W)
      → MemoriesAreKeyed s
      → (ms : List (EpisodicMemory W)) × (search_episodic req s ≡ (ok ms, s))
        × All (λ m. IsThere s m.id) ms
  unfolding search_episodic candidates_of
  search_episodic-IsThere req s h =
      (_, refl, ranked-All _ req.embedding req _ (All-keep _ _ _ (memories-IsThere s h)))
