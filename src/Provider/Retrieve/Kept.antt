-- ===== src/Provider/Retrieve/Kept.antt =====
-- What the retrieval of internal/provider/retrieve.go returns.
use vatbrain.Prelude.{
  ℕ, ◌⊎◌, string_eq, zero, suc, ◌≤◌, ◌≡◌, refl, sym, ap, ◌∙◌, Bool, Bool-cases, true, false, not,
  ◌&&◌, inl, inr, String, nat_eq, ◌==◌, List, [], ◌∷◌, Option, map, any, length, length-take, keep,
  take, drop, All, All-map, All-take, All-append, In, In-All, keep-All_imp, arith,
}
use vatbrain.Prelude.Int.{ℤ}
use vatbrain.Prelude.Result.{Result, ok, err, store_failed}
use vatbrain.Prelude.Sort.{All-sort_by}
use vatbrain.Prelude.Text.{Text}
use vatbrain.Float.{Float64, zero_f}
use vatbrain.Models.Common.{is_zero}
use vatbrain.Models.Episodic.{EpisodicMemory}
use vatbrain.Models.Pitfall.{PitfallMemory, injectable}
use vatbrain.Store.{MemoryStore, EpisodicScanItem}
use vatbrain.Provider.Condense.{bigram_overlap}
use vatbrain.Provider.Derive.{TimeWindow}
use vatbrain.Provider.Retrieve.{
  Scored, limit_or, by_score, in_window, of_item, pool_of, newest_first, lexical_recall,
  scored_pitfall, ranked_pitfalls, pitfall_request, ranked, retrieve_pitfalls,
}

take-le : {A : Type 0} (n : ℕ) (xs : List A) → length (take n xs) ≤ n
take-le n xs = let h = length-take n xs in omega (arith, h)

All-drop : {A : Type 0} (P : A → Type 0) (n : ℕ) (xs : List A) → All P xs → All P (drop n xs)
All-drop P zero xs h = h
All-drop P (suc n) [] h = h
All-drop P (suc n) (x ∷ xs) (h, hs) = All-drop P n xs hs

module _ {W : Type 0} ⦃d : Float64 W⦄ where
  by_score-All :
      {A : Type 0} (P : Scored W A → Type 0) (xs : List (Scored W A))
      → All P xs
      → All (λ (x : Scored W A). P x × (d.lt zero_f x.score ≡ true)) (by_score xs)
  unfolding by_score
  by_score-All {A = A} P xs h =
      All-sort_by _ (λ (x : Scored W A). P x × (d.lt zero_f x.score ≡ true)) _
        (keep-All_imp P (λ (x : Scored W A). P x × (d.lt zero_f x.score ≡ true))
          (λ (x : Scored W A). d.lt zero_f x.score) xs (λ x p t. (p, t)) h)

  -- The memory of a scanned item that passes the guards and overlaps the question.
  pub record IsRecalled (project : String) (w : TimeWindow) (query : Text)
      (items : List (EpisodicScanItem W)) (m : EpisodicMemory W) : Type 0 where
    pub item : EpisodicScanItem W
    pub scanned : In item items
    pub same : m ≡ of_item item
    pub passes : in_window project w item ≡ true
    pub of_project : (project ≡ "") ⊎ (item.project_id ≡ project)
    pub from : (w.after ≡ 0) ⊎ (w.after ≤ item.occurred_at)
    pub until : (w.before ≡ 0) ⊎ (item.occurred_at ≤ w.before)
    pub overlaps : d.lt zero_f (bigram_overlap query item.summary) ≡ true

  in_window-of_project :
      (project : String) (w : TimeWindow) (item : EpisodicScanItem W)
      → in_window project w item ≡ true
      → (project ≡ "") ⊎ (item.project_id ≡ project)
  unfolding in_window
  in_window-of_project project w item h = elim (Bool-cases (project == "")) [
    | inl e ↦ inl ((string_eq.beq_iff project "").0 e)
    | inr e ↦
        let q : (item.project_id == project) ≡ true = ground (arith, e, h) in
        inr ((string_eq.beq_iff item.project_id project).0 q)
  ]

  in_window-from :
      (project : String) (w : TimeWindow) (item : EpisodicScanItem W)
      → in_window project w item ≡ true
      → (w.after ≡ 0) ⊎ (w.after ≤ item.occurred_at)
  unfolding in_window
  in_window-from project w item h = elim (Bool-cases (is_zero w.after)) [
    | inl e ↦ inl (ground (arith, e))
    | inr e ↦ inr (ground (arith, e, h))
  ]

  in_window-until :
      (project : String) (w : TimeWindow) (item : EpisodicScanItem W)
      → in_window project w item ≡ true
      → (w.before ≡ 0) ⊎ (item.occurred_at ≤ w.before)
  unfolding in_window
  in_window-until project w item h = elim (Bool-cases (is_zero w.before)) [
    | inl e ↦ inl (ground (arith, e))
    | inr e ↦ inr (ground (arith, e, h))
  ]

  abbrev IsPooled :
      String → TimeWindow → Text → List (EpisodicScanItem W) → Scored W (EpisodicMemory W) → Type 0
  IsPooled project w query items x =
      (item : EpisodicScanItem W) × In item items
      × (x.item ≡ of_item item)
      × (in_window project w item ≡ true)
      × (x.score ≡ bigram_overlap query item.summary)

  pool_of-IsPooled :
      (project : String) (w : TimeWindow) (query : Text) (all : List (EpisodicScanItem W))
      (seen : List ℕ) (items : List (EpisodicScanItem W))
      → All (λ item. In item all) items
      → All (IsPooled project w query all) (pool_of project w query seen items)
  unfolding pool_of
  pool_of-IsPooled project w query all seen [] h = tt
  pool_of-IsPooled project w query all seen (item ∷ items) (i, is) =
      elim (Bool-cases (in_window project w item && not (any (λ j. j == item.id) seen))) [
        | inl e ↦ rw e (
          (item, i, refl, ground arith, refl),
          pool_of-IsPooled project w query all (item.id ∷ seen) items is,
        )
        | inr e ↦ rw e (pool_of-IsPooled project w query all seen items is)
      ]

  newest_first-All :
      (P : EpisodicMemory W → Type 0) (newest : Bool) (limit : ℕ) (ms : List (EpisodicMemory W))
      → All P ms
      → All P (newest_first newest limit ms)
  unfolding newest_first
  newest_first-All P false limit ms h = h
  newest_first-All P true limit ms h =
      All-append P _ (drop limit ms) (All-sort_by _ P (take limit ms) (All-take P limit ms h))
        (All-drop P limit ms h)

  -- What the lexical fallback recalls is within the limit, and each memory of it is a scanned one of the
  -- project and of the time window of the question, whose summary overlaps the question.
  pub lexical_recall-IsRecalled :
      (project : String) (w : TimeWindow) (query : Text) (limit : ℕ)
      (items : List (EpisodicScanItem W))
      → (length (lexical_recall project w query limit items) ≤ limit)
        × All (IsRecalled project w query items) (lexical_recall project w query limit items)
  unfolding lexical_recall
  lexical_recall-IsRecalled project w query limit items =
      let pool = pool_of project w query [] items in
      let good : All (IsRecalled project w query items)
          (map (λ (x : Scored W (EpisodicMemory W)). x.item) (by_score pool)) =
        All-map (λ (x : Scored W (EpisodicMemory W)). x.item)
          (λ x. IsPooled project w query items x × (d.lt zero_f x.score ≡ true))
          (IsRecalled project w query items) (by_score pool)
          (λ x ((item, i, same, pass, e), t). record {
            item = item;
            scanned = i;
            same = same;
            passes = pass;
            of_project = in_window-of_project project w item pass;
            from = in_window-from project w item pass;
            until = in_window-until project w item pass;
            overlaps = ap (d.lt zero_f) (sym e) ∙ t;
          })
          (by_score-All (IsPooled project w query items) pool (
            pool_of-IsPooled project w query items [] items
              (In-All (λ x. In x items) items (λ x i. i)))) in
      (
        take-le limit _,
        All-take (IsRecalled project w query items) limit _
            (newest_first-All (IsRecalled project w query items) w.sort_newest limit _ good),
      )

  -- What is recalled of the pitfalls of a search.
  abbrev pub IsSurfaced : Text → List (PitfallMemory W) → PitfallMemory W → Type 0
  IsSurfaced query ps p =
      In p ps × (injectable p ≡ true) × (d.lt zero_f (scored_pitfall query p).score ≡ true)

  ranked_pitfalls-IsSurfaced :
      (query : Text) (limit : ℕ) (ps : List (PitfallMemory W))
      → (length (ranked_pitfalls query limit ps) ≤ limit)
        × All (IsSurfaced query ps) (ranked_pitfalls query limit ps)
  unfolding ranked_pitfalls scored_pitfall
  ranked_pitfalls-IsSurfaced query limit ps =
      let P = λ (x : Scored W (PitfallMemory W)).
        In x.item ps
        × (injectable x.item ≡ true)
        × (x.score ≡ (scored_pitfall query x.item).score) in
      let xs = keep injectable ps in
      (
        take-le limit _,
        All-take (IsSurfaced query ps) limit _ (
            All-map (λ (x : Scored W (PitfallMemory W)). x.item)
              (λ x. P x × (d.lt zero_f x.score ≡ true)) (IsSurfaced query ps)
              (by_score (map (scored_pitfall query) xs))
              (λ x ((i, inj, e), t). (i, inj, ap (d.lt zero_f) (sym e) ∙ t))
              (by_score-All P (map (scored_pitfall query) xs) (
                All-map (scored_pitfall query) (λ p. In p ps × (injectable p ≡ true)) P xs
                  (λ p (i, h). (i, h, refl))
                  (keep-All_imp (λ p. In p ps) (λ p. In p ps × (injectable p ≡ true)) injectable ps
                    (λ p i h. (i, h)) (In-All (λ p. In p ps) ps (λ p i. i)))))),
      )

  -- what becomes of the result of the search
  abbrev pub Surfaces :
      Text → ℕ → Result (List (PitfallMemory W)) → Result (List (PitfallMemory W)) → Type 0
  Surfaces query limit (err e) r = r ≡ err store_failed
  Surfaces query limit (ok ps) r =
      (qs : List (PitfallMemory W)) × (r ≡ ok qs)
      × (length qs ≤ limit)
      × All (IsSurfaced query ps) qs

  ranked-Surfaces :
      (query : Text) (limit : ℕ) (r : Result (List (PitfallMemory W)))
      → Surfaces query limit r (ranked query limit r)
  unfolding ranked
  ranked-Surfaces query limit (err e) = refl
  ranked-Surfaces query limit (ok ps) =
      let (few, all) = ranked_pitfalls-IsSurfaced query limit ps in
      (ranked_pitfalls query limit ps, refl, few, all)

module _ {W S : Type 0} ⦃d : Float64 W⦄ (store : MemoryStore W S)
    (embed : Text → Option (List W)) where
  -- Over any store, the pitfalls for a question are within the limit, and each is one that the store found,
  -- may be injected, and has a positive score; where the search fails, so does the retrieval.
  pub retrieve_pitfalls-Surfaces :
      (project : String) (query : Text) (limit : ℤ) (s : S)
      → let (r, s') = store.search_pitfall (pitfall_request project) s in
        Surfaces query (limit_or 3 limit) r (retrieve_pitfalls store embed project query limit s).0
        × ((retrieve_pitfalls store embed project query limit s).1 ≡ s')
  unfolding retrieve_pitfalls
  retrieve_pitfalls-Surfaces project query limit s =
      let (r, s') = store.search_pitfall (pitfall_request project) s in
      (ranked-Surfaces query (limit_or 3 limit) r, refl)
