-- ===== src/Store/Memory/Found.antt =====
-- What SearchEpisodic of internal/store/memory/memory_store.go finds without an embedding.
use mathlib.Core.List.{Perm, perm_middle}
use mathlib.Core.List.Perm
use mathlib.Core.Bool.{false≢true}
use mathlib.Core.Path.{subst}
use vatbrain.Prelude.{
  ℕ, ◌≤◌, ◌≡◌, sym, string_eq, nat_eq, Bool, true, not, none, some, List, ◌++◌, All, length, take,
  drop, keep, keep-All, length-drop, ◌<◌, ◌∙◌, [], ◌∷◌, All-imp, All-Unit, length-take,
  take-append-drop, Bool-cases, inl, inr, if◌then◌else◌, arith,
}
use vatbrain.Prelude.Dict.{values}
use vatbrain.Prelude.Int.{cut_limit, positive, pos_part}
use vatbrain.Prelude.Result.{ok}
use vatbrain.Prelude.Sort.{
  sort_by, top-perm, IsSorted, IsStrictWeak, sort_by-IsSorted, All-sort_by, length-sort_by,
}
use vatbrain.Float.{Float64}
use vatbrain.Models.Common.{Time, after}
use vatbrain.Models.Episodic.{EpisodicMemory, effective_occurred_at}
use vatbrain.Store.{EpisodicSearchRequest}
use vatbrain.Store.Memory.Search.{
  skipped, candidates_of, newer, heavier, ranked_by_weight, search_episodic,
}
use vatbrain.Store.Memory.State.{Store}
use vatbrain.Store.Memory.Matched.{IsMatch, happened_at, skipped-IsMatch, IsMatch-skipped}

-- No later element is of more than an earlier one.
abbrev pub Falling {ℓ} : {A : Type ℓ} → (A → ℕ) → List A → Type 0
Falling f [] = Unit
Falling f (x ∷ xs) = All (λ y. f y ≤ f x) xs × Falling f xs

not-not-true : (b : Bool) → not (not b) ≡ true → b ≡ true
not-not-true b h = ground (arith, h)

keep-perm :
    {A : Type 0} (p : A → Bool) (xs : List A) → Perm (keep p xs ++ keep (λ x. not (p x)) xs) xs
keep-perm p [] = Perm.refl _
keep-perm p (x ∷ xs) = elim (Bool-cases (p x)) [
  | inl e ↦ rw e (Perm.cons x (keep-perm p xs))
  | inr e ↦ rw e (
      Perm.trans (perm_middle (keep p xs) (keep (λ x. not (p x)) xs))
        (Perm.cons x (keep-perm p xs)))
]

module _ {W : Type 0} ⦃d : Float64 W⦄ where
  -- The order that the request asks for.
  abbrev pub order_of : EpisodicSearchRequest W → EpisodicMemory W → EpisodicMemory W → Bool
  order_of req = if req.sort_by_occurred_at then newer else heavier

  newer-IsStrictWeak : IsStrictWeak (newer {W = W}) (λ m. Unit {0})
  newer-IsStrictWeak = record {
    asym = λ x y p q h. ground arith;
    trans = λ x y z p q r h k. ground arith;
  }

  -- the limit of a search
  abbrev pub limit_of : EpisodicSearchRequest W → ℕ
  limit_of req = if positive req.limit then pos_part req.limit else 10

  candidates_of-All :
      (req : EpisodicSearchRequest W) (s : Store W) → All (IsMatch req) (candidates_of req s)
  unfolding candidates_of
  candidates_of-All req s =
      All-imp (λ m h. skipped-IsMatch req m (ground arith)) _
        (keep-All (λ m. not (skipped req m)) (values s.episodics))

  Falling-sorted : (ms : List (EpisodicMemory W)) → IsSorted newer ms → Falling happened_at ms
  unfolding effective_occurred_at
  Falling-sorted [] h = tt
  Falling-sorted (m ∷ ms) (h, hs) = (All-imp (λ x k. ground (arith, k)) ms h, Falling-sorted ms hs)

  ranked_by_weight-order :
      (req : EpisodicSearchRequest W) (ms : List (EpisodicMemory W))
      → ranked_by_weight req ms
        ≡ take (cut_limit req.limit 10 (length ms)) (sort_by (order_of req) ms)
  unfolding ranked_by_weight
  ranked_by_weight-order req ms = elim (Bool-cases req.sort_by_occurred_at) [
    | inl e ↦ rw e
    | inr e ↦ rw e
  ]

  -- What is found, in order, and what is left out for the limit: the memories that match, all of them,
  -- beside those that do not, and as many found as the limit has, or all.
  pub record IsFound (req : EpisodicSearchRequest W) (s : Store W)
      (ms left_out : List (EpisodicMemory W)) : Type 0 where
    pub all_match : All (IsMatch req) (ms ++ left_out)
    pub no_other :
        (others : List (EpisodicMemory W)) × Perm ((ms ++ left_out) ++ others) (values s.episodics)
        × All (λ m. IsMatch req m → ⊥) others
    pub limited : length ms ≤ limit_of req
    pub whole : length ms < limit_of req → length left_out ≡ 0

  top-IsFound :
      (req : EpisodicSearchRequest W) (s : Store W)
      (less : EpisodicMemory W → EpisodicMemory W → Bool)
      → let sorted = sort_by less (candidates_of req s) in
        let n = cut_limit req.limit 10 (length (candidates_of req s)) in
        IsFound req s (take n sorted) (drop n sorted)
  unfolding candidates_of
  top-IsFound req s less =
      let cs = candidates_of req s in
      let sorted = sort_by less cs in
      let n = cut_limit req.limit 10 (length cs) in
      let others = keep (λ m. not (not (skipped req m))) (values s.episodics) in
      let match = All-sort_by less (IsMatch req) cs (candidates_of-All req s) in
      let joined = take-append-drop n sorted in
      let len = length-sort_by less cs in
      record {
        all_match = subst (All (IsMatch req)) (sym joined) match;
        no_other = (
          others,
          Perm.trans (Perm.append_right others (top-perm less n cs))
              (keep-perm (λ m. not (skipped req m)) (values s.episodics)),
          All-imp
              (λ m h k. false≢true (sym (IsMatch-skipped req m k) ∙ not-not-true (skipped req m) h))
              _ (keep-All (λ m. not (not (skipped req m))) (values s.episodics)),
        );
        limited = ground (arith, length-take n sorted, len);
        whole = λ h. ground (arith, length-take n sorted, length-drop n sorted, len, h);
      }

  -- Without an embedding, `SearchEpisodic` succeeds and leaves the store as it was. What it returns
  -- matches the request in project, language, task, weight, state and time, and with what it leaves out it
  -- is all of the stored memories that do; it is as long as the limit (10 if that is not positive), or
  -- nothing is left out.
  pub search_episodic-IsFound :
      (req : EpisodicSearchRequest W) (s : Store W)
      → req.embedding ≡ none
      → (ms : List (EpisodicMemory W)) × (left_out : List (EpisodicMemory W)) × (search_episodic req
            s
          ≡ (ok ms, s))
        × IsFound req s ms left_out
  unfolding search_episodic
  search_episodic-IsFound req s e =
      let cs = candidates_of req s in
      let n = cut_limit req.limit 10 (length cs) in
      let sorted = sort_by (order_of req) cs in
      (
        take n sorted,
        drop n sorted,
        rw (e, ranked_by_weight-order),
        top-IsFound req s (order_of req),
      )

  -- When the request sorts by time and gives no embedding, what is returned and then what is left out
  -- goes from the newest memory to the oldest, by when it happened, over all stored memories that match.
  pub search_episodic-newest :
      (req : EpisodicSearchRequest W) (s : Store W)
      → req.embedding ≡ none
      → req.sort_by_occurred_at ≡ true
      → (ms : List (EpisodicMemory W)) × (left_out : List (EpisodicMemory W)) × (search_episodic req
            s
          ≡ (ok ms, s))
        × IsFound req s ms left_out
        × Falling happened_at (ms ++ left_out)
  unfolding search_episodic effective_occurred_at
  search_episodic-newest req s e by_time =
      let cs = candidates_of req s in
      let n = cut_limit req.limit 10 (length cs) in
      let sorted = sort_by newer cs in
      let down =
        Falling-sorted sorted (sort_by-IsSorted newer _ newer-IsStrictWeak cs (All-Unit cs)) in
      (
        take n sorted,
        drop n sorted,
        rw (e, ranked_by_weight-order, by_time),
        top-IsFound req s newer,
        subst (Falling happened_at) (sym (take-append-drop n sorted)) down,
      )

  -- The default order of `SearchEpisodic` is not transitive. Of three memories of equal weight, let
  -- `x` be accessed after `y`, `z` never accessed, `y` created after `z` and `z` after `x`: then the
  -- comparison puts `x` before `y`, `y` before `z` and `z` before `x`.
  pub heavier_cycle :
      (x y z : EpisodicMemory W) (t u : Time)
      → d.eq x.weight y.weight ≡ true
      → d.eq y.weight z.weight ≡ true
      → d.eq z.weight x.weight ≡ true
      → x.last_accessed_at ≡ some t
      → y.last_accessed_at ≡ some u
      → z.last_accessed_at ≡ none
      → after t u ≡ true
      → after y.created_at z.created_at ≡ true
      → after z.created_at x.created_at ≡ true
      → (heavier x y ≡ true) × (heavier y z ≡ true) × (heavier z x ≡ true)
  unfolding heavier
  heavier_cycle x y z t u e₁ e₂ e₃ a b c h₁ h₂ h₃ =
      (rw (e₁, a, b) h₁, rw (e₂, b, c) h₂, rw (e₃, c) h₃)
