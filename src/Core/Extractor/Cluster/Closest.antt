-- ===== src/Core/Extractor/Cluster/Closest.antt =====
-- The search of internal/core/pitfall_extractor.go for the closest two clusters.
use mathlib.Core.Bool.{false≢true}
use mathlib.Core.Option.{some-injective}
use mathlib.Core.Path.{subst}
use vatbrain.Prelude.{
  ℕ, suc, ◌+◌, ◌<◌, ◌≤◌, ◌≡◌, refl, sym, ap, ◌∙◌, ◌⊎◌, inl, inr, Bool-cases, true, false, List, [],
  ◌∷◌, none, some, length, All, All-imp, arith,
}
use vatbrain.Float.{Float64, zero_f}
use vatbrain.Float.Laws.{IsOrdered, ◌≼◌}
use vatbrain.Core.Extractor.Cluster.{
  Member, Best, cluster_similarity, no_best, better, best_of, best_from, chosen,
}

-- `P` holds of every two elements, the earlier one first.
abbrev pub Pairwise {ℓ} : {A : Type 0} → (A → A → Type ℓ) → List A → Type ℓ
Pairwise P [] = Unit
Pairwise P (x ∷ xs) = All (P x) xs × Pairwise P xs

pub Pairwise-imp {ℓ κ} :
    {A : Type 0} {P : A → A → Type ℓ} {Q : A → A → Type κ} (f : (x y : A) → P x y → Q x y)
    (xs : List A)
    → Pairwise P xs
    → Pairwise Q xs
Pairwise-imp f [] h = tt
Pairwise-imp {P} {Q} f (x ∷ xs) (h, hs) =
    (All-imp {P = P x} {Q = Q x} (f x) xs h, Pairwise-imp f xs hs)

-- The positions, if there are any, are those of two of the first `n` clusters.
abbrev pub IsPlaced : {W : Type 0} → ℕ → Best W → Type 0
IsPlaced n best = (best.at ≡ none) ⊎ ((i j : ℕ) × (best.at ≡ some (i, j)) × (i < j) × (j < n))

module _ {W : Type 0} ⦃d : Float64 W⦄ where
  better-IsPlaced :
      (n : ℕ) (best : Best W) (i j : ℕ) (a b : List (Member W))
      → i < j
      → j < n
      → IsPlaced n best
      → IsPlaced n (better best i j a b)
  unfolding better
  better-IsPlaced n best i j a b h k p =
      elim (Bool-cases (d.lt best.sim (cluster_similarity a b))) [
        | inl e ↦ rw e (inr (i, j, refl, h, k))
        | inr e ↦ rw e p
      ]

  best_of-IsPlaced :
      (n : ℕ) (best : Best W) (i j : ℕ) (a : List (Member W)) (bs : List (List (Member W)))
      → i < j
      → j + length bs ≤ n
      → IsPlaced n best
      → IsPlaced n (best_of best i j a bs)
  unfolding best_of
  best_of-IsPlaced n best i j a [] h k p = p
  best_of-IsPlaced n best i j a (b ∷ bs) h k p =
      best_of-IsPlaced n (better best i j a b) i (suc j) a bs (omega arith) (omega arith)
        (better-IsPlaced n best i j a b h (omega arith) p)

  pub best_from-IsPlaced :
      (n : ℕ) (best : Best W) (i : ℕ) (cs : List (List (Member W)))
      → i + length cs ≤ n
      → IsPlaced n best
      → IsPlaced n (best_from best i cs)
  unfolding best_from
  best_from-IsPlaced n best i [] k p = p
  best_from-IsPlaced n best i (c ∷ cs) k p =
      best_from-IsPlaced n (best_of best i (suc i) c cs) (suc i) cs (omega arith)
        (best_of-IsPlaced n best i (suc i) c cs (omega arith) (omega arith) p)

  -- The two clusters are not similar at all, or less so than the threshold.
  abbrev pub IsFar : W → List (Member W) → List (Member W) → Type 0
  IsFar threshold a b =
      (d.lt zero_f (cluster_similarity a b) ≡ false)
      ⊎ (d.lt (cluster_similarity a b) threshold ≡ true)

  module _ (laws : IsOrdered W) where
    le_of_lt : (x y : W) → d.lt x y ≡ true → x ≼ y
    le_of_lt x y t =
        let (p, q) = laws.refl_of_lt x y t in
        let e : d.le y x ≡ false = ground (arith, laws.lt-eq-not-le x y p q) in
        elim (laws.le_total x y p q) [ inl h ↦ h | inr h ↦ absurd (false≢true (sym e ∙ h)) ]

    lt-not_le : (x y : W) → d.lt x y ≡ true → d.le y x ≡ false
    lt-not_le x y t =
        let (p, q) = laws.refl_of_lt x y t in ground (arith, laws.lt-eq-not-le x y p q)

    lt_of_not_le : (x y : W) → x ≼ x → y ≼ y → (y ≼ x → ⊥) → d.lt x y ≡ true
    lt_of_not_le x y p q h = elim (Bool-cases (d.le y x)) [
      | inl e ↦ absurd (h e)
      | inr e ↦ ground (arith, laws.lt-eq-not-le x y p q)
    ]

    lt_irrefl : (x : W) → x ≼ x → d.lt x x ≡ false
    lt_irrefl x p = ground (arith, laws.lt-eq-not-le x x p p)

    lt_false_up : (b b' s : W) → b ≼ b' → d.lt b s ≡ false → d.lt b' s ≡ false
    lt_false_up b b' s h e = elim (Bool-cases (d.lt b' s)) [
      | inr f ↦ f
      | inl t ↦
          let q = (laws.refl_of_lt b' s t).1 in
          let p = (laws.refl_of_le b b' h).0 in
          absurd (
            false≢true (
              sym e
              ∙ lt_of_not_le b s p q
                  (λ k. false≢true (sym (lt-not_le b' s t) ∙ laws.le_trans s b b' k h))))
    ]

    -- Nothing that has been compared is closer than the best.
    abbrev IsTop : Best W → List (Member W) → List (Member W) → Type 0
    IsTop best a b = d.lt best.sim (cluster_similarity a b) ≡ false

    -- The best grows, and is of two clusters unless it is zero.
    record Grows (best best' : Best W) : Type 0 where
      more : best.sim ≼ best'.sim
      zero : best'.at ≡ none → best' ≡ best

    IsTop-up :
        (best best' : Best W)
        → Grows best best'
        → (a b : List (Member W)) → IsTop best a b
        → IsTop best' a b
    IsTop-up best best' g a b = lt_false_up best.sim best'.sim (cluster_similarity a b) g.more

    Grows-trans : (x y z : Best W) → Grows x y → Grows y z → Grows x z
    Grows-trans x y z g h = record {
      more = laws.le_trans x.sim y.sim z.sim g.more h.more;
      zero = λ e. let q = h.zero e in q ∙ g.zero (sym (ap (λ (b : Best W). b.at) q) ∙ e);
    }

    better-IsTop :
        (best : Best W) (i j : ℕ) (a b : List (Member W))
        → best.sim ≼ best.sim
        → Grows best (better best i j a b) × IsTop (better best i j a b) a b
    unfolding better
    better-IsTop best i j a b p = elim (Bool-cases (d.lt best.sim (cluster_similarity a b))) [
      | inl e ↦ rw e (
        record { more = le_of_lt best.sim (cluster_similarity a b) e; zero = λ h. cc },
        lt_irrefl (cluster_similarity a b) (laws.refl_of_lt _ _ e).1,
      )
      | inr e ↦ rw e (record { more = p; zero = λ h. refl }, e)
    ]

    best_of-IsTop :
        (best : Best W) (i j : ℕ) (a : List (Member W)) (bs : List (List (Member W)))
        → best.sim ≼ best.sim
        → Grows best (best_of best i j a bs) × All (IsTop (best_of best i j a bs) a) bs
    unfolding best_of
    best_of-IsTop best i j a [] p = (record { more = p; zero = λ e. refl }, tt)
    best_of-IsTop best i j a (b ∷ bs) p =
        let one = better best i j a b in
        let (g, t) = better-IsTop best i j a b p in
        let (h, ts) = best_of-IsTop one i (suc j) a bs (laws.refl_of_le _ _ g.more).1 in
        (
          Grows-trans best one (best_of one i (suc j) a bs) g h,
          (IsTop-up one (best_of one i (suc j) a bs) h a b t, ts),
        )

    best_from-IsTop :
        (best : Best W) (i : ℕ) (cs : List (List (Member W)))
        → best.sim ≼ best.sim
        → Grows best (best_from best i cs) × Pairwise (IsTop (best_from best i cs)) cs
    unfolding best_from
    best_from-IsTop best i [] p = (record { more = p; zero = λ e. refl }, tt)
    best_from-IsTop best i (c ∷ cs) p =
        let row = best_of best i (suc i) c cs in
        let out = best_from row (suc i) cs in
        let (g, t) = best_of-IsTop best i (suc i) c cs p in
        let (h, ts) = best_from-IsTop row (suc i) cs (laws.refl_of_le _ _ g.more).1 in
        (
          Grows-trans best row out g h,
          (All-imp {P = IsTop row c} {Q = IsTop out c} (IsTop-up row out h c) cs t, ts),
        )

    no_best_refl : (no_best {W = W}).sim ≼ (no_best {W = W}).sim
    unfolding no_best
    no_best_refl = laws.ratio_nonneg 0 1 (omega arith)

    top-IsFar :
        (threshold : W) (best : Best W)
        → chosen threshold best ≡ none
        → Grows no_best best
        → (a b : List (Member W)) → IsTop best a b
        → IsFar threshold a b
    unfolding chosen no_best
    top-IsFar threshold best e g a b t =
        let s = cluster_similarity a b in
        elim (Bool-cases (d.lt best.sim threshold)) [
          | inr f ↦ inl (subst (λ (x : Best W). d.lt x.sim s ≡ false) (g.zero (rw f at e)) t)
          | inl f ↦ elim (Bool-cases (d.lt zero_f s)) [
            | inr h ↦ inl h
            | inl h ↦
                let p = (laws.refl_of_lt zero_f s h).1 in
                let (b', q) = laws.refl_of_lt best.sim threshold f in
                let below : s ≼ best.sim = ground (arith, t, laws.lt-eq-not-le best.sim s b' p) in
                inr (
                  lt_of_not_le s threshold p q (λ k. false≢true (
                    sym (lt-not_le best.sim threshold f)
                    ∙ laws.le_trans threshold s best.sim k below)))
          ]
        ]

    -- Where the loop ends, every two clusters are far apart.
    pub chosen-IsFar :
        (threshold : W) (cs : List (List (Member W)))
        → chosen threshold (best_from no_best 0 cs) ≡ none
        → Pairwise (IsFar threshold) cs
    chosen-IsFar threshold cs e =
        let (g, t) = best_from-IsTop no_best 0 cs no_best_refl in
        let best = best_from no_best 0 cs in
        Pairwise-imp {P = IsTop best} {Q = IsFar threshold} (top-IsFar threshold best e g) cs t

  chosen-at :
      (threshold : W) (best : Best W) (i j : ℕ)
      → chosen threshold best ≡ some (i, j)
      → best.at ≡ some (i, j)
  unfolding chosen
  chosen-at threshold best i j e = elim (Bool-cases (d.lt best.sim threshold)) [
    | inl f ↦ let e' = rw f at e in cc
    | inr f ↦ rw f at e
  ]

  -- Where the loop goes on, it merges two of the clusters.
  pub chosen-placed :
      (threshold : W) (cs : List (List (Member W))) (i j : ℕ)
      → chosen threshold (best_from no_best 0 cs) ≡ some (i, j)
      → (i < j) × (j < length cs)
  unfolding no_best
  chosen-placed threshold cs i j e =
      let e' = chosen-at threshold (best_from no_best 0 cs) i j e in
      elim (best_from-IsPlaced (length cs) no_best 0 cs (omega arith) (inl refl)) [
        | inl n ↦ absurd (cc)
        | inr (i', j', q, h, k) ↦
            let same : i' ≡ i = ap (λ (p : ℕ × ℕ). p.0) (some-injective _ _ (sym q ∙ e')) in
            let same' : j' ≡ j = ap (λ (p : ℕ × ℕ). p.1) (some-injective _ _ (sym q ∙ e')) in
            (omega arith, omega arith)
      ]
