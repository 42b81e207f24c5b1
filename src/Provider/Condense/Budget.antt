-- ===== src/Provider/Condense/Budget.antt =====
-- The token budget of internal/provider/condense.go: what the loops that cut the tails leave.
use mathlib.Core.Bool.{false≢true}
use mathlib.Core.Path.{subst}
use vatbrain.Prelude.{
  ℕ, zero, suc, none, some, string_eq, ◌==◌, ◌+◌, ◌-◌, ◌≤◌, ◌<◌, ◌≡◌, refl, sym, ap, ◌∙◌, Bool,
  true, false, ◌⊎◌, inl, inr, Bool-cases, List, [], ◌∷◌, length, length-take, take, All, ltb, leb,
  arith,
}
use vatbrain.Prelude.Int.{ℤ, pos, negsuc, positive, pos_part}
use vatbrain.Prelude.Text.{Text}
use vatbrain.Float.{Float64}
use vatbrain.Models.Common.{Time}
use vatbrain.Models.Episodic.{EpisodicMemory}
use vatbrain.Models.Pitfall.{PitfallMemory}
use vatbrain.Provider.Prefetch.{estimate_tokens, format_prefetch}
use vatbrain.Provider.Condense.{
  CondenseOptions, PrefetchStats, duplicate_threshold, cut_tail, exceeds, trimmed,
  condense_episodes, condense_pitfalls, format_prefetch_condensed,
}
use vatbrain.Provider.Condense.Kept.{IsCovered, suppress_near_duplicates-IsSuppressed}

module _ {T : Type 0} where
  take-all : (n : ℕ) (xs : List T) → length xs ≤ n → take n xs ≡ xs
  take-all zero [] h = refl
  take-all zero (x ∷ xs) h = absurd (omega arith)
  take-all (suc n) [] h = refl
  take-all (suc n) (x ∷ xs) h = ap (λ t. x ∷ t) (take-all n xs (omega arith))

  take-take : (m n : ℕ) (xs : List T) → m ≤ n → take m (take n xs) ≡ take m xs
  take-take zero n xs h = refl
  take-take (suc m) zero xs h = absurd (omega arith)
  take-take (suc m) (suc n) [] h = refl
  take-take (suc m) (suc n) (x ∷ xs) h = ap (λ t. x ∷ t) (take-take m n xs (omega arith))

  -- The longest front of a list on which `over` does not hold, or its first element.
  pub record IsCut (over : List T → Bool) (xs r : List T) : Type 0 where
    pub front : r ≡ take (length r) xs
    pub stopped : (over r ≡ false) ⊎ (length r ≤ 1)
    pub longest : (m : ℕ) → length r < m → m ≤ length xs → over (take m xs) ≡ true
    pub some_left : 0 < length xs → 0 < length r

  whole-IsCut :
      (over : List T → Bool) (xs : List T) → (over xs ≡ false) ⊎ (length xs ≤ 1) → IsCut over xs xs
  whole-IsCut over xs s = record {
    front = sym (take-all (length xs) xs (omega arith));
    stopped = s;
    longest = λ m h k. absurd (omega arith);
    some_left = λ h. h;
  }

  shorter-IsCut :
      (over : List T → Bool) (xs r : List T)
      → over xs ≡ true
      → 1 < length xs
      → IsCut over (take (length xs - 1) xs) r
      → IsCut over xs r
  shorter-IsCut over xs r e long c =
      let len = length-take (length xs - 1) xs in
      let short = ap length c.front in
      let len' = length-take (length r) (take (length xs - 1) xs) in
      record {
        front = subst (λ t. r ≡ t) (take-take (length r) (length xs - 1) xs (omega arith)) c.front;
        stopped = c.stopped;
        longest = λ m h k. elim (Bool-cases (leb m (length xs - 1))) [
          | inl b ↦
              subst (λ t. over t ≡ true) (take-take m (length xs - 1) xs (ground arith))
                (c.longest m h (ground arith))
          | inr b ↦ subst (λ t. over t ≡ true) (sym (take-all m xs (ground arith))) e
        ];
        some_left = λ h. c.some_left (omega arith);
      }

  pub cut_tail-IsCut :
      (over : List T → Bool) (n : ℕ) (xs : List T)
      → length xs ≤ n
      → IsCut over xs (cut_tail over n xs)
  unfolding cut_tail
  cut_tail-IsCut over zero xs h = whole-IsCut over xs (inr (omega arith))
  cut_tail-IsCut over (suc n) xs h = elim (Bool-cases (over xs)) [
    | inr e ↦ rw e (whole-IsCut over xs (inl e))
    | inl e ↦ elim (Bool-cases (ltb 1 (length xs))) [
      | inr l ↦ rw (e, l) (whole-IsCut over xs (inr (ground arith)))
      | inl l ↦
          rw (e, l)
            (shorter-IsCut over xs (cut_tail over n (take (length xs - 1) xs)) e (ground arith) (
              cut_tail-IsCut over n (take (length xs - 1) xs)
                (omega (arith, length-take (length xs - 1) xs))))
    ]
  ]

module _ {T : Type 0} where
  kept-some_left :
      (same : T → T → Bool) (kept items : List T)
      → All (IsCovered same kept) items
      → 0 < length items
      → 0 < length kept
  kept-some_left same kept [] h l = absurd (omega arith)
  kept-some_left same [] (x ∷ xs) (inl i, hs) l = absurd i
  kept-some_left same [] (x ∷ xs) (inr e, hs) l = absurd (false≢true e)
  kept-some_left same (y ∷ ys) (x ∷ xs) h l = omega arith

-- The second list is cut beside what is left of the first one.
within-cuts :
    {A B : Type 0} (over : List A → List B → Bool) (xs xs' : List A) (ys ys' : List B)
    → IsCut (λ l. over l ys) xs xs'
    → IsCut (over xs') ys ys'
    → (over xs' ys' ≡ false) ⊎ ((length xs' ≤ 1) × (length ys' ≤ 1))
within-cuts over xs xs' ys ys' c c' = elim c.stopped [
  | inr short ↦ elim c'.stopped [ inl e ↦ inl e | inr short' ↦ inr (short, short') ]
  | inl e ↦ elim (Bool-cases (ltb (length ys') (length ys))) [
    | inl l ↦
        let t = c'.longest (length ys) (ground arith) (omega arith) in
        absurd
          (false≢true (sym e ∙ sym (ap (over xs') (take-all (length ys) ys (omega arith))) ∙ t))
    | inr l ↦ inl (ap (over xs') (c'.front ∙ take-all (length ys') ys (ground arith)) ∙ e)
  ]
]

exceeds-false : (n : ℕ) (max : ℤ) → exceeds n max ≡ false → n ≤ pos_part max
unfolding exceeds
exceeds-false n (pos m) h = ground (arith, h)
exceeds-false n (negsuc m) h = absurd (false≢true (sym h))

module _ {W : Type 0} ⦃d : Float64 W⦄ where
  abbrev pub over_budget :
      (Time → Text) → ℤ → List (EpisodicMemory W) → List (PitfallMemory W) → Bool
  over_budget day max eps pits = exceeds (estimate_tokens (format_prefetch day eps pits)) max

  -- What the loops leave of both lists: the fronts, none of them empty without need, that are within
  -- the budget or as short as they may be.
  pub record IsTrimmed (day : Time → Text) (max : ℤ) (eps : List (EpisodicMemory W))
      (pits : List (PitfallMemory W)) (left : List (EpisodicMemory W) × List (PitfallMemory W))
      : Type 0 where
    pub episodes : IsCut (λ es. over_budget day max es pits) eps left.0
    pub pitfalls : IsCut (λ ps. over_budget day max left.0 ps) pits left.1
    pub within :
        (over_budget day max left.0 left.1 ≡ false) ⊎ ((length left.0 ≤ 1) × (length left.1 ≤ 1))

  -- The loops that cut the tails leave the longest front of the episodes that is within the budget
  -- beside all pitfalls, or one episode, and then the longest front of the pitfalls that is within the
  -- budget, or one pitfall; and both lists are within the budget or have one item at most.
  pub trimmed-IsTrimmed :
      (day : Time → Text) (max : ℤ) (eps : List (EpisodicMemory W)) (pits : List (PitfallMemory W))
      → IsTrimmed day max eps pits (trimmed day max eps pits)
  unfolding trimmed
  trimmed-IsTrimmed day max eps pits =
      let left = trimmed day max eps pits in
      let c = cut_tail-IsCut (λ es. over_budget day max es pits) (length eps) eps (omega arith) in
      let c' =
        cut_tail-IsCut (λ ps. over_budget day max left.0 ps) (length pits) pits (omega arith) in
      record {
        episodes = c;
        pitfalls = c';
        within = within-cuts (over_budget day max) eps left.0 pits left.1 c c';
      }

  -- What the block has: fronts of the items that the suppression keeps, as many as the budget allows.
  pub record IsCondensed (day : Time → Text) (opts : CondenseOptions W)
      (episodes : List (EpisodicMemory W)) (pitfalls : List (PitfallMemory W))
      (out : Text × PrefetchStats) : Type 0 where
    pub eps : List (EpisodicMemory W)
    pub pits : List (PitfallMemory W)
    pub text : out.0 ≡ format_prefetch day eps pits
    pub front_episodes : eps ≡ take (length eps) (condense_episodes episodes opts).kept
    pub front_pitfalls : pits ≡ take (length pits) (condense_pitfalls pitfalls opts).kept
    pub within :
        (positive opts.max_tokens ≡ false)
        ⊎ (estimate_tokens out.0 ≤ pos_part opts.max_tokens)
        ⊎ ((length eps ≤ 1) × (length pits ≤ 1))
    pub some_episodes : 0 < length episodes → 0 < length eps
    pub some_pitfalls : 0 < length pitfalls → 0 < length pits
    pub unhit :
        out.1.budget_hit ≡ false
        → (eps ≡ (condense_episodes episodes opts).kept)
          × (pits ≡ (condense_pitfalls pitfalls opts).kept)
    pub counted_episodes :
        (out.1.episodes_in ≡ length episodes)
        × (out.1.episodes_out ≡ length eps)
        × (out.1.suppressed_episodes + length (condense_episodes episodes opts).kept
            ≡ length episodes)
    pub counted_pitfalls :
        (out.1.pitfalls_in ≡ length pitfalls)
        × (out.1.pitfalls_out ≡ length pits)
        × (out.1.suppressed_pitfalls + length (condense_pitfalls pitfalls opts).kept
            ≡ length pitfalls)
    pub measured :
        (out.1.output_tokens ≡ estimate_tokens out.0)
        × (out.1.input_tokens ≡ estimate_tokens (format_prefetch day episodes pitfalls))

  -- The condensed block is that of a front of the episodes and a front of the pitfalls that are left after
  -- the suppression of restatements. It is within a positive budget, or has one episode and one pitfall at
  -- most; a list that is not empty keeps an item; where the budget is not hit, nothing more is left out;
  -- and the numbers that are reported are those of the items and the texts.
  pub format_prefetch_condensed-IsCondensed :
      (day : Time → Text) (episodes : List (EpisodicMemory W)) (pitfalls : List (PitfallMemory W))
      (opts : CondenseOptions W)
      → IsCondensed day opts episodes pitfalls
          (format_prefetch_condensed day episodes pitfalls opts)
  unfolding format_prefetch_condensed condense_episodes condense_pitfalls
  format_prefetch_condensed-IsCondensed day episodes pitfalls opts =
      let max = opts.max_tokens in
      let eps = condense_episodes episodes opts in
      let pits = condense_pitfalls pitfalls opts in
      let s =
        suppress_near_duplicates-IsSuppressed episodes (λ m. m.summary) (duplicate_threshold opts)
          none in
      let s' =
        suppress_near_duplicates-IsSuppressed pitfalls (λ p. p.signature) (duplicate_threshold opts)
          (some (λ a b. a.entity_id == b.entity_id)) in
      let some_e = kept-some_left _ eps.kept episodes s.covered in
      let some_p = kept-some_left _ pits.kept pitfalls s'.covered in
      let all_e = sym (take-all (length eps.kept) eps.kept (omega arith)) in
      let all_p = sym (take-all (length pits.kept) pits.kept (omega arith)) in
      let e_counted : eps.suppressed + length eps.kept ≡ length episodes =
        omega (arith, s.counted) in
      let p_counted : pits.suppressed + length pits.kept ≡ length pitfalls =
        omega (arith, s'.counted) in
      let left = trimmed day max eps.kept pits.kept in
      let t = trimmed-IsTrimmed day max eps.kept pits.kept in
      elim (Bool-cases (positive max)) [
        | inr e ↦ rw e (record {
          eps = eps.kept;
          pits = pits.kept;
          text = refl;
          front_episodes = all_e;
          front_pitfalls = all_p;
          within = inl e;
          some_episodes = some_e;
          some_pitfalls = some_p;
          unhit = λ h. (refl, refl);
          counted_episodes = (refl, refl, e_counted);
          counted_pitfalls = (refl, refl, p_counted);
          measured = (refl, refl);
        })
        | inl e ↦ elim (Bool-cases (over_budget day max eps.kept pits.kept)) [
          | inr o ↦
              rw (e, o)
                (record {
                  eps = eps.kept;
                  pits = pits.kept;
                  text = refl;
                  front_episodes = all_e;
                  front_pitfalls = all_p;
                  within = inr (inl (exceeds-false _ max o));
                  some_episodes = some_e;
                  some_pitfalls = some_p;
                  unhit = λ h. (refl, refl);
                  counted_episodes = (refl, refl, e_counted);
                  counted_pitfalls = (refl, refl, p_counted);
                  measured = (refl, refl);
                })
          | inl o ↦
              rw (e, o)
                (record {
                  eps = left.0;
                  pits = left.1;
                  text = refl;
                  front_episodes = t.episodes.front;
                  front_pitfalls = t.pitfalls.front;
                  within = elim t.within [
                    | inl w ↦ inr (inl (exceeds-false _ max w))
                    | inr w ↦ inr (inr w)
                  ];
                  some_episodes = λ h. t.episodes.some_left (some_e h);
                  some_pitfalls = λ h. t.pitfalls.some_left (some_p h);
                  unhit = λ h. absurd (false≢true (sym h));
                  counted_episodes = (refl, refl, e_counted);
                  counted_pitfalls = (refl, refl, p_counted);
                  measured = (refl, refl);
                })
        ]
      ]
