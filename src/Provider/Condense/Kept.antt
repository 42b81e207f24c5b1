-- ===== src/Provider/Condense/Kept.antt =====
-- What internal/provider/condense.go suppresses: only what repeats something that it keeps.
use mathlib.Core.List.{append_assoc, append-nil}
use mathlib.Core.Path.{subst}
use vatbrain.Prelude.{
  ◌+◌, ◌≡◌, refl, sym, Bool, true, false, ◌⊎◌, inl, inr, Bool-cases, List, [], ◌∷◌, ◌++◌, length,
  length-append, any, All, All-append, All-imp, Option, arith, In,
}
use vatbrain.Prelude.Text.{Text}
use vatbrain.Float.{Float64}
use vatbrain.Provider.Condense.{
  Suppression, suppress_step, suppress_loop, suppress_near_duplicates, repeats,
}

-- The first list is the second one without some of its elements.
pub data Subsequence {T : Type 0} : List T → List T → Type 0 where
  none_left : Subsequence [] []
  kept_one : (x : T) {xs ys : List T} → Subsequence xs ys → Subsequence (x ∷ xs) (x ∷ ys)
  left_out : (x : T) {xs ys : List T} → Subsequence xs ys → Subsequence xs (x ∷ ys)

module _ {T : Type 0} where
  Subsequence-append_kept :
      (x : T) {xs ys : List T} → Subsequence xs ys → Subsequence (xs ++ x ∷ []) (ys ++ x ∷ [])
  Subsequence-append_kept x Subsequence.none_left = Subsequence.kept_one x Subsequence.none_left
  Subsequence-append_kept x (Subsequence.kept_one y s) =
      Subsequence.kept_one y (Subsequence-append_kept x s)
  Subsequence-append_kept x (Subsequence.left_out y s) =
      Subsequence.left_out y (Subsequence-append_kept x s)

  Subsequence-append_left_out :
      (x : T) {xs ys : List T} → Subsequence xs ys → Subsequence xs (ys ++ x ∷ [])
  Subsequence-append_left_out x Subsequence.none_left = Subsequence.left_out x Subsequence.none_left
  Subsequence-append_left_out x (Subsequence.kept_one y s) =
      Subsequence.kept_one y (Subsequence-append_left_out x s)
  Subsequence-append_left_out x (Subsequence.left_out y s) =
      Subsequence.left_out y (Subsequence-append_left_out x s)

  In-append_left : (x : T) (xs ys : List T) → In x xs → In x (xs ++ ys)
  In-append_left x [] ys i = absurd i
  In-append_left x (y ∷ xs) ys (inl e) = inl e
  In-append_left x (y ∷ xs) ys (inr i) = inr (In-append_left x xs ys i)

  In-append_last : (x : T) (xs : List T) → In x (xs ++ x ∷ [])
  In-append_last x [] = inl refl
  In-append_last x (y ∷ xs) = inr (In-append_last x xs)

  any-append_left :
      (test : T → Bool) (xs ys : List T) → any test xs ≡ true → any test (xs ++ ys) ≡ true
  any-append_left test [] ys e = ground arith
  any-append_left test (x ∷ xs) ys e = ground (arith, any-append_left test xs ys)

module _ {T : Type 0} (same : T → T → Bool) where
  -- The item is kept, or it repeats one that is.
  abbrev pub IsCovered : List T → T → Type 0
  IsCovered kept it = In it kept ⊎ (any (same it) kept ≡ true)

  widened : (kept : List T) (x y : T) → IsCovered kept y → IsCovered (kept ++ x ∷ []) y
  widened kept x y (inl i) = inl (In-append_left y kept (x ∷ []) i)
  widened kept x y (inr e) = inr (any-append_left (same y) kept (x ∷ []) e)

  -- No item of the list repeats one before it.
  abbrev pub IsFresh : List T → List T → Type 0
  IsFresh before [] = Unit
  IsFresh before (x ∷ xs) = (any (same x) before ≡ false) × IsFresh (before ++ x ∷ []) xs

  IsFresh-append :
      (before xs : List T) (x : T)
      → IsFresh before xs
      → any (same x) (before ++ xs) ≡ false
      → IsFresh before (xs ++ x ∷ [])
  IsFresh-append before [] x h e = (subst (λ l. any (same x) l ≡ false) (append-nil before) e, tt)
  IsFresh-append before (y ∷ ys) x (h, hs) e = (
    h,
    IsFresh-append (before ++ y ∷ []) ys x hs
        (subst (λ l. any (same x) l ≡ false) (sym (append_assoc before (y ∷ []) ys)) e),
  )

  pub record IsSuppressed (st : Suppression T) (items : List T) : Type 0 where
    pub in_order : Subsequence st.kept items
    pub counted : length st.kept + st.suppressed ≡ length items
    pub covered : All (IsCovered st.kept) items
    pub fresh : IsFresh [] st.kept

  suppress_step-IsSuppressed :
      (st : Suppression T) (items : List T) (it : T)
      → IsSuppressed st items
      → IsSuppressed (suppress_step same st it) (items ++ it ∷ [])
  unfolding suppress_step
  suppress_step-IsSuppressed st items it h = elim (Bool-cases (any (same it) st.kept)) [
    | inl e ↦ rw e (record {
      in_order = Subsequence-append_left_out it h.in_order;
      counted = ground (arith, h.counted, length-append items (it ∷ []));
      covered = All-append (IsCovered st.kept) items (it ∷ []) h.covered (inr e, tt);
      fresh = h.fresh;
    })
    | inr e ↦ rw e (record {
      in_order = Subsequence-append_kept it h.in_order;
      counted =
          ground (arith, h.counted, length-append items (it ∷ []), length-append st.kept (it ∷ []));
      covered =
          All-append (IsCovered (st.kept ++ it ∷ [])) items (it ∷ [])
            (All-imp {P = IsCovered st.kept} {Q = IsCovered (st.kept ++ it ∷ [])}
              (widened st.kept it) items h.covered)
            (inl (In-append_last it st.kept), tt);
      fresh = IsFresh-append [] st.kept it h.fresh e;
    })
  ]

  suppress_loop-IsSuppressed :
      (st : Suppression T) (done items : List T)
      → IsSuppressed st done
      → IsSuppressed (suppress_loop same st items) (done ++ items)
  unfolding suppress_loop
  suppress_loop-IsSuppressed st done [] h = subst (IsSuppressed st) (sym (append-nil done)) h
  suppress_loop-IsSuppressed st done (it ∷ items) h =
      subst (IsSuppressed (suppress_loop same (suppress_step same st it) items))
        (append_assoc done (it ∷ []) items)
        (suppress_loop-IsSuppressed (suppress_step same st it) (done ++ it ∷ []) items
          (suppress_step-IsSuppressed st done it h))

-- What is kept stands in the order of the input, and with the count of what is suppressed it makes up
-- the input; every item of the input is kept or repeats one that is kept, and no item that is kept
-- repeats an earlier one.
pub suppress_near_duplicates-IsSuppressed :
    {W : Type 0} ⦃d : Float64 W⦄ {T : Type 0} (items : List T) (text_of : T → Text) (threshold : W)
    (same : Option (T → T → Bool))
    → IsSuppressed
        (repeats text_of threshold same)
        (suppress_near_duplicates items text_of threshold same)
        items
unfolding suppress_near_duplicates
suppress_near_duplicates-IsSuppressed items text_of threshold same =
    suppress_loop-IsSuppressed (repeats text_of threshold same)
      (record { kept = []; suppressed = 0 }) [] items
      (record { in_order = Subsequence.none_left; counted = refl; covered = tt; fresh = tt })
