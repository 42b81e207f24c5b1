-- ===== src/Core/Extractor/Cluster/Joined.antt =====
-- What the merging of two clusters of internal/core/pitfall_extractor.go keeps.
use mathlib.Core.List.{Perm, perm_middle, append_assoc, map-append}
use mathlib.Core.List.Perm
use mathlib.Core.Path.{subst}
use vatbrain.Prelude.{
  ℕ, zero, suc, ◌<◌, ◌≡◌, refl, sym, ap, List, [], ◌∷◌, ◌++◌, length, length-set, map,
  get_or-set_ne, get_or, set, arith,
}
use vatbrain.Float.{Float64}
use vatbrain.Core.Extractor.Cluster.{Member, without_nth, merge_at}

abbrev pub concat {ℓ} : {A : Type ℓ} → List (List A) → List A
concat [] = []
concat (x ∷ xs) = x ++ concat xs

module _ {A : Type 0} where
  length-without_nth :
      (i : ℕ) (xs : List A) → i < length xs → suc (length (without_nth i xs)) ≡ length xs
  unfolding without_nth
  length-without_nth i [] h = absurd (omega arith)
  length-without_nth zero (x ∷ xs) h = refl
  length-without_nth (suc i) (x ∷ xs) h = ap suc (length-without_nth i xs (omega arith))

  -- The first two lists may change places.
  pub swap-perm : (x y zs : List A) → Perm (x ++ (y ++ zs)) (y ++ (x ++ zs))
  swap-perm [] y zs = Perm.refl _
  swap-perm (a ∷ x) y zs =
      Perm.trans (Perm.cons a (swap-perm x y zs)) (Perm.symm (perm_middle y (x ++ zs)))

  pub cancel_left : (x : List A) {y z : List A} → Perm (x ++ y) (x ++ z) → Perm y z
  cancel_left [] p = p
  cancel_left (a ∷ x) p = cancel_left x (Perm.cons_inv p)

  -- An element of the list, and the rest of it.
  without_nth-perm :
      (i : ℕ) (xs : List (List A))
      → i < length xs
      → Perm (concat xs) (get_or xs i [] ++ concat (without_nth i xs))
  unfolding without_nth
  without_nth-perm i [] h = absurd (omega arith)
  without_nth-perm zero (x ∷ xs) h = Perm.refl _
  without_nth-perm (suc i) (x ∷ xs) h =
      Perm.trans (Perm.append_left x (without_nth-perm i xs (omega arith)))
        (swap-perm x (get_or xs i []) (concat (without_nth i xs)))

  -- An element is joined with another list.
  set-perm :
      (i : ℕ) (y : List A) (xs : List (List A))
      → i < length xs
      → Perm (concat (set xs i (get_or xs i [] ++ y))) (y ++ concat xs)
  set-perm i y [] h = absurd (omega arith)
  set-perm zero y (x ∷ xs) h =
      subst (λ l. Perm l (y ++ (x ++ concat xs))) (sym (append_assoc x y (concat xs)))
        (swap-perm x y (concat xs))
  set-perm (suc i) y (x ∷ xs) h =
      Perm.trans (Perm.append_left x (set-perm i y xs (omega arith))) (swap-perm x y (concat xs))

pub concat-map-map :
    {A B : Type 0} (f : A → B) (xs : List (List A)) → concat (map (map f) xs) ≡ map f (concat xs)
concat-map-map f [] = refl
concat-map-map f (x ∷ xs) = simp (map-append, concat-map-map f xs)

module _ {W : Type 0} ⦃d : Float64 W⦄ where
  get_or-set_later :
      (i j : ℕ) (v : List (Member W)) (cs : List (List (Member W)))
      → i < j
      → get_or (set cs i v) j [] ≡ get_or cs j []
  get_or-set_later i j v cs h = get_or-set_ne cs i j v [] (λ e. omega arith)

  pub length-merge_at :
      (i j : ℕ) (cs : List (List (Member W)))
      → i < j
      → j < length cs
      → suc (length (merge_at i j cs)) ≡ length cs
  unfolding merge_at
  length-merge_at i j cs h k =
      let v = get_or cs i [] ++ get_or cs j [] in
      let len = length-set cs i v in
      omega (arith, length-without_nth j (set cs i v) (omega arith), len)

  pub merge_at-perm :
      (i j : ℕ) (cs : List (List (Member W)))
      → i < j
      → j < length cs
      → Perm (concat (merge_at i j cs)) (concat cs)
  unfolding merge_at
  merge_at-perm i j cs h k =
      let y = get_or cs j [] in
      let v = get_or cs i [] ++ y in
      let out = set-perm i y cs (omega arith) in
      let gone = without_nth-perm j (set cs i v) (omega (arith, length-set cs i v)) in
      let gone' =
        subst (λ l. Perm (concat (set cs i v)) (l ++ concat (without_nth j (set cs i v))))
          (get_or-set_later i j v cs h) gone in
      cancel_left y (Perm.trans (Perm.symm gone') out)
