-- ===== src/Prelude/Sort.antt =====
-- `sort.Slice`. Go leaves the order of equal elements open; the model inserts after them.
use vatbrain.Prelude.Lists.{length, take, drop, take-append-drop, All}
use vatbrain.Prelude.Tests.{Bool-cases, if◌then◌else◌}
use mathlib.Core.Logic.{inl, inr}
use Prim.Native.Nat.{ℕ, suc}
use mathlib.Core.Path.{◌≡◌, refl, sym, ap, ◌∙◌, subst}
use mathlib.Core.Bool.{Bool, true, false}
use mathlib.Core.List.{List, [], ◌∷◌, ◌++◌, map, Perm}
use mathlib.Core.List.Perm
use native.Mathlib.Omega.{arith}

module _ {ℓ} {A : Type ℓ} (less : A → A → Bool) where
  insert_by : A → List A → List A
  insert_by x [] = x ∷ []
  insert_by x (y ∷ ys) = if less x y then x ∷ y ∷ ys else y ∷ insert_by x ys

  unfoldable pub sort_by : List A → List A
  unfolding insert_by
  sort_by [] = []
  sort_by (x ∷ xs) = insert_by x (sort_by xs)

  -- No later element is less than an earlier one.
  abbrev pub IsSorted : List A → Type 0
  IsSorted [] = Unit
  IsSorted (x ∷ xs) = All (λ y. less y x ≡ false) xs × IsSorted xs

  length-insert_by : (x : A) (ys : List A) → length (insert_by x ys) ≡ suc (length ys)
  unfolding insert_by
  length-insert_by x [] = refl
  length-insert_by x (y ∷ ys) = ground (arith, length-insert_by x ys)

  pub length-sort_by : (xs : List A) → length (sort_by xs) ≡ length xs
  unfolding sort_by
  length-sort_by [] = refl
  length-sort_by (x ∷ xs) = ground (arith, length-insert_by x (sort_by xs), length-sort_by xs)

  All-insert_by {κ} :
      (P : A → Type κ) (x : A) (ys : List A) → P x → All P ys → All P (insert_by x ys)
  unfolding insert_by
  All-insert_by P x [] h hs = (h, tt)
  All-insert_by P x (y ∷ ys) h (hy, hs) = ground (arith, All-insert_by P x ys h hs)

  -- Sorting keeps a property of every element.
  pub All-sort_by {κ} : (P : A → Type κ) (xs : List A) → All P xs → All P (sort_by xs)
  unfolding sort_by
  All-sort_by P [] h = h
  All-sort_by P (x ∷ xs) (h, hs) = All-insert_by P x (sort_by xs) h (All-sort_by P xs hs)

  insert_by-perm : (x : A) (ys : List A) → Perm (insert_by x ys) (x ∷ ys)
  unfolding insert_by
  insert_by-perm x [] = Perm.refl _
  insert_by-perm x (y ∷ ys) = elim (Bool-cases (less x y)) [
    | inl e ↦ rw e (Perm.refl _)
    | inr e ↦ rw e (Perm.trans (Perm.cons y (insert_by-perm x ys)) (Perm.swap x y ys))
  ]

  -- Sorting returns the elements that it was given.
  pub sort_by-perm : (xs : List A) → Perm (sort_by xs) xs
  unfolding sort_by
  sort_by-perm [] = Perm.refl _
  sort_by-perm (x ∷ xs) = Perm.trans (insert_by-perm x (sort_by xs)) (Perm.cons x (sort_by-perm xs))

  -- What the first `n` are, and what they leave out.
  pub top-perm : (n : ℕ) (xs : List A) → Perm (take n (sort_by xs) ++ drop n (sort_by xs)) xs
  top-perm n xs = subst (λ ys. Perm ys xs) (sym (take-append-drop n (sort_by xs))) (sort_by-perm xs)

  -- What Go asks of the function that is given to `sort.Slice`, on the elements that it meets.
  pub record IsStrictWeak {κ} (P : A → Type κ) : Type (ℓ ⊔ κ) where
    pub asym : (x y : A) → P x → P y → less x y ≡ true → less y x ≡ false
    pub trans :
        (x y z : A) → P x → P y → P z → less y x ≡ false → less z y ≡ false → less z x ≡ false

  module _ {κ} (P : A → Type κ) (weak : IsStrictWeak P) where
    below :
        (x y : A) (zs : List A)
        → P x
        → P y
        → All P zs
        → less y x ≡ false
        → All (λ z. less z y ≡ false) zs
        → All (λ z. less z x ≡ false) zs
    below x y [] h k hs e es = tt
    below x y (z ∷ zs) h k (hz, hs) e (ez, es) =
        (weak.trans x y z h k hz e ez, below x y zs h k hs e es)

    insert_by-IsSorted :
        (x : A) (ys : List A) → P x → All P ys → IsSorted ys → IsSorted (insert_by x ys)
    unfolding insert_by
    insert_by-IsSorted x [] h hs k = (tt, tt)
    insert_by-IsSorted x (y ∷ ys) h (hy, hs) (ky, ks) = elim (Bool-cases (less x y)) [
      | inl e ↦ rw e (let e' = weak.asym x y h hy e in ((e', below x y ys h hy hs e' ky), (ky, ks)))
      | inr e ↦
          rw e (All-insert_by (λ z. less z y ≡ false) x ys e ky, insert_by-IsSorted x ys h hs ks)
    ]

    -- By such a function the result is in order.
    pub sort_by-IsSorted : (xs : List A) → All P xs → IsSorted (sort_by xs)
    unfolding sort_by
    sort_by-IsSorted [] h = tt
    sort_by-IsSorted (x ∷ xs) (h, hs) =
        insert_by-IsSorted x (sort_by xs) h (All-sort_by P xs hs) (sort_by-IsSorted xs hs)

module _ {ℓ κ} {A : Type ℓ} {B : Type κ} (less : B → B → Bool) (f : A → B) where
  insert_by-map :
      (x : A) (ys : List A)
      → insert_by less (f x) (map f ys) ≡ map f (insert_by (λ a b. less (f a) (f b)) x ys)
  unfolding insert_by
  insert_by-map x [] = refl
  insert_by-map x (y ∷ ys) = elim (Bool-cases (less (f x) (f y))) [
    | inl e ↦ rw e
    | inr e ↦ rw e (ap (λ t. f y ∷ t) (insert_by-map x ys))
  ]

  -- To sort by a key that is kept beside each element is to sort the elements by it.
  pub sort_by-map :
      (xs : List A) → sort_by less (map f xs) ≡ map f (sort_by (λ a b. less (f a) (f b)) xs)
  unfolding sort_by
  sort_by-map [] = refl
  sort_by-map (x ∷ xs) =
      ap (insert_by less (f x)) (sort_by-map xs)
      ∙ insert_by-map x (sort_by (λ a b. less (f a) (f b)) xs)
