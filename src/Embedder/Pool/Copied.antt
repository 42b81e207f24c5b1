-- ===== src/Embedder/Pool/Copied.antt =====
-- Writes into a part of a slice, and the parts of a mapped list.
use vatbrain.Prelude.{
  length-drop, ℕ, zero, suc, ◌+◌, ◌-◌, ◌≤◌, ◌<◌, ◌≡◌, refl, ap, ◌∙◌, ◌⊎◌, inl, inr, List, [], ◌∷◌,
  map, length, take, drop, get_or, set, length-set, get_or-set_self, get_or-set_ne, nat_eq, arith,
}
use vatbrain.Embedder.Pool.{slice, copy_at}

module _ {A : Type 0} where
  pub get_or-ext :
      (d : A) (xs ys : List A)
      → length xs ≡ length ys
      → ((i : ℕ) → i < length xs → get_or xs i d ≡ get_or ys i d)
      → xs ≡ ys
  get_or-ext d [] [] h e = refl
  get_or-ext d [] (y ∷ ys) h e = absurd (omega (arith, h))
  get_or-ext d (x ∷ xs) [] h e = absurd (omega (arith, h))
  get_or-ext d (x ∷ xs) (y ∷ ys) h e =
      let t = get_or-ext d xs ys (omega (arith, h)) (λ i l. e (suc i) (omega (arith, l))) in
      rw (e 0 (omega arith), t) refl

  pub length-copy_at : (i : ℕ) (vs out : List A) → length (copy_at i vs out) ≡ length out
  unfolding copy_at
  length-copy_at i [] out = refl
  length-copy_at i (v ∷ vs) out = length-copy_at (suc i) vs (set out i v) ∙ length-set out i v

  -- before and after the part that is written
  pub copy_at-outside :
      (i j : ℕ) (vs out : List A) (d : A)
      → (j < i) ⊎ (i + length vs ≤ j)
      → get_or (copy_at i vs out) j d ≡ get_or out j d
  unfolding copy_at
  copy_at-outside i j [] out d h = refl
  copy_at-outside i j (v ∷ vs) out d h =
      copy_at-outside (suc i) j vs (set out i v) d
        (elim h [ inl a ↦ inl (omega (arith, a)) | inr b ↦ inr (omega (arith, b)) ])
      ∙ get_or-set_ne out i j v d
          (elim h [ inl a ↦ (λ e. omega (arith, a, e)) | inr b ↦ (λ e. omega (arith, b, e)) ])

  pub copy_at-inside :
      (i k : ℕ) (vs out : List A) (d : A)
      → k < length vs
      → i + length vs ≤ length out
      → get_or (copy_at i vs out) (i + k) d ≡ get_or vs k d
  unfolding copy_at
  copy_at-inside i k [] out d h l = absurd (omega (arith, h))
  copy_at-inside i zero (v ∷ vs) out d h l =
      copy_at-outside (suc i) (i + zero) vs (set out i v) d (inl (omega arith))
      ∙ ap (λ n. get_or (set out i v) n d) (omega arith)
      ∙ get_or-set_self out i v d (omega (arith, l))
  copy_at-inside i (suc k) (v ∷ vs) out d h l =
      ap (λ n. get_or (copy_at (suc i) vs (set out i v)) n d) (omega arith)
      ∙ copy_at-inside (suc i) k vs (set out i v) d (omega (arith, h))
          (omega (arith, l, length-set out i v))

module _ {A B : Type 0} (f : A → B) where
  map-take :
      (n : ℕ) (xs : List A) (k : ℕ) (d : B)
      → k < n
      → get_or (map f (take n xs)) k d ≡ get_or (map f xs) k d
  map-take zero xs k d h = absurd (omega (arith, h))
  map-take (suc n) [] k d h = refl
  map-take (suc n) (x ∷ xs) zero d h = refl
  map-take (suc n) (x ∷ xs) (suc k) d h = map-take n xs k d (omega (arith, h))

  map-drop :
      (n : ℕ) (xs : List A) (k : ℕ) (d : B)
      → get_or (map f (drop n xs)) k d ≡ get_or (map f xs) (n + k) d
  map-drop zero xs k d = ap (λ i. get_or (map f xs) i d) (omega arith)
  map-drop (suc n) [] k d = refl
  map-drop (suc n) (x ∷ xs) k d =
      let e : suc (n + k) ≡ suc n + k = omega arith in
      map-drop n xs k d ∙ ap (λ i. get_or (map f (x ∷ xs)) i d) e

  pub map-slice :
      (xs : List A) (a b k : ℕ) (d : B)
      → k < b - a
      → get_or (map f (slice xs a b)) k d ≡ get_or (map f xs) (a + k) d
  unfolding slice
  map-slice xs a b k d h = map-take (b - a) (drop a xs) k d h ∙ map-drop a xs k d

module _ {A : Type 0} where
  length-take_all : (n : ℕ) (xs : List A) → n ≤ length xs → length (take n xs) ≡ n
  length-take_all zero xs h = refl
  length-take_all (suc n) [] h = absurd (omega (arith, h))
  length-take_all (suc n) (x ∷ xs) h = ap suc (length-take_all n xs (omega (arith, h)))

  pub length-slice : (xs : List A) (a b : ℕ) → a ≤ b → b ≤ length xs → length (slice xs a b) ≡ b - a
  unfolding slice
  length-slice xs a b h l =
      let n = length-drop a xs in length-take_all (b - a) (drop a xs) (omega (arith, h, l, n))
