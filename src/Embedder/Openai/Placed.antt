-- ===== src/Embedder/Openai/Placed.antt =====
-- The order of the vectors of an answer, internal/embedder/batch.go.
use vatbrain.Prelude.{
  length-map, ℕ, zero, suc, ◌+◌, ◌<◌, ◌≡◌, ◌≢◌, refl, sym, ap, ◌∙◌, Bool, true, false, List, [],
  ◌∷◌, some, map, length, drop, get_or, set, replicate, length-set, length-replicate,
  get_or-set_self, get_or-set_ne, All, All-imp, nat_eq, ◌==◌, arith,
}
use vatbrain.Prelude.Int.{pos}
use vatbrain.Embedder.Openai.{EmbedData, free_index, place, picked, in_order, reorder_batch_vectors}

-- No position occurs twice.
abbrev pub IsUnique : List ℕ → Type 0
IsUnique [] = Unit
IsUnique (j ∷ js) = All (λ x. x ≢ j) js × IsUnique js

-- The position is one of `n`, and not taken.
abbrev IsFree : List Bool → ℕ → Type 0
IsFree seen j = (j < length seen) × (get_or seen j false ≡ false)

free_index-IsFree : (seen : List Bool) (j : ℕ) → IsFree seen j → free_index (pos j) seen ≡ some j
unfolding free_index
free_index-IsFree seen j (l, f) = ground (arith, l, f)

set-IsFree : (seen : List Bool) (j x : ℕ) → IsFree seen x → x ≢ j → IsFree (set seen j true) x
set-IsFree seen j x (l, f) n = (
  omega (arith, l, length-set seen j true),
  get_or-set_ne seen j x true false (λ e. n (sym e)) ∙ f,
)

both :
    (P Q R : ℕ → Type 0)
    → ((x : ℕ) → P x → Q x → R x)
    → (xs : List ℕ) → All P xs
    → All Q xs
    → All R xs
both P Q R f [] ps qs = tt
both P Q R f (x ∷ xs) (p, ps) (q, qs) = (f x p q, both P Q R f xs ps qs)

apart :
    (seen : List Bool) (x j : ℕ) → get_or seen x false ≡ true → get_or seen j false ≡ false → j ≢ x
apart seen x j t f e = let c = ap (λ k. get_or seen k false) e in ground (arith, c, t, f)

placed-cons :
    (i j : ℕ) (js out : List ℕ)
    → get_or out j 0 ≡ i
    → ((k : ℕ) → k < length js → get_or out (get_or js k 0) 0 ≡ suc i + k)
    → (k : ℕ) → k < suc (length js)
    → get_or out (get_or (j ∷ js) k 0) 0 ≡ i + k
placed-cons i j js out h hs zero l = omega (arith, h)
placed-cons i j js out h hs (suc k) l = let t = hs k (omega (arith, l)) in omega (arith, t)

get_or-replicate : (n j : ℕ) → j < n → get_or (replicate n false) j false ≡ false
get_or-replicate zero j h = absurd (omega (arith, h))
get_or-replicate (suc n) zero h = refl
get_or-replicate (suc n) (suc j) h = get_or-replicate n j (omega (arith, h))

All-get : (P : ℕ → Type 0) (xs : List ℕ) → All P xs → (k : ℕ) → k < length xs → P (get_or xs k 0)
All-get P [] hs k l = absurd (omega (arith, l))
All-get P (x ∷ xs) (h, hs) zero l = h
All-get P (x ∷ xs) (h, hs) (suc k) l = All-get P xs hs k (omega (arith, l))

get_or-map :
    {A : Type 0} (g : ℕ → A) (xs : List ℕ) (i : ℕ) (d : A)
    → i < length xs
    → get_or (map g xs) i d ≡ g (get_or xs i 0)
get_or-map g [] i d h = absurd (omega (arith, h))
get_or-map g (x ∷ xs) zero d h = refl
get_or-map g (x ∷ xs) (suc i) d h = get_or-map g xs i d (omega (arith, h))

module _ {W : Type 0} where
  place-placed :
      (i : ℕ) (es : List (EmbedData W)) (js : List ℕ) (seen : List Bool) (by_index : List ℕ)
      → map (λ (e : EmbedData W). e.index) es ≡ map pos js
      → All (IsFree seen) js
      → IsUnique js
      → length by_index ≡ length seen
      → (out : List ℕ) × (place i es seen by_index ≡ some out)
        × (length out ≡ length seen)
        × ((j : ℕ) → get_or seen j false ≡ true → get_or out j 0 ≡ get_or by_index j 0)
        × ((k : ℕ) → k < length js → get_or out (get_or js k 0) 0 ≡ i + k)
  unfolding place
  place-placed i [] [] seen by_index h free unique len =
      (by_index, refl, len, λ j t. refl, λ k l. absurd (omega (arith, l)))
  place-placed i [] (j ∷ js) seen by_index h free unique len = absurd (ground arith)
  place-placed i (e ∷ es) [] seen by_index h free unique len = absurd (ground arith)
  place-placed i (e ∷ es) (j ∷ js) seen by_index h (fr, free) (other, unique) len =
      let same : e.index ≡ pos j = ap (λ l. get_or l 0 (pos 0)) h in
      let rest : map (λ (x : EmbedData W). x.index) es ≡ map pos js = ap (drop 1) h in
      let found : free_index e.index seen ≡ some j =
        ap (λ x. free_index x seen) same ∙ free_index-IsFree seen j fr in
      let n = length-set seen j true in
      let (out, p, len', kept, placed) =
        place-placed (suc i) es js (set seen j true) (set by_index j i) rest
          (both (IsFree seen) (λ x. x ≢ j) (IsFree (set seen j true)) (set-IsFree seen j) js free
            other)
          unique (length-set by_index j i ∙ len ∙ sym n) in
      rw (found, place)
        (
          out,
          p,
          len' ∙ n,
          λ x t.
              kept x (get_or-set_ne seen j x true false (apart seen x j t fr.1) ∙ t)
              ∙ get_or-set_ne by_index j x i 0 (apart seen x j t fr.1),
          placed-cons i j js out
              (kept j (get_or-set_self seen j true false fr.0)
                ∙ get_or-set_self by_index j i 0 (omega (arith, len, fr.0)))
              placed,
        )

  -- Where the items of an answer have distinct positions of the texts, there is a vector for each text, and
  -- the vector of each item stands at its position, in whatever order the items come.
  pub reorder_batch_vectors-placed :
      (es : List (EmbedData W)) (js : List ℕ)
      → map (λ (e : EmbedData W). e.index) es ≡ map pos js
      → All (λ j. j < length es) js
      → IsUnique js
      → let vs = reorder_batch_vectors es (length es) in
        (length vs ≡ length es)
        × ((k : ℕ)
            → k < length es
            → get_or vs (get_or js k 0) []
              ≡ get_or (map (λ (e : EmbedData W). e.embedding) es) k [])
  unfolding reorder_batch_vectors in_order picked
  reorder_batch_vectors-placed es js h within unique =
      let n = length es in
      let len : length js ≡ n =
        sym (length-map pos js)
        ∙ sym (ap length h)
        ∙ length-map (λ (e : EmbedData W). e.index) es in
      let full : length (replicate n false) ≡ n = length-replicate n false in
      let (out, p, size, _, placed) =
        place-placed 0 es js (replicate n false) (replicate n 0) h
          (All-imp {P = λ j. j < n} {Q = IsFree (replicate n false)}
            (λ j l. (omega (arith, l, full), get_or-replicate n j l)) js within)
          unique (length-replicate n 0 ∙ sym full) in
      let e : (n == n) ≡ true = ground arith in
      let at = λ (i : ℕ). get_or (map (λ (x : EmbedData W). x.embedding) es) i [] in
      rw (e, p)
        (
          length-map at out ∙ size ∙ full,
          λ k l.
              get_or-map at out (get_or js k 0) [] (
                let b = All-get (λ j. j < n) js within k (omega (arith, l, len)) in
                omega (arith, b, size, full))
              ∙ ap at (placed k (omega (arith, l, len)) ∙ omega arith),
        )
