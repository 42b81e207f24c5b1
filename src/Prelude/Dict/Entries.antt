-- ===== src/Prelude/Dict/Entries.antt =====
-- Properties of the pairs of a dictionary.
use mathlib.Core.Path.{subst}
use mathlib.Core.Option.{some-injective}
use vatbrain.Prelude.Tests.{Eq, ◌==◌, Bool-cases}
use vatbrain.Prelude.Lists.{All}
use vatbrain.Prelude.Dict.{Dict, values, values_of, lookup, lookup_in, insert, insert_in}
use mathlib.Core.Path.{◌≡◌, refl, sym}
use mathlib.Core.Logic.{inl, inr}
use mathlib.Core.Option.{some}
use mathlib.Core.List.{List, [], ◌∷◌}

module _ {K : Type 0} ⦃e : Eq K⦄ {V : Type 0} where
  -- `P` holds of each key with its value.
  abbrev pub AllPairs {κ} : (K → V → Type κ) → List (K × V) → Type κ
  AllPairs P [] = Unit
  AllPairs P ((k, v) ∷ l) = P k v × AllPairs P l

  insert_in-AllPairs {κ} :
      (P : K → V → Type κ) (k : K) (v : V) (l : List (K × V))
      → P k v
      → AllPairs P l
      → AllPairs P (insert_in k v l)
  unfolding insert_in
  insert_in-AllPairs P k v [] h hs = (h, tt)
  insert_in-AllPairs P k v ((j, w) ∷ l) h (hw, hs) = elim (Bool-cases (j == k)) [
    | inl q ↦ rw q (subst (λ i. P i v) (sym ((e.beq_iff j k).0 q)) h, hs)
    | inr q ↦ rw q (hw, insert_in-AllPairs P k v l h hs)
  ]

  pub insert-AllPairs {κ} :
      (P : K → V → Type κ) (k : K) (v : V) (m : Dict K V)
      → P k v
      → AllPairs P m.entries
      → AllPairs P (insert k v m).entries
  unfolding insert
  insert-AllPairs P k v m = insert_in-AllPairs P k v m.entries

  lookup_in-AllPairs {κ} :
      (P : K → V → Type κ) (k : K) (l : List (K × V)) {v : V}
      → AllPairs P l
      → lookup_in k l ≡ some v
      → P k v
  unfolding lookup_in
  lookup_in-AllPairs P k [] hs h = cc
  lookup_in-AllPairs P k ((j, w) ∷ l) {v} (hw, hs) h = elim (Bool-cases (j == k)) [
    | inl q ↦
        let same = some-injective _ _ (rw q at h) in
        subst (λ i. P i v) ((e.beq_iff j k).0 q) (subst (P j) same hw)
    | inr q ↦ lookup_in-AllPairs P k l hs (rw q at h)
  ]

  pub lookup-AllPairs {κ} :
      (P : K → V → Type κ) (k : K) (m : Dict K V) {v : V}
      → AllPairs P m.entries
      → lookup k m ≡ some v
      → P k v
  unfolding lookup
  lookup-AllPairs P k m = lookup_in-AllPairs P k m.entries

  values_of-AllPairs {κ μ} :
      (P : K → V → Type κ) (Q : V → Type μ) (l : List (K × V))
      → ((k : K) (v : V) → P k v → Q v)
      → AllPairs P l
      → All Q (values_of l)
  unfolding values_of
  values_of-AllPairs P Q [] f h = tt
  values_of-AllPairs P Q ((k, v) ∷ l) f (h, hs) = (f k v h, values_of-AllPairs P Q l f hs)

  pub values-AllPairs {κ μ} :
      (P : K → V → Type κ) (Q : V → Type μ) (m : Dict K V)
      → ((k : K) (v : V) → P k v → Q v)
      → AllPairs P m.entries
      → All Q (values m)
  unfolding values
  values-AllPairs P Q m = values_of-AllPairs P Q m.entries

  AllPairs-imp {κ μ} :
      (P : K → V → Type κ) (Q : K → V → Type μ) (l : List (K × V))
      → ((k : K) (v : V) → P k v → Q k v)
      → AllPairs P l
      → AllPairs Q l
  AllPairs-imp P Q [] f h = tt
  AllPairs-imp P Q ((k, v) ∷ l) f (h, hs) = (f k v h, AllPairs-imp P Q l f hs)

  abbrev IsKeyIn : List (K × V) → K → V → Type 0
  IsKeyIn l k v = (w : V) × (lookup_in k l ≡ some w)

  keys_of-IsKeyIn : (l : List (K × V)) → AllPairs (IsKeyIn l) l
  unfolding lookup_in
  keys_of-IsKeyIn [] = tt
  keys_of-IsKeyIn ((j, w) ∷ l) = (
    (w, rw ((e.beq_iff j j).1 refl)),
    AllPairs-imp (IsKeyIn l) _ l
        (λ k v (u, h). elim (Bool-cases (j == k)) [ inl q ↦ (w, rw q) | inr q ↦ (u, rw q h) ])
        (keys_of-IsKeyIn l),
  )

  -- Every key of the dictionary is found.
  pub entries-IsFound : (m : Dict K V) → AllPairs (λ k v. (w : V) × (lookup k m ≡ some w)) m.entries
  unfolding lookup
  entries-IsFound m = keys_of-IsKeyIn m.entries

  -- The pairs and one more fact on each.
  pub AllPairs-both {κ μ} :
      (P : K → V → Type κ) (Q : K → V → Type μ) (l : List (K × V))
      → AllPairs P l
      → AllPairs Q l
      → AllPairs (λ k v. P k v × Q k v) l
  AllPairs-both P Q [] h k = tt
  AllPairs-both P Q ((i, v) ∷ l) (h, hs) (k, ks) = ((h, k), AllPairs-both P Q l hs ks)
