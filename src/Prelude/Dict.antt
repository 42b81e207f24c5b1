-- ===== src/Prelude/Dict.antt =====
-- Go maps, as association lists. Iteration visits the keys in the order of their insertion, one of
-- the orders that Go allows.
pub mod Entries
use vatbrain.Prelude.Lists.{All}
use vatbrain.Prelude.Tests.{Eq, Bool-cases, ◌==◌, if◌then◌else◌}
use mathlib.Core.Path.{◌≡◌, refl, subst}
use mathlib.Core.Logic.{inl, inr, ◌⊎◌}
use mathlib.Core.List.{List, [], ◌∷◌}
use mathlib.Core.Option.{Option, none, some, some-injective}
use native.Mathlib.Omega.{arith}

pub record Dict {ℓ} (K V : Type ℓ) : Type ℓ where
  pub entries : List (K × V)

module _ {ℓ} {K V : Type ℓ} where
  abbrev pub empty : Dict K V
  empty = record { entries = [] }

  values_of : List (K × V) → List V
  values_of [] = []
  values_of ((k, v) ∷ l) = v ∷ values_of l

  -- `for _, v := range m`
  unfoldable pub values : Dict K V → List V
  unfolding values_of
  values d = values_of d.entries

module _ {ℓ} {K V : Type ℓ} ⦃e : Eq K⦄ where
  lookup_in : K → List (K × V) → Option V
  lookup_in k [] = none
  lookup_in k ((j, v) ∷ l) = if j == k then some v else lookup_in k l

  insert_in : K → V → List (K × V) → List (K × V)
  insert_in k v [] = (k, v) ∷ []
  insert_in k v ((j, w) ∷ l) = if j == k then (j, v) ∷ l else (j, w) ∷ insert_in k v l

  delete_in : K → List (K × V) → List (K × V)
  delete_in k [] = []
  delete_in k ((j, w) ∷ l) = let rest = delete_in k l in if j == k then rest else (j, w) ∷ rest

  -- `v, ok := m[k]`
  unfoldable pub lookup : K → Dict K V → Option V
  unfolding lookup_in
  lookup k d = lookup_in k d.entries

  -- `m[k] = v`
  unfoldable pub insert : K → V → Dict K V → Dict K V
  unfolding insert_in
  insert k v d = record { entries = insert_in k v d.entries }

  -- `delete(m, k)`
  unfoldable pub delete : K → Dict K V → Dict K V
  unfolding delete_in
  delete k d = record { entries = delete_in k d.entries }

  lookup_in-insert_in :
      (k j : K) (v : V) (l : List (K × V))
      → lookup_in j (insert_in k v l) ≡ (if k == j then some v else lookup_in j l)
  unfolding lookup_in insert_in
  lookup_in-insert_in k j v [] = refl
  lookup_in-insert_in k j v ((i, w) ∷ l) =
      ground (arith, e.beq_iff k j, e.beq_iff i k, e.beq_iff i j, lookup_in-insert_in k j v l)

  pub lookup-insert :
      (k j : K) (v : V) (d : Dict K V)
      → lookup j (insert k v d) ≡ (if k == j then some v else lookup j d)
  unfolding lookup insert
  lookup-insert k j v d = lookup_in-insert_in k j v d.entries

  lookup_in-delete_in :
      (k j : K) (l : List (K × V))
      → lookup_in j (delete_in k l) ≡ (if k == j then none else lookup_in j l)
  unfolding lookup_in delete_in
  lookup_in-delete_in k j [] = ground arith
  lookup_in-delete_in k j ((i, w) ∷ l) =
      ground (arith, e.beq_iff k j, e.beq_iff i k, e.beq_iff i j, lookup_in-delete_in k j l)

  pub lookup-delete :
      (k j : K) (d : Dict K V) → lookup j (delete k d) ≡ (if k == j then none else lookup j d)
  unfolding lookup delete
  lookup-delete k j d = lookup_in-delete_in k j d.entries

  pub lookup-empty : (k : K) → lookup k (empty {V = V}) ≡ none
  unfolding lookup
  lookup-empty k = refl

  values_of-insert_in {κ} :
      (P : V → Type κ) (k : K) (v : V) (l : List (K × V))
      → P v
      → All P (values_of l)
      → All P (values_of (insert_in k v l))
  unfolding values_of insert_in
  values_of-insert_in P k v [] h hs = (h, tt)
  values_of-insert_in P k v ((j, w) ∷ l) h (hw, hs) =
      ground (arith, values_of-insert_in P k v l h hs)

  -- A property of every value is kept by an insertion of a value that has it.
  pub All-values-insert {κ} :
      (P : V → Type κ) (k : K) (v : V) (d : Dict K V)
      → P v
      → All P (values d)
      → All P (values (insert k v d))
  unfolding values insert
  All-values-insert P k v d = values_of-insert_in P k v d.entries

  lookup_in-All {κ} :
      (P : V → Type κ) (k : K) (l : List (K × V)) {v : V}
      → All P (values_of l)
      → lookup_in k l ≡ some v
      → P v
  unfolding values_of lookup_in
  lookup_in-All P k [] hs h = cc
  lookup_in-All P k ((j, w) ∷ l) (hw, hs) h = elim (Bool-cases (j == k)) [
    | inl e ↦ subst P (some-injective _ _ (rw e at h)) hw
    | inr e ↦ lookup_in-All P k l hs (rw e at h)
  ]

  pub lookup-All {κ} :
      (P : V → Type κ) (k : K) (d : Dict K V) {v : V} → All P (values d) → lookup k d ≡ some v → P v
  unfolding values lookup
  lookup-All P k d = lookup_in-All P k d.entries

  -- A value that is found after an insertion is the new one or was there before.
  pub lookup-insert_inv :
      (k j : K) (v : V) (d : Dict K V) {x : V}
      → lookup j (insert k v d) ≡ some x
      → ((k ≡ j) × (v ≡ x)) ⊎ (lookup j d ≡ some x)
  lookup-insert_inv k j v d h = let h' = lookup-insert k j v d in ground (arith, e.beq_iff k j)

  pub lookup-delete_inv :
      (k j : K) (d : Dict K V) {x : V} → lookup j (delete k d) ≡ some x → lookup j d ≡ some x
  lookup-delete_inv k j d h = let h' = lookup-delete k j d in ground (arith, e.beq_iff k j)

pub ruleset dict_laws = (lookup-insert, lookup-delete, lookup-empty)
