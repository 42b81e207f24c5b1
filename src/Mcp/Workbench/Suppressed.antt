-- ===== src/Mcp/Workbench/Suppressed.antt =====
-- Facts on the pitfalls of internal/store/memory: what keeps a pitfall suppressed, and keyed by its id.
use mathlib.Core.Option.{some-injective}
use vatbrain.Prelude.{
  nat_beq_iff, ◌≡◌, ◌≢◌, ap, sym, ◌∙◌, inl, inr, true, some, Option-cases, Bool-cases, nat_eq, ◌==◌,
  arith,
}
use vatbrain.Prelude.Dict.{lookup, lookup-insert, lookup-insert_inv}
use vatbrain.Float.{Float64}
use vatbrain.Models.Common.{Uuid}
use vatbrain.Models.Pitfall.{PitfallMemory, PitfallStatus}
use vatbrain.Store.Memory.Backend.{memory_store}
use vatbrain.Store.Memory.Pitfalls.{write_pitfall}
use vatbrain.Store.Memory.State.{Store, change_pitfall}

module _ {W : Type 0} ⦃d : Float64 W⦄ where
  -- The pitfall is stored, and its status is suppressed.
  abbrev pub IsSuppressed : Uuid → Store W → Type 0
  IsSuppressed id s =
      (p : PitfallMemory W) × (lookup id s.pitfalls ≡ some p)
      × (p.status ≡ PitfallStatus.suppressed)

  pub change-IsSuppressed :
      (id j : Uuid) (f : PitfallMemory W → PitfallMemory W) (s : Store W)
      → ((p : PitfallMemory W) → (f p).status ≡ p.status)
      → IsSuppressed id s
      → IsSuppressed id (change_pitfall j f s).1
  change-IsSuppressed id j f s same (p, e, q) =
      let at_key : (p' : PitfallMemory W)
          → (j == id) ≡ true
          → lookup j s.pitfalls ≡ some p'
          → p' ≡ p =
        λ p' eq e'.
          some-injective _ _
            (sym e' ∙ ap (λ k. lookup k s.pitfalls) ((nat_beq_iff j id).0 eq) ∙ e) in
      elim (Option-cases (lookup j s.pitfalls)) [
        | inl n ↦ rw n (p, e, q)
        | inr (p', e') ↦ rw e' (elim (Bool-cases (j == id)) [
          | inl eq ↦ (
            f p',
            rw (lookup-insert, eq),
            same p' ∙ ap (λ (r : PitfallMemory W). r.status) (at_key p' eq e') ∙ q,
          )
          | inr ne ↦ (p, rw (lookup-insert, ne) e, q)
        ])
      ]

  -- Every pitfall is stored under its own id.
  pub record IsKeyed (s : Store W) : Type 0 where
    pub at_key : (k : Uuid) (p : PitfallMemory W) → lookup k s.pitfalls ≡ some p → p.id ≡ k

  pub change-IsKeyed :
      (j : Uuid) (f : PitfallMemory W → PitfallMemory W) (s : Store W)
      → ((p : PitfallMemory W) → (f p).id ≡ p.id)
      → IsKeyed s
      → IsKeyed (change_pitfall j f s).1
  change-IsKeyed j f s same v = elim (Option-cases (lookup j s.pitfalls)) [
    | inl n ↦ rw n v
    | inr (p, e) ↦ rw e (record {
      at_key = λ k q h. elim (lookup-insert_inv j k (f p) s.pitfalls h) [
        | inl (eq, same_q) ↦
            ap (λ (r : PitfallMemory W). r.id) (sym same_q) ∙ same p ∙ v.at_key j p e ∙ eq
        | inr old ↦ v.at_key k q old
      ];
    })
  ]

  pub write-IsKeyed :
      (p : PitfallMemory W) (s : Store W) → IsKeyed s → IsKeyed (write_pitfall p s).1
  unfolding write_pitfall
  write-IsKeyed p s v = record {
    at_key = λ k q h. elim (lookup-insert_inv p.id k p s.pitfalls h) [
      | inl (eq, same_q) ↦ ap (λ (r : PitfallMemory W). r.id) (sym same_q) ∙ eq
      | inr old ↦ v.at_key k q old
    ];
  }

  pub write-IsSuppressed_ne :
      (id : Uuid) (p : PitfallMemory W) (s : Store W)
      → p.id ≢ id
      → IsSuppressed id s
      → IsSuppressed id (write_pitfall p s).1
  unfolding write_pitfall
  write-IsSuppressed_ne id p s ne (q, e, st) = (q, rw lookup-insert (ground (arith, ne)), st)

  -- Writing a found pitfall back with another anchor keeps every status.
  pub write-IsSuppressed_found :
      (id j : Uuid) (p p' : PitfallMemory W) (s : Store W)
      → IsKeyed s
      → lookup j s.pitfalls ≡ some p
      → p'.id ≡ p.id
      → p'.status ≡ p.status
      → IsSuppressed id s
      → IsSuppressed id (write_pitfall p' s).1
  unfolding write_pitfall
  write-IsSuppressed_found id j p p' s v found same_id same (q, e, st) =
      elim (Bool-cases (p'.id == id)) [
        | inl eq ↦ (
          p',
          rw (lookup-insert, eq),
          same ∙ ap (λ (r : PitfallMemory W). r.status) (some-injective _ _ (here eq)) ∙ st,
        )
        | inr ne ↦ (q, rw (lookup-insert, ne) e, st)
      ]
    where
      here : (p'.id == id) ≡ true → some p ≡ some q
      here eq =
          sym found
          ∙ ap (λ k. lookup k s.pitfalls)
              (sym (v.at_key j p found) ∙ sym same_id ∙ (nat_beq_iff p'.id id).0 eq)
          ∙ e
