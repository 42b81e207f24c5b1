-- ===== src/Prelude/Result.antt =====
-- Go's `(value, error)` pairs, and operations on a store that may fail.
use mathlib.Core.Path.{◌≡◌, ap}
use mathlib.Core.Bool.{Bool, true, false}

-- The errors that the code tells apart; a message text is not modelled.
pub data Error : Type 0 where
  not_found : Error
  duplicate : Error
  invalid_action : Error
  invalid_argument : Error
  unsupported : Error
  not_configured : Error
  unknown_session : Error
  embed_failed : Error
  llm_failed : Error
  decode_failed : Error
  store_failed : Error

pub data Result {ℓ} (A : Type ℓ) : Type ℓ where
  ok : A → Result A
  err : Error → Result A

-- An operation returns its result beside the store that it leaves: what was written before a
-- failure stays written.
abbrev pub Action {ℓ} : Type ℓ → Type ℓ → Type ℓ
Action S A = S → Result A × S

-- The result of a Go function that returns only an error.
abbrev pub Done : Type 0
Done = Unit {0}

abbrev pub is_ok {ℓ} : {A : Type ℓ} → Result A → Bool
is_ok (ok a) = true
is_ok (err e) = false

module _ {ℓ} {S A : Type ℓ} where
  abbrev pub pure : A → Action S A
  pure a s = (ok a, s)

  abbrev pub raise : Error → Action S A
  raise e s = (err e, s)

module _ {ℓ} {S A B : Type ℓ} where
  abbrev pub continue : Result A → (A → Action S B) → Action S B
  continue (ok a) f s = f a s
  continue (err e) f s = (err e, s)

  -- `if err != nil { return err }`
  infixl 5 ◌>>=◌ ◌>>◌
  abbrev pub ◌>>=◌ : Action S A → (A → Action S B) → Action S B
  ◌>>=◌ m f s = let (r, s') = m s in continue r f s'

  abbrev pub ◌>>◌ : Action S A → Action S B → Action S B
  m >> n = m >>= λ _. n

  pub bind-ok :
      (m : Action S A) (f : A → Action S B) (s : S) {a : A} {s' : S}
      → m s ≡ (ok a, s')
      → (m >>= f) s ≡ f a s'
  bind-ok m f s h = ap (λ (r : Result A × S). continue r.0 f r.1) h

  pub bind-err :
      (m : Action S A) (f : A → Action S B) (s : S) {e : Error} {s' : S}
      → m s ≡ (err e, s')
      → (m >>= f) s ≡ (err e, s')
  bind-err m f s h = ap (λ (r : Result A × S). continue r.0 f r.1) h

  -- `_ = m`: the error is dropped, and the store goes on.
  infixl 5 ◌>>!◌
  abbrev pub ◌>>!◌ : Action S A → Action S B → Action S B
  ◌>>!◌ m n s = let (r, s') = m s in n s'
