-- ===== src/Embedder/Openai/Retried.antt =====
-- The retries of internal/embedder/batch.go, over any service.
use native.Mathlib.Nat.{mul-le-mul_left, le-mul_of_pos_right, one-le-pow, pow-le-pow_right}
use mathlib.Core.Path.{subst}
use vatbrain.Prelude.{
  ℕ, zero, suc, ◌+◌, ◌*◌, ◌-◌, ◌^◌, ◌%◌, ◌≤◌, ◌<◌, ◌≡◌, refl, sym, Bool, Bool-cases, inl, inr, true,
  false, List, [], ◌∷◌, ◌++◌, length, length-append, All, All-append, ltb, nat_eq, arith,
  if◌then◌else◌,
}
use vatbrain.Prelude.Int.{ℤ, pos}
use vatbrain.Prelude.Result.{Result, Error, ok, err, embed_failed}
use vatbrain.Prelude.Text.{Text}
use vatbrain.Embedder.Openai.{
  EmbeddingService, Attempts, embed_retry_backoff_cap, signed64, capped, wait_before,
  embed_chunk_once, attempts, after_attempt, embed_chunk_with_retry,
}

-- A wait is no shorter than the first one and no longer than the cap.
abbrev pub IsFair : ℕ → ℤ → Type 0
IsFair backoff w = (n : ℕ) × (w ≡ pos n) × (backoff ≤ n) × (n ≤ embed_retry_backoff_cap)

signed64-small : (n : ℕ) → n < 2 ^ 63 → signed64 n ≡ pos n
unfolding signed64
signed64-small n h =
    let e : n % 2 ^ 64 ≡ n = omega (arith, h) in
    let l : ltb n (2 ^ 63) ≡ true = ground (arith, h) in rw (e, l) refl

capped-IsFair :
    (backoff n : ℕ)
    → backoff ≤ embed_retry_backoff_cap
    → backoff ≤ n
    → IsFair backoff (capped (pos n))
unfolding capped
capped-IsFair backoff n h l = elim (Bool-cases (ltb embed_retry_backoff_cap n)) [
  | inl e ↦ rw e (embed_retry_backoff_cap, refl, h, omega arith)
  | inr e ↦ rw e (n, refl, l, ground (arith, e))
]

wait_before-IsFair :
    (backoff n max : ℕ)
    → backoff ≤ embed_retry_backoff_cap
    → backoff * 2 ^ max < 2 ^ 63
    → n ≤ max
    → IsFair backoff (wait_before backoff n)
unfolding wait_before
wait_before-IsFair backoff n max h small le =
    let product = backoff * 2 ^ (n - 1) in
    let grow : 2 ^ (n - 1) ≤ 2 ^ max = pow-le-pow_right {n = 2} (omega arith) (omega (arith, le)) in
    let one : 0 < 2 ^ (n - 1) = one-le-pow (n - 1) 2 (omega arith) in
    let b : product ≤ backoff * 2 ^ max = mul-le-mul_left backoff grow in
    let l : backoff ≤ product = le-mul_of_pos_right backoff one in
    subst (λ w. IsFair backoff (capped w)) (sym (signed64-small product (omega (arith, b, small))))
      (capped-IsFair backoff product h l)

after_attempt-cases :
    {W S : Type 0} (P : Attempts W S → Type 0) (r : (Result (List (List W)) × Bool) × S)
    (waits : List ℤ) (again : Error → S → Attempts W S)
    → ((x : Result (List (List W))) (s : S) → P (record { result = x; waits = waits; service = s }))
    → ((e : Error) (s : S) → P (again e s))
    → P (after_attempt r waits again)
after_attempt-cases P ((ok vecs, _), s) waits again stop go = stop (ok vecs) s
after_attempt-cases P ((err e, true), s) waits again stop go = go e s
after_attempt-cases P ((err e, false), s) waits again stop go = stop (err e) s

module _ {W S B : Type 0} (service : EmbeddingService W S B) (backoff max : ℕ) (chunk : List Text)
    (short : backoff ≤ embed_retry_backoff_cap) (small : backoff * 2 ^ max < 2 ^ 63) where
  next_wait :
      (n : ℕ) (waits : List ℤ)
      → n ≤ max
      → length waits ≤ n - 1
      → All (IsFair backoff) waits
      → let waits' = if ltb 0 n then waits ++ wait_before backoff n ∷ [] else waits in
        (length waits' ≤ n) × All (IsFair backoff) waits'
  next_wait n waits le few fair =
      let len = length-append waits (wait_before backoff n ∷ []) in
      elim (Bool-cases (ltb 0 n)) [
        | inl e ↦ rw e (
          ground (arith, len, few, e),
          All-append (IsFair backoff) waits (wait_before backoff n ∷ []) fair
              (wait_before-IsFair backoff n max short small le, tt),
        )
        | inr e ↦ rw e (omega (arith, few), fair)
      ]

  attempts-IsFair :
      (left n : ℕ) (last : Error) (waits : List ℤ) (s : S)
      → n + left ≤ suc max
      → length waits ≤ n - 1
      → All (IsFair backoff) waits
      → let a = attempts service backoff chunk left n last waits s in
        (length a.waits ≤ max) × All (IsFair backoff) a.waits
  unfolding attempts
  attempts-IsFair zero n last waits s le few fair = (omega (arith, few, le), fair)
  attempts-IsFair (suc left) n last waits s le few fair =
      let waits' = if ltb 0 n then waits ++ wait_before backoff n ∷ [] else waits in
      let (few', fair') = next_wait n waits (omega (arith, le)) few fair in
      after_attempt-cases
        (λ (a : Attempts W S). (length a.waits ≤ max) × All (IsFair backoff) a.waits)
        (embed_chunk_once service chunk s) waits'
        (λ e s'. attempts service backoff chunk left (suc n) e waits' s')
        (λ x s'. (omega (arith, few', le), fair'))
        (λ e s'.
          attempts-IsFair left (suc n) e waits' s' (omega (arith, le)) (omega (arith, few')) fair')

-- Where the first backoff is within the cap and the doubling stays inside of 63 bits, there are no more
-- waits than retries, and each is no shorter than the first backoff and no longer than the cap.
pub embed_chunk_with_retry-IsFair :
    {W S B : Type 0} (service : EmbeddingService W S B) (max backoff : ℕ) (chunk : List Text)
    (s : S)
    → backoff ≤ embed_retry_backoff_cap
    → backoff * 2 ^ max < 2 ^ 63
    → let a = embed_chunk_with_retry service max backoff chunk s in
      (length a.waits ≤ max) × All (IsFair backoff) a.waits
unfolding embed_chunk_with_retry
embed_chunk_with_retry-IsFair service max backoff chunk s short small =
    attempts-IsFair service backoff max chunk short small (suc max) 0 embed_failed [] s
      (omega arith) (omega arith) tt
