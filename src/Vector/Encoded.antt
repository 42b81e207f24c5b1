-- ===== src/Vector/Encoded.antt =====
-- The binary form of a vector, internal/vector/vector.go. The bits of a `float64` are those of the `math`
-- package: two functions, with what the code relies on where it is needed.
use vatbrain.Prelude.{
  ℕ, zero, suc, ◌+◌, ◌*◌, ◌/◌, ◌%◌, ◌^◌, ◌<◌, ◌≡◌, refl, ap, ap₂, ◌∙◌, arith, List, [], ◌∷◌, ◌++◌,
  length, length-append, take, drop, All, Bool-cases, inl, inr, nat_eq, ◌==◌, ◌!=◌, if◌then◌else◌,
}

-- the lowest `n` bytes of a number, the lowest first: `PutUint64` for eight
unfoldable pub put_bytes : ℕ → ℕ → List ℕ
put_bytes zero x = []
put_bytes (suc n) x = x % 256 ∷ put_bytes n (x / 256)

-- `Uint64`
unfoldable pub read_bytes : List ℕ → ℕ
read_bytes [] = 0
read_bytes (b ∷ bs) = b + 256 * read_bytes bs

module _ {W : Type 0} (to_bits : W → ℕ) where
  unfoldable pub encode : List W → List ℕ
  unfolding put_bytes
  encode [] = []
  encode (x ∷ v) = put_bytes 8 (to_bits x) ++ encode v

module _ {W : Type 0} (from_bits : ℕ → W) where
  -- the loop over `n` numbers
  unfoldable pub decode_loop : ℕ → List ℕ → List W
  unfolding read_bytes
  decode_loop zero b = []
  decode_loop (suc n) b = from_bits (read_bytes (take 8 b)) ∷ decode_loop n (drop 8 b)

  unfoldable pub decode : List ℕ → List W
  unfolding decode_loop
  decode b = if length b % 8 != 0 then [] else decode_loop (length b / 8) b

module _ {W : Type 0} (to_bits : W → ℕ) (from_bits : ℕ → W) where
  -- What the `math` package promises of a number: it has a word of bits, and is got back from it.
  pub record HasBits (x : W) : Type 0 where
    pub word : to_bits x < 2 ^ 64
    pub back : from_bits (to_bits x) ≡ x

length-put_bytes : (n x : ℕ) → length (put_bytes n x) ≡ n
unfolding put_bytes
length-put_bytes zero x = refl
length-put_bytes (suc n) x = ap suc (length-put_bytes n (x / 256))

take-append_length :
    (n : ℕ) (xs ys : List ℕ) → length xs ≡ n → (take n (xs ++ ys) ≡ xs) × (drop n (xs ++ ys) ≡ ys)
take-append_length zero [] ys h = (refl, refl)
take-append_length zero (x ∷ xs) ys h = absurd (omega arith)
take-append_length (suc n) [] ys h = absurd (omega arith)
take-append_length (suc n) (x ∷ xs) ys h =
    let (t, d) = take-append_length n xs ys (omega arith) in (ap (λ l. x ∷ l) t, d)

read_bytes-put_bytes : (n x : ℕ) → x < 256 ^ n → read_bytes (put_bytes n x) ≡ x
unfolding put_bytes read_bytes
read_bytes-put_bytes zero x h = omega arith
read_bytes-put_bytes (suc n) x h =
    let rest = read_bytes-put_bytes n (x / 256) (omega arith) in omega (arith, rest)

module _ {W : Type 0} (to_bits : W → ℕ) where
  length-encode : (v : List W) → length (encode to_bits v) ≡ 8 * length v
  unfolding encode
  length-encode [] = refl
  length-encode (x ∷ v) = omega (
    arith,
    length-append (put_bytes 8 (to_bits x)) (encode to_bits v),
    length-put_bytes 8 (to_bits x),
    length-encode v,
  )

module _ {W : Type 0} (from_bits : ℕ → W) where
  length-decode_loop : (n : ℕ) (b : List ℕ) → length (decode_loop from_bits n b) ≡ n
  unfolding decode_loop
  length-decode_loop zero b = refl
  length-decode_loop (suc n) b = ap suc (length-decode_loop n (drop 8 b))

  length-decode :
      (b : List ℕ) → 8 * length (decode from_bits b) ≡ (if length b % 8 == 0 then length b else 0)
  unfolding decode
  length-decode b =
      let len = length-decode_loop (length b / 8) b in
      elim (Bool-cases (length b % 8 == 0)) [
        | inl e ↦ rw e (ground (arith, len, nat_eq.beq_iff (length b % 8) 0, e))
        | inr e ↦ rw e refl
      ]

module _ {W : Type 0} (to_bits : W → ℕ) (from_bits : ℕ → W) where
  decode_loop-encode :
      (v : List W)
      → All (HasBits to_bits from_bits) v
      → decode_loop from_bits (length v) (encode to_bits v) ≡ v
  unfolding decode_loop encode
  decode_loop-encode [] h = refl
  decode_loop-encode (x ∷ v) (h, hs) =
      let bytes = put_bytes 8 (to_bits x) in
      let (t, r) = take-append_length 8 bytes (encode to_bits v) (length-put_bytes 8 (to_bits x)) in
      ap₂ (λ y l. y ∷ l)
        (ap (λ l. from_bits (read_bytes l)) t
          ∙ ap from_bits (read_bytes-put_bytes 8 (to_bits x) h.word)
          ∙ h.back)
        (ap (decode_loop from_bits (length v)) r ∙ decode_loop-encode v hs)

  -- A vector of numbers that the `math` package gets back from their bits is read back from its binary
  -- form. The form has eight bytes for each number, and so has whatever is read, but where the bytes are
  -- not so many: they are then read as nothing.
  pub decode-encode :
      (v : List W) (b : List ℕ)
      → All (HasBits to_bits from_bits) v
      → (decode from_bits (encode to_bits v) ≡ v)
        × (length (encode to_bits v) ≡ 8 * length v)
        × (8 * length (decode from_bits b) ≡ (if length b % 8 == 0 then length b else 0))
  unfolding decode
  decode-encode v b h =
      let len = length-encode to_bits v in
      let whole : length (encode to_bits v) % 8 ≡ 0 = omega (arith, len) in
      let many : length (encode to_bits v) / 8 ≡ length v = omega (arith, len) in
      (rw (whole, many) (decode_loop-encode v h), len, length-decode from_bits b)
