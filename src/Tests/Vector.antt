-- ===== src/Tests/Vector.antt =====
-- The theorem on the binary form of internal/vector, applied to numbers that are their own bits.
use vatbrain.Prelude.{
  ℕ, ◌*◌, ◌%◌, ◌≡◌, refl, List, [], ◌∷◌, All, length, nat_eq, ◌==◌, arith, if◌then◌else◌,
}
use vatbrain.Vector.Encoded.{encode, decode, decode-encode, HasBits}

abbrev three_numbers : List ℕ
three_numbers = 0 ∷ 258 ∷ 4611686018427387904 ∷ []

abbrev three_bytes : List ℕ
three_bytes = 1 ∷ 2 ∷ 3 ∷ []

abbrev itself : ℕ → ℕ
itself n = n

three-HasBits : All (HasBits itself itself) three_numbers
three-HasBits = (
  record { word = ground arith; back = refl },
  (record { word = ground arith; back = refl }, (record { word = ground arith; back = refl }, tt)),
)

decode-encode_example :
    (decode itself (encode itself three_numbers) ≡ three_numbers)
    × (length (encode itself three_numbers) ≡ 8 * length three_numbers)
    × (8 * length (decode itself three_bytes)
        ≡ (if length three_bytes % 8 == 0 then length three_bytes else 0))
decode-encode_example = decode-encode itself itself three_numbers three_bytes three-HasBits
