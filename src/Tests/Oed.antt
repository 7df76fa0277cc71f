-- ===== src/Tests/Oed.antt =====
-- lib/oed_lite.js: octets of integers and of a blob, and the theorems on them. A truncated number is
-- read as NaN.
use u_fork.Prelude.{zero, suc, ◌+◌, ◌-◌, ◌≡◌, ◌≢◌, refl, [], ◌∷◌, ◌++◌, length, arith}
use u_fork.Prelude.Int.{ℤ, pos, negsuc}
use u_fork.Ufork.Raw.{to_uint32}
use u_fork.Oed.{
  radix_digits, encode_magnitude, encode_signed, encode_integer, encode_blob, Sum, exact, rounded,
  sum_of, Number, whole, other, found, failed, exhausted, integer_required, sum_octets,
  decode_magnitude, decode_prefixed, decode_number, read_blob, blob_of, decode_blob,
}
use u_fork.Oed.RoundTrip.{decode_number-encode_integer, decode_blob-encode_blob}
use u_fork.Oed.Fuel.{decode_number_ends}

-- `integer * (base ** exponent)`, of a safe integer and the exponent 0.
abbrev scaled : Sum → ℤ → ℤ → Number
scaled (exact integer) base (pos zero) = whole integer
scaled (exact integer) base (pos (suc n)) = other
scaled (exact integer) base (negsuc n) = other
scaled (rounded negative count octets) base exponent = other

oed_runs :
    (encode_integer (negsuc 111) ≡ 144 ∷ [])
    × (encode_integer (pos 128) ≡ 130 ∷ 8 ∷ 128 ∷ [])
    × (encode_integer (negsuc 0xFFFF) ≡ 131 ∷ 24 ∷ 0 ∷ 0 ∷ 1 ∷ [])
    × (encode_integer (pos 0x100000000) ≡ 130 ∷ 40 ∷ 0 ∷ 0 ∷ 0 ∷ 0 ∷ 1 ∷ [])
    × (decode_number scaled 3 (130 ∷ 16 ∷ 1 ∷ []) 0 ≡ found other 4)
    × (decode_blob scaled 3 (138 ∷ 130 ∷ 16 ∷ 1 ∷ []) 0 ≡ failed integer_required 1)
unfolding sum_of radix_digits encode_magnitude encode_signed encode_integer to_uint32 sum_octets
    decode_magnitude decode_prefixed decode_number read_blob blob_of decode_blob
oed_runs = (refl, refl, refl, refl, refl, refl)

decode_number-encode_integer_example :
    decode_number scaled 2 (1 ∷ encode_integer (negsuc 299) ++ (7 ∷ [])) 1
    ≡ found (whole (negsuc 299)) (1 + length (encode_integer (negsuc 299)))
decode_number-encode_integer_example =
    decode_number-encode_integer scaled (λ n _. refl) 0
      (1 ∷ encode_integer (negsuc 299) ++ (7 ∷ [])) (7 ∷ []) 1 (negsuc 299) (omega arith) refl

decode_blob-encode_blob_example :
    decode_blob scaled 2 (9 ∷ encode_blob (5 ∷ 6 ∷ []) ++ (7 ∷ [])) 1
    ≡ found (5 ∷ 6 ∷ []) (1 + length (encode_blob (5 ∷ 6 ∷ [])))
decode_blob-encode_blob_example =
    decode_blob-encode_blob scaled (λ n _. refl) 0 (9 ∷ []) (5 ∷ 6 ∷ []) (7 ∷ []) (omega arith)

decode_number_ends_example :
    decode_number scaled (suc (4 - 0)) (134 ∷ 10 ∷ 130 ∷ 8 ∷ []) 0 ≢ exhausted
decode_number_ends_example = decode_number_ends scaled (134 ∷ 10 ∷ 130 ∷ 8 ∷ []) 0
