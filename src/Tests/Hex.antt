-- ===== src/Tests/Hex.antt =====
-- lib/hex.js: the text `FF0c10` of the source's demonstration, and what is no hexadecimal digit.
use u_fork.Prelude.{◌≡◌, refl, [], ◌∷◌, arith}
use u_fork.Hex.{
  digit, upper_case, to_string16, pad_start, from, encode, is_terminator, is_space, digit_value,
  parse_pair, decode,
}
use u_fork.Hex.RoundTrip.{decode-encode}

hex_runs :
    (decode (70 ∷ 70 ∷ 48 ∷ 99 ∷ 49 ∷ 48 ∷ []) ≡ 255 ∷ 12 ∷ 16 ∷ [])
    × (encode (255 ∷ 12 ∷ []) ≡ 70 ∷ 70 ∷ 48 ∷ 67 ∷ [])
    × (from 6 16 ≡ 48 ∷ 48 ∷ 48 ∷ 54 ∷ [])
    × (decode (120 ∷ 10 ∷ 45 ∷ 49 ∷ 55 ∷ []) ≡ 255 ∷ [])
unfolding digit upper_case to_string16 pad_start from encode is_terminator is_space digit_value
    parse_pair decode
hex_runs = (refl, refl, refl, refl)

decode-encode_example : decode (encode (255 ∷ 12 ∷ 0 ∷ [])) ≡ 255 ∷ 12 ∷ 0 ∷ []
decode-encode_example =
    decode-encode (255 ∷ 12 ∷ 0 ∷ []) (omega arith, (omega arith, (omega arith, tt)))
