-- ===== src/Hex/RoundTrip.antt =====
-- lib/hex.js: bytes are decoded from their encoding.
use native.Mathlib.Nat.{mod-lt, mod-eq_of_lt}
use u_fork.Prelude.{
  ℕ, suc, ◌+◌, ◌*◌, ◌/◌, ◌%◌, ◌<◌, ◌≡◌, refl, ap, ◌∙◌, true, false, ◌==◌, List, [], ◌∷◌, ◌++◌, some,
  arith, Bool-cases, inl, inr,
}
use u_fork.Hex.{
  digit, upper_case, to_string16, pad_start, from, encode, is_terminator, is_space, digit_value,
  parse_pair, decode,
}

-- The upper-case digit is neither space nor sign, and is read back.
digit_read :
    (d : ℕ)
    → d < 16
    → (digit_value (upper_case (digit d)) ≡ some d)
      × (is_space (upper_case (digit d)) ≡ false)
      × (is_terminator (upper_case (digit d)) ≡ false)
      × ((upper_case (digit d) == 43) ≡ false)
      × ((upper_case (digit d) == 45) ≡ false)
unfolding digit upper_case digit_value is_space is_terminator
digit_read d h = ground arith

pub one_digit : (fuel d : ℕ) → d < 16 → to_string16 (suc fuel) d ≡ digit d ∷ []
unfolding to_string16
one_digit fuel d h = rw (small d h, mod-eq_of_lt h) refl
  where
    small : (d : ℕ) → d < 16 → (d / 16 == 0) ≡ true
    small d h = ground arith

pub more_digits :
    (fuel number : ℕ)
    → (number / 16 == 0) ≡ false
    → to_string16 (suc fuel) number ≡ to_string16 fuel (number / 16) ++ digit (number % 16) ∷ []
unfolding to_string16
more_digits fuel number h = rw h refl

-- A number of one digit has a zero in front.
leading_zero :
    (byte : ℕ) → byte < 16 → 48 ∷ digit byte ∷ [] ≡ digit (byte / 16) ∷ digit (byte % 16) ∷ []
unfolding digit
leading_zero byte h =
    let high : 0 ≡ byte / 16 = omega arith in
    let low : byte ≡ byte % 16 = omega arith in
    ap (λ k. digit k ∷ digit byte ∷ []) high ∙ ap (λ k. digit (byte / 16) ∷ digit k ∷ []) low

-- A byte has two digits.
from_byte : (byte : ℕ) → byte < 256 → from byte 8 ≡ digit (byte / 16) ∷ digit (byte % 16) ∷ []
unfolding from pad_start
from_byte byte h = elim (Bool-cases (byte / 16 == 0)) [
  | inl e ↦
      let small : byte < 16 = below e in rw (one_digit 13 byte small) (leading_zero byte small)
  | inr e ↦ rw (more_digits 13 byte e, one_digit 12 (byte / 16) (omega arith)) refl
]
  where
    below : (byte / 16 == 0) ≡ true → byte < 16
    below e = ground arith

parsed :
    (h l : ℕ)
    → h < 16
    → l < 16
    → parse_pair (upper_case (digit h)) (upper_case (digit l)) ≡ 16 * h + l
unfolding parse_pair
parsed h l a b =
    let (value, space, _, plus, minus) = digit_read h a in
    rw (space, plus, minus, value, (digit_read l b).0) refl

-- Every byte below 256.
abbrev pub IsBytes : List ℕ → Type 0
IsBytes [] = Unit {0}
IsBytes (byte ∷ bytes) = (byte < 256) × IsBytes bytes

-- Bytes are decoded from their encoding.
pub decode-encode : (bytes : List ℕ) → IsBytes bytes → decode (encode bytes) ≡ bytes
unfolding encode decode
decode-encode [] h = refl
decode-encode (byte ∷ bytes) (small, rest) =
    let high = digit_read (byte / 16) (omega arith) in
    let low = digit_read (byte % 16) (mod-lt byte (omega arith)) in
    rw
      (
        from_byte byte small,
        high.2,
        low.2,
        parsed (byte / 16) (byte % 16) (omega arith) (mod-lt byte (omega arith)),
        decode-encode bytes rest,
      )
      (ap (λ b. b ∷ bytes) (omega arith))
