-- ===== src/Hex.antt =====
-- lib/hex.js: bytes as text of hexadecimal digits. A text is the list of its UTF-16 code units.
pub mod Fixed
pub mod RoundTrip
use u_fork.Prelude.{
  ℕ, zero, suc, ◌+◌, ◌-◌, ◌*◌, ◌/◌, ◌%◌, Bool, ◌&&◌, ◌||◌, not, ltb, leb, ◌==◌, if◌then◌else◌, List,
  [], ◌∷◌, ◌++◌, map, length, replicate, Option, none, some,
}

abbrev within : ℕ → ℕ → ℕ → Bool
within low high unit = leb low unit && leb unit high

-- The digit of `toString(16)`, and what `toUpperCase` does with it.
unfoldable pub digit : ℕ → ℕ
digit d = if ltb d 10 then 48 + d else 87 + d

unfoldable pub upper_case : ℕ → ℕ
upper_case unit = if within 97 122 unit then unit - 32 else unit

-- `number.toString(16)` of a number with at most `fuel` digits.
unfoldable pub to_string16 : ℕ → ℕ → List ℕ
to_string16 zero number = []
to_string16 (suc fuel) number =
    let rest = to_string16 fuel (number / 16) in
    (if number / 16 == 0 then [] else rest) ++ digit (number % 16) ∷ []

unfoldable pub pad_start : ℕ → List ℕ → List ℕ
pad_start digits text = replicate (digits - length text) 48 ++ text

-- A number below 2^53 has at most 14 digits.
unfoldable pub from : ℕ → ℕ → List ℕ
from number nr_bits = pad_start ((nr_bits + 3) / 4) (to_string16 14 number)

unfoldable pub encode : List ℕ → List ℕ
encode [] = []
encode (byte ∷ bytes) = map upper_case (from byte 8) ++ encode bytes

-- A line terminator, which `.` does not match.
unfoldable pub is_terminator : ℕ → Bool
is_terminator unit = (unit == 10) || (unit == 13) || (unit == 0x2028) || (unit == 0x2029)

-- The white space that parseInt skips, but for line terminators.
unfoldable pub is_space : ℕ → Bool
is_space unit =
    within 9 12 unit
    || (unit == 32)
    || (unit == 160)
    || (unit == 0x1680)
    || within 0x2000 0x200A unit
    || (unit == 0x202F)
    || (unit == 0x205F)
    || (unit == 0x3000)
    || (unit == 0xFEFF)

unfoldable pub digit_value : ℕ → Option ℕ
digit_value unit =
    if within 48 57 unit
    then some (unit - 48)
    else if within 65 70 unit
    then some (unit - 55)
    else if within 97 102 unit
    then some (unit - 87)
    else none

-- The byte that a Uint8Array makes of a parsed number, of which NaN becomes 0.
abbrev pub byte_of : Option ℕ → ℕ
byte_of none = 0
byte_of (some value) = value % 256

abbrev pub negated : Option ℕ → ℕ
negated none = 0
negated (some value) = (256 - value) % 256

-- Digits up to the first that is none.
abbrev pub two_digits : Option ℕ → Option ℕ → ℕ
two_digits none second = 0
two_digits (some high) none = high
two_digits (some high) (some low) = 16 * high + low

-- `parseInt(pair, 16)` as a byte. White space or a sign leaves one digit.
unfoldable pub parse_pair : ℕ → ℕ → ℕ
parse_pair first second =
    if is_space first || (first == 43)
    then byte_of (digit_value second)
    else if first == 45
    then negated (digit_value second)
    else two_digits (digit_value first) (digit_value second)

-- `/../g`: at each place two units that are no line terminators, or one unit is passed over.
unfoldable pub decode : List ℕ → List ℕ
decode [] = []
decode (unit ∷ []) = []
decode (first ∷ second ∷ units) =
    let pairs = decode units in
    let later = decode (second ∷ units) in
    if is_terminator first || is_terminator second then later else parse_pair first second ∷ pairs
