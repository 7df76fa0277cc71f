-- ===== src/Ucode/Compiler/Reader.antt =====
-- fpga/ucode/ucode.js: parse_memh. A number is kept as the pattern of its 32 bits. Nothing reads the
-- place in the text, so its stream is the list of the characters that are left.
use u_fork.Prelude.{
  ℕ, zero, suc, ◌-◌, ◌*◌, ◌%◌, ◌^◌, Bool, true, false, ◌==◌, ◌||◌, ◌&&◌, leb, if◌then◌else◌, List,
  [], ◌∷◌, length, Option, none, some, bit_or,
}
use mathlib.Core.Option.{map as map_option}
use u_fork.Prelude.Int.{ℤ}
use u_fork.Ufork.Raw.{to_int32}

unfoldable pub is_hex_digit : ℕ → Bool
is_hex_digit char =
    (leb 48 char && leb char 57) || (leb 65 char && leb char 70) || (leb 97 char && leb char 102)

-- It is `undefined` of no digit, which `|` reads as 0.
unfoldable pub from_hex_digit : ℕ → ℕ
from_hex_digit char =
    if leb 48 char && leb char 57
    then char - 48
    else if leb 65 char && leb char 70
    then char - 55
    else if leb 97 char && leb char 102
    then char - 87
    else 0

-- Where in "skip non-hex-digits" a character is read: in the outer loop, behind a slash, in a comment
-- to the line's end, in a comment to the closing delimiter, or behind a star in the latter.
pub data Mode : Type 0 where
  seeking : Mode
  behind_slash : Mode
  in_line : Mode
  in_block : Mode
  behind_star : Mode

-- The mode that a character leads to, unless it is a digit that is looked for.
unfoldable pub next_mode : Mode → ℕ → Mode
next_mode seeking cp = if cp == 0x2F then behind_slash else seeking
next_mode behind_slash cp = if cp == 0x2F then in_line else if cp == 0x2A then in_block else seeking
next_mode in_line cp = if cp == 0x0A then seeking else in_line
next_mode in_block cp = if cp == 0x2A then behind_star else in_block
next_mode behind_star cp =
    if cp == 0x2F then seeking else if cp == 0x2A then behind_star else in_block

abbrev pub is_found : Mode → ℕ → Bool
is_found seeking cp = is_hex_digit cp
is_found _ cp = false

-- The text from the first digit that is in no comment.
unfoldable pub skip : Mode → List ℕ → List ℕ
skip mode [] = []
skip mode (cp ∷ rest) = elim (is_found mode cp) [
  | true ↦ cp ∷ rest
  | false ↦ skip (next_mode mode cp) rest
]

-- "collect hex-digits": the character behind them is read, too.
unfoldable pub collect : ℕ → List ℕ → ℕ × List ℕ
collect num [] = (num, [])
collect num (cp ∷ rest) = elim (is_hex_digit cp) [
  | true ↦ collect (bit_or (num * 2 ^ 4 % 2 ^ 32) (from_hex_digit cp)) rest
  | false ↦ (num, rest)
]

unfoldable pub start_number : List ℕ → Option (ℕ × List ℕ)
start_number [] = none
start_number (cp ∷ rest) = some (collect 0 (cp ∷ rest))

unfoldable pub parse_hex : List ℕ → Option (ℕ × List ℕ)
parse_hex text = start_number (skip seeking text)

-- The loop's body: `prog.push(num)`, or the end.
unfoldable pub read_on : Option (ℕ × List ℕ) → (List ℕ → Option (List ℤ)) → Option (List ℤ)
read_on none next = some []
read_on (some (num, rest)) next = map_option (λ prog. to_int32 num ∷ prog) (next rest)

-- `none` is a loop that is out of fuel.
unfoldable pub parse_all : ℕ → List ℕ → Option (List ℤ)
parse_all zero text = none
parse_all (suc fuel) text = read_on (parse_hex text) (parse_all fuel)

unfoldable pub parse_memh : List ℕ → Option (List ℤ)
parse_memh text = parse_all (suc (length text)) text
