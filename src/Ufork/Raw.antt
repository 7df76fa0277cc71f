-- ===== src/Ufork/Raw.antt =====
-- vm/js/ufork.js: raw values, their type tags, and the conversions between them. A raw value is a
-- number below 2^32, the pattern of its bits. The results of `&`, `|` and `<<` are such patterns
-- too: an int32 of the source is compared here only with another one, or made unsigned by `>>>`.
pub mod Tags
pub mod RoundTrip
use u_fork.Prelude.{
  ℕ, ◌-◌, ◌*◌, ◌/◌, ◌%◌, ◌^◌, ◌<◌, bit_and, bit_or, Bool, not, ◌&&◌, ◌||◌, ltb, ◌==◌, if◌then◌else◌,
}
use u_fork.Prelude.Int.{ℤ, pos, negsuc}
use u_fork.Ufork.Constants.{msk_raw, dir_raw, mut_raw, opq_raw, undef_raw, free_t}

-- A value that fits 32 bits without sign.
abbrev pub IsU32 : ℕ → Type 0
IsU32 n = n < 2 ^ 32

-- `~x` on a pattern of 32 bits.
abbrev pub bit_not : ℕ → ℕ
bit_not x = 2 ^ 32 - 1 - x

-- The pattern of a number's low 32 bits, two's complement for a negative one.
unfoldable pub to_uint32 : ℤ → ℕ
to_uint32 (pos n) = n % 2 ^ 32
to_uint32 (negsuc n) = 2 ^ 32 - 1 - n % 2 ^ 32

-- The int32 that a pattern stands for.
unfoldable pub to_int32 : ℕ → ℤ
to_int32 w = if ltb w (2 ^ 31) then pos w else negsuc (2 ^ 32 - 1 - w)

-- `>> 1` on an int32.
unfoldable pub shift_right_one : ℤ → ℤ
shift_right_one (pos n) = pos (n / 2)
shift_right_one (negsuc n) = negsuc (n / 2)

-- A safe integer is below 2^53 in size.
unfoldable pub is_raw : ℤ → Bool
is_raw (pos n) = ltb n (2 ^ 53) && ltb n (2 ^ 32)
is_raw (negsuc n) = Bool.false

unfoldable pub is_fix : ℕ → Bool
is_fix raw = not (bit_and raw dir_raw == 0)

unfoldable pub is_cap : ℕ → Bool
is_cap raw = bit_and raw (bit_or (bit_or dir_raw mut_raw) opq_raw) == bit_or mut_raw opq_raw

unfoldable pub is_rom : ℕ → Bool
is_rom raw = bit_and raw (bit_or dir_raw mut_raw) == 0

unfoldable pub is_ram : ℕ → Bool
is_ram raw = bit_and raw (bit_or (bit_or dir_raw mut_raw) opq_raw) == mut_raw

unfoldable pub is_ptr : ℕ → Bool
unfolding is_rom is_ram
is_ptr raw = is_rom raw || is_ram raw

unfoldable pub fixnum : ℤ → ℕ
unfolding to_uint32
fixnum i32 = bit_or (to_uint32 i32) dir_raw

unfoldable pub rawofs : ℕ → ℕ
rawofs raw = bit_and raw (bit_not msk_raw)

unfoldable pub romptr : ℕ → ℕ
unfolding rawofs
romptr ofs = rawofs ofs

unfoldable pub ramptr : ℕ → ℕ
unfolding rawofs
ramptr ofs = bit_or (rawofs ofs) mut_raw

-- `(fixnum << 1) >> 1`
unfoldable pub fix_to_i32 : ℕ → ℤ
unfolding to_int32 shift_right_one
fix_to_i32 raw = shift_right_one (to_int32 (raw * 2 % 2 ^ 32))

unfoldable pub cap_to_ptr : ℕ → ℕ
cap_to_ptr cap =
    if bit_and cap (bit_or dir_raw mut_raw) == mut_raw
    then bit_and cap (bit_not opq_raw)
    else undef_raw

unfoldable pub ptr_to_cap : ℕ → ℕ
ptr_to_cap ptr =
    if bit_and ptr (bit_or dir_raw mut_raw) == mut_raw then bit_or ptr opq_raw else undef_raw

unfoldable pub in_mem : ℕ → Bool
unfolding is_fix
in_mem ptr = ltb free_t ptr && not (is_fix ptr)

-- `word32 >> 0` and `word32 >> 16` keep the bits that the masks read.
unfoldable pub to_word16 : ℕ → ℕ
to_word16 word32 =
    let lsb13 = bit_and word32 0x1FFF in
    let msb3 = bit_and (word32 / 2 ^ 16) 0xE000 in bit_or msb3 lsb13

unfoldable pub from_word16 : ℕ → ℕ
from_word16 word16 =
    let lsb13 = bit_and word16 0x1FFF in
    let msb3 = bit_and word16 0xE000 in bit_or (msb3 * 2 ^ 16 % 2 ^ 32) lsb13
