-- ===== src/Ufork/Raw/Tags.antt =====
-- What the type tag of a raw value says: the tests as arithmetic, and their partition.
use u_fork.Prelude.{
  ℕ, ◌+◌, ◌*◌, ◌/◌, ◌%◌, ◌^◌, ◌<◌, ◌≡◌, Bool, bit_and, bit_or, true, false, not, ◌||◌, ltb, leb,
  ◌==◌, arith, ap, ◌∙◌, if◌then◌else◌,
}
use u_fork.Prelude.Bits.{split, bit_and-IsBitwise}
use u_fork.Prelude.Masks.{and_run, or_bit, and_ones, or_fields}
use u_fork.Ufork.Raw.{
  IsU32, is_fix, is_cap, is_rom, is_ram, is_ptr, rawofs, romptr, ramptr, cap_to_ptr, ptr_to_cap,
  fixnum, to_uint32, to_word16, from_word16,
}
use u_fork.Prelude.Int.{ℤ}
use mathlib.Core.Path.{ap₂}

pub and_dir : (a : ℕ) → bit_and a 0x80000000 ≡ a / 2 ^ 31 % 2 * 2 ^ 31
and_dir a = and_run 1 31 a

pub and_dir_mut : (a : ℕ) → bit_and a 0xC0000000 ≡ a / 2 ^ 30 % 4 * 2 ^ 30
and_dir_mut a = and_run 2 30 a

pub and_tag : (a : ℕ) → bit_and a 0xE0000000 ≡ a / 2 ^ 29 % 8 * 2 ^ 29
and_tag a = and_run 3 29 a

pub rawofs_lem : (a : ℕ) → rawofs a ≡ a % 2 ^ 28
unfolding rawofs
rawofs_lem a = and_ones 28 a

pub is_fix_lem : (a : ℕ) → IsU32 a → is_fix a ≡ leb (2 ^ 31) a
unfolding is_fix
is_fix_lem a h = ground (arith, and_dir a)

pub is_cap_lem : (a : ℕ) → IsU32 a → is_cap a ≡ (a / 2 ^ 29 == 3)
unfolding is_cap
is_cap_lem a h = ground (arith, and_tag a)

pub is_rom_lem : (a : ℕ) → IsU32 a → is_rom a ≡ ltb a (2 ^ 30)
unfolding is_rom
is_rom_lem a h = ground (arith, and_dir_mut a)

pub is_ram_lem : (a : ℕ) → IsU32 a → is_ram a ≡ (a / 2 ^ 29 == 2)
unfolding is_ram
is_ram_lem a h = ground (arith, and_tag a)

and_not_opq : (a : ℕ) → a < 2 ^ 31 → bit_and a 0xDFFFFFFF ≡ a / 2 ^ 30 * 2 ^ 30 + a % 2 ^ 29
and_not_opq a h =
    ap (λ (t : ℕ). bit_and t 0xDFFFFFFF) (cut a)
    ∙ split bit_and-IsBitwise 29 (a / 2 ^ 29) (a % 2 ^ 29) 6 0x1FFFFFFF (omega arith) (omega arith)
    ∙ omega (arith, and_run 2 1 (a / 2 ^ 29), and_ones 29 (a % 2 ^ 29))
  where
    cut : (b : ℕ) → b ≡ b / 2 ^ 29 * 2 ^ 29 + b % 2 ^ 29
    cut b = omega arith

-- How many of the four kinds claim a raw value.
abbrev pub bit : Bool → ℕ
bit true = 1
bit false = 0

-- Exactly one of fixnum, capability, ROM pointer and RAM pointer fits each raw value, and a pointer
-- is what is neither a fixnum nor a capability.
pub kinds_partition :
    (raw : ℕ)
    → IsU32 raw
    → (bit (is_fix raw) + bit (is_cap raw) + bit (is_rom raw) + bit (is_ram raw) ≡ 1)
      × (is_ptr raw ≡ not (is_fix raw || is_cap raw))
unfolding is_ptr
kinds_partition raw h =
    ground (arith, is_fix_lem raw h, is_cap_lem raw h, is_rom_lem raw h, is_ram_lem raw h)

pub romptr_lem : (ofs : ℕ) → romptr ofs ≡ ofs % 2 ^ 28
unfolding romptr
romptr_lem ofs = and_ones 28 ofs

pub ramptr_lem : (ofs : ℕ) → ramptr ofs ≡ ofs % 2 ^ 28 + 2 ^ 30
unfolding ramptr
ramptr_lem ofs = omega (arith, or_bit 30 (rawofs ofs), rawofs_lem ofs)

pub cap_to_ptr_lem :
    (cap : ℕ)
    → IsU32 cap
    → cap_to_ptr cap ≡ (if cap / 2 ^ 30 == 1 then 2 ^ 30 + cap % 2 ^ 29 else 0)
unfolding cap_to_ptr
cap_to_ptr_lem cap h = ground (arith, and_dir_mut cap, and_not_opq cap)

pub ptr_to_cap_lem :
    (ptr : ℕ)
    → IsU32 ptr
    → ptr_to_cap ptr ≡ (if ptr / 2 ^ 30 == 1 then 2 ^ 30 + 2 ^ 29 + ptr % 2 ^ 29 else 0)
unfolding ptr_to_cap
ptr_to_cap_lem ptr h = ground (arith, and_dir_mut ptr, or_bit 29 ptr)

pub fixnum_lem : (i32 : ℤ) → fixnum i32 ≡ to_uint32 i32 % 2 ^ 31 + 2 ^ 31
unfolding fixnum
fixnum_lem i32 = ground (arith, or_bit 31 (to_uint32 i32))

pub to_word16_lem : (w : ℕ) → to_word16 w ≡ w / 2 ^ 29 % 8 * 2 ^ 13 + w % 2 ^ 13
unfolding to_word16
to_word16_lem w =
    ap₂ bit_or (and_run 3 13 (w / 2 ^ 16)) (and_ones 13 w)
    ∙ or_fields 13 (w / 2 ^ 16 / 2 ^ 13 % 8) (w % 2 ^ 13) (omega arith)
    ∙ omega arith

pub from_word16_lem : (w : ℕ) → from_word16 w ≡ w / 2 ^ 13 % 8 * 2 ^ 29 + w % 2 ^ 13
unfolding from_word16
from_word16_lem w =
    ap₂ bit_or (shifted w) (and_ones 13 w)
    ∙ or_fields 29 (w / 2 ^ 13 % 8) (w % 2 ^ 13) (omega arith)
  where
    shifted : (v : ℕ) → bit_and v 0xE000 * 2 ^ 16 % 2 ^ 32 ≡ v / 2 ^ 13 % 8 * 2 ^ 29
    shifted v = omega (arith, and_run 3 13 v)
