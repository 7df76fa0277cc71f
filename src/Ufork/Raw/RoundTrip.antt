-- ===== src/Ufork/Raw/RoundTrip.antt =====
-- vm/js/ufork.js: the conversions of raw values undo one another on the values that they are for.
use u_fork.Prelude.{◌||◌, ℕ, ◌-◌, ◌%◌, ◌^◌, ◌<◌, ◌≡◌, ◌↔◌, true, false, ◌||◌, leb, arith}
use u_fork.Prelude.Int.{ℤ, pos, negsuc, ◌≤ℤ◌}
use u_fork.Ufork.Constants.{undef_raw}
use u_fork.Ufork.Raw.{
  IsU32, is_fix, is_cap, is_ram, is_rom, is_ptr, rawofs, romptr, ramptr, cap_to_ptr, ptr_to_cap,
  fixnum, to_uint32, fix_to_i32, to_word16, from_word16, in_mem,
}
use u_fork.Ufork.Raw.Tags.{
  rawofs_lem, is_fix_lem, is_cap_lem, is_rom_lem, is_ram_lem, romptr_lem, ramptr_lem,
  cap_to_ptr_lem, ptr_to_cap_lem, fixnum_lem, to_word16_lem, from_word16_lem,
}

-- The integers that a fixnum holds: 31 bits, two's complement.
abbrev pub IsFixInt : ℤ → Type 0
IsFixInt z = (negsuc (2 ^ 30 - 1) ≤ℤ z) × (z ≤ℤ pos (2 ^ 30 - 1))

-- Every integer of 31 bits is read back from its fixnum, and the fixnum is a raw value that
-- `is_fix` accepts.
pub fix_to_i32-fixnum :
    (z : ℤ)
    → IsFixInt z
    → (fix_to_i32 (fixnum z) ≡ z) × IsU32 (fixnum z) × (is_fix (fixnum z) ≡ true)
unfolding fix_to_i32 to_uint32
fix_to_i32-fixnum z h = ground (arith, fixnum_lem z, is_fix_lem (fixnum z))

-- Every raw value that `is_fix` accepts is the fixnum of the integer read from it, which has
-- 31 bits.
pub fixnum-fix_to_i32 :
    (raw : ℕ)
    → IsU32 raw
    → is_fix raw ≡ true
    → (fixnum (fix_to_i32 raw) ≡ raw) × IsFixInt (fix_to_i32 raw)
unfolding fix_to_i32 to_uint32
fixnum-fix_to_i32 raw h f = ground (arith, fixnum_lem (fix_to_i32 raw), is_fix_lem raw h)

-- `romptr` and `ramptr` make pointers of their kind, whose offset is the low 28 bits of the number
-- given; a RAM pointer is in memory, and a ROM pointer is from offset 16 on.
pub ptr_of_offset :
    (ofs : ℕ)
    → (is_rom (romptr ofs) ≡ true)
      × (is_ram (ramptr ofs) ≡ true)
      × (rawofs (romptr ofs) ≡ ofs % 2 ^ 28)
      × (rawofs (ramptr ofs) ≡ ofs % 2 ^ 28)
      × (in_mem (ramptr ofs) ≡ true)
      × (in_mem (romptr ofs) ≡ leb 16 (ofs % 2 ^ 28))
unfolding in_mem
ptr_of_offset ofs = ground (
  arith,
  romptr_lem ofs,
  ramptr_lem ofs,
  is_rom_lem (romptr ofs),
  is_ram_lem (ramptr ofs),
  rawofs_lem (romptr ofs),
  rawofs_lem (ramptr ofs),
  is_fix_lem (romptr ofs),
  is_fix_lem (ramptr ofs),
)

cap_to_ptr-ptr_to_cap :
    (ptr : ℕ)
    → IsU32 ptr
    → is_ram ptr ≡ true
    → (cap_to_ptr (ptr_to_cap ptr) ≡ ptr)
      × (is_cap (ptr_to_cap ptr) ≡ true)
      × (is_ptr (ptr_to_cap ptr) ≡ false)
unfolding is_ptr
cap_to_ptr-ptr_to_cap ptr h r = ground (
  arith,
  is_ram_lem ptr h,
  ptr_to_cap_lem ptr h,
  cap_to_ptr_lem (ptr_to_cap ptr),
  is_cap_lem (ptr_to_cap ptr),
  is_rom_lem (ptr_to_cap ptr),
  is_ram_lem (ptr_to_cap ptr),
)

ptr_to_cap-cap_to_ptr :
    (cap : ℕ)
    → IsU32 cap
    → is_cap cap ≡ true
    → (ptr_to_cap (cap_to_ptr cap) ≡ cap) × (is_ram (cap_to_ptr cap) ≡ true)
ptr_to_cap-cap_to_ptr cap h r = ground (
  arith,
  is_cap_lem cap h,
  cap_to_ptr_lem cap h,
  ptr_to_cap_lem (cap_to_ptr cap),
  is_ram_lem (cap_to_ptr cap),
)

-- Sealing a RAM pointer gives a capability, which is no pointer and is opened to that RAM pointer;
-- opening a capability gives a RAM pointer, which is sealed to that capability.
pub seal_and_open :
    (ptr cap : ℕ)
    → IsU32 ptr
    → IsU32 cap
    → is_ram ptr ≡ true
    → is_cap cap ≡ true
    → (cap_to_ptr (ptr_to_cap ptr) ≡ ptr)
      × (is_cap (ptr_to_cap ptr) ≡ true)
      × (is_ptr (ptr_to_cap ptr) ≡ false)
      × (ptr_to_cap (cap_to_ptr cap) ≡ cap)
      × (is_ram (cap_to_ptr cap) ≡ true)
seal_and_open ptr cap u u' ram sealed =
    let (opened, is_sealed, no_ptr) = cap_to_ptr-ptr_to_cap ptr u ram in
    let (back, is_open) = ptr_to_cap-cap_to_ptr cap u' sealed in
    (opened, is_sealed, no_ptr, back, is_open)

-- A fixnum and a ROM pointer are neither opened nor sealed: both conversions give `undef_raw` exactly
-- for them.
pub no_cap_of_immutable :
    (raw : ℕ)
    → IsU32 raw
    → (cap_to_ptr raw ≡ undef_raw) × (ptr_to_cap raw ≡ undef_raw)
      ↔ ((is_fix raw || is_rom raw) ≡ true)
no_cap_of_immutable raw h =
    ground (arith, is_fix_lem raw h, is_rom_lem raw h, cap_to_ptr_lem raw h, ptr_to_cap_lem raw h)

-- Every 16-bit word is read back from its 32-bit form, which is a raw value. A raw value survives
-- the way through 16 bits exactly when the bits 13 to 28, which the short form leaves out, are all 0.
pub to_word16-from_word16 :
    (w raw : ℕ)
    → w < 2 ^ 16
    → IsU32 raw
    → (to_word16 (from_word16 w) ≡ w)
      × IsU32 (from_word16 w)
      × ((from_word16 (to_word16 raw) ≡ raw) ↔ (raw % 2 ^ 29 < 2 ^ 13))
to_word16-from_word16 w raw h u = (
  omega (arith, from_word16_lem w, to_word16_lem (from_word16 w)),
  omega (arith, from_word16_lem w),
  (
    λ e. omega (arith, from_word16_lem (to_word16 raw), to_word16_lem raw),
    λ e. omega (arith, from_word16_lem (to_word16 raw), to_word16_lem raw),
  ),
)
