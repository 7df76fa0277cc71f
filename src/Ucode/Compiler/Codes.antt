-- ===== src/Ucode/Compiler/Codes.antt =====
-- fpga/ucode/ucode.js: the words of 16 bits that jump and call, and how an address is put in one.
use u_fork.Prelude.{ℕ, Bool, ◌==◌, bit_and, bit_or}
use u_fork.Ufork.Raw.{bit_not}

-- 12-bit uCode addresses.
abbrev pub addr_mask : ℕ
addr_mask = 0x0FFF

unfoldable pub uc_jump : ℕ → ℕ
uc_jump addr = bit_or 0x8000 (bit_and addr addr_mask)

unfoldable pub uc_jz : ℕ → ℕ
uc_jz addr = bit_or 0x9000 (bit_and addr addr_mask)

unfoldable pub uc_jnz_inc : ℕ → ℕ
uc_jnz_inc addr = bit_or 0xA000 (bit_and addr addr_mask)

unfoldable pub uc_jnz_dec : ℕ → ℕ
uc_jnz_dec addr = bit_or 0xB000 (bit_and addr addr_mask)

unfoldable pub uc_call : ℕ → ℕ
uc_call addr = bit_or 0xC000 (bit_and addr addr_mask)

unfoldable pub uc_is_auto : ℕ → Bool
uc_is_auto word = bit_and word 0xE000 == 0xA000

unfoldable pub uc_fixup : ℕ → ℕ → ℕ
uc_fixup word addr = bit_or (bit_and word (bit_not addr_mask)) (bit_and addr addr_mask)

abbrev pub uc_lit : ℕ
uc_lit = 0x021F

abbrev pub uc_const : ℕ
uc_const = 0x521F

abbrev pub uc_to_r : ℕ
uc_to_r = 0x2100

abbrev pub uc_r_fetch : ℕ
uc_r_fetch = 0x0280

abbrev pub uc_exit : ℕ
uc_exit = 0x5000
