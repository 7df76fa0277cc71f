-- ===== src/Ucode/Compiler/Fields.antt =====
-- fpga/ucode/ucode.js: the two fields of a word that jumps or calls, as arithmetic.
use native.Mathlib.Nat.{mod-lt, mod-eq_of_lt}
use u_fork.Prelude.{ℕ, ◌+◌, ◌-◌, ◌*◌, ◌/◌, ◌%◌, ◌^◌, ◌<◌, ◌≡◌, ap, ◌∙◌, bit_and, bit_or, arith}
use u_fork.Prelude.Masks.{and_ones, and_run, or_fields}
use u_fork.Ucode.Compiler.Codes.{uc_jump, uc_jz, uc_jnz_inc, uc_jnz_dec, uc_call, uc_fixup}

pub masked : (a : ℕ) → bit_and a 0x0FFF ≡ a % 4096
masked a = and_ones 12 a

-- A field of four bits above an address.
pub fielded : (h a : ℕ) → bit_or (h * 2 ^ 12) (bit_and a 0x0FFF) ≡ h * 4096 + a % 4096
fielded h a =
    ap (bit_or (h * 2 ^ 12)) (masked a) ∙ or_fields 12 h (a % 4096) (mod-lt a (omega arith))

pub uc_jump_lem : (a : ℕ) → uc_jump a ≡ 0x8000 + a % 4096
unfolding uc_jump
uc_jump_lem a = fielded 8 a

pub uc_jz_lem : (a : ℕ) → uc_jz a ≡ 0x9000 + a % 4096
unfolding uc_jz
uc_jz_lem a = fielded 9 a

pub uc_jnz_inc_lem : (a : ℕ) → uc_jnz_inc a ≡ 0xA000 + a % 4096
unfolding uc_jnz_inc
uc_jnz_inc_lem a = fielded 10 a

pub uc_jnz_dec_lem : (a : ℕ) → uc_jnz_dec a ≡ 0xB000 + a % 4096
unfolding uc_jnz_dec
uc_jnz_dec_lem a = fielded 11 a

pub uc_call_lem : (a : ℕ) → uc_call a ≡ 0xC000 + a % 4096
unfolding uc_call
uc_call_lem a = fielded 12 a

-- A fixup keeps the upper field of a word of 16 bits.
pub uc_fixup_lem : (w a : ℕ) → w < 2 ^ 16 → uc_fixup w a ≡ w / 4096 * 4096 + a % 4096
unfolding uc_fixup
uc_fixup_lem w a small =
    ap (λ k. bit_or k (bit_and a 0x0FFF)) (upper w small) ∙ fielded (w / 4096) a
  where
    upper : (w : ℕ) → w < 2 ^ 16 → bit_and w (2 ^ 32 - 1 - 0x0FFF) ≡ w / 4096 * 2 ^ 12
    upper w small = and_run 20 12 w ∙ ap (λ k. k * 2 ^ 12) (mod-eq_of_lt (omega arith))

-- The words of a counted loop are those with 101 in their upper three bits.
pub uc_is_auto_lem : (w : ℕ) → bit_and w 0xE000 ≡ w / 8192 % 8 * 8192
uc_is_auto_lem w = and_run 3 13 w
