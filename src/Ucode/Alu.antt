-- ===== src/Ucode/Alu.antt =====
-- fpga/ucode/ucode_sim.js: alu_perform. Its operands are words of 16 bits, or `undefined` where the
-- stack has no item; a sum with the latter is NaN, and a bit operator reads it as 0. A result is a
-- number of the source, with `none` for `undefined` and for NaN.
pub mod Laws
use u_fork.Prelude.{
  ℕ, ◌+◌, ◌*◌, ◌/◌, ◌%◌, ◌^◌, ◌==◌, if◌then◌else◌, bit_and, bit_or, bit_xor, Option, none, some,
}
use u_fork.Prelude.Int.{ℤ, pos, sub_ℕ}
use u_fork.Ufork.Raw.{to_uint32}
use u_fork.Ucode.Stack.{Cell}

-- The operations of the ALU.
abbrev pub op_none : ℕ
op_none = 0x0

abbrev pub op_add : ℕ
op_add = 0x1

abbrev pub op_sub : ℕ
op_sub = 0x2

abbrev pub op_mul : ℕ
op_mul = 0x3

abbrev pub op_and : ℕ
op_and = 0x4

abbrev pub op_xor : ℕ
op_xor = 0x5

abbrev pub op_or : ℕ
op_or = 0x6

abbrev pub op_rol : ℕ
op_rol = 0x7

abbrev pub op_2rol : ℕ
op_2rol = 0x8

abbrev pub op_4rol : ℕ
op_4rol = 0x9

abbrev pub op_8rol : ℕ
op_8rol = 0xA

abbrev pub op_asr : ℕ
op_asr = 0xB

abbrev pub op_2asr : ℕ
op_2asr = 0xC

abbrev pub op_4asr : ℕ
op_4asr = 0xD

abbrev pub op_fail : ℕ
op_fail = 0xE

abbrev pub op_mem : ℕ
op_mem = 0xF

-- What a bit operator reads.
abbrev pub int_of : Cell → ℕ
int_of none = 0
int_of (some n) = n

-- An arithmetic operator; NaN if an operand is missing.
abbrev pub arith_of : (ℕ → ℕ → ℤ) → Cell → Cell → Option ℤ
arith_of f (some a) (some b) = some (f a b)
arith_of f (some a) none = none
arith_of f none b = none

abbrev pub number_of : Cell → Option ℤ
number_of none = none
number_of (some a) = some (pos a)

-- `(a << k) | (a >> (16 - k))`
abbrev rotated : ℕ → ℕ → ℕ → ℕ
rotated k j a = bit_or (a * 2 ^ k % 2 ^ 32) (a / 2 ^ j)

unfoldable pub alu_perform : ℕ → Cell → Cell → Option ℤ
alu_perform op a b =
    let msb = bit_and (int_of a) 0x8000 in
    if op == op_none
    then number_of a
    else if op == op_add
    then arith_of (λ m n. pos (m + n)) a b
    else if op == op_sub
    then arith_of sub_ℕ a b
    else if op == op_mul
    then arith_of (λ m n. pos (m * n)) a b
    else if op == op_and
    then some (pos (bit_and (int_of a) (int_of b)))
    else if op == op_xor
    then some (pos (bit_xor (int_of a) (int_of b)))
    else if op == op_or
    then some (pos (bit_or (int_of a) (int_of b)))
    else if op == op_rol
    then some (pos (rotated 1 15 (int_of a)))
    else if op == op_2rol
    then some (pos (rotated 2 14 (int_of a)))
    else if op == op_4rol
    then some (pos (rotated 4 12 (int_of a)))
    else if op == op_8rol
    then some (pos (rotated 8 8 (int_of a)))
    else if op == op_asr
    then some (pos (bit_or (int_of a / 2) msb))
    else if op == op_2asr
    then some (pos (bit_or (bit_or (int_of a / 4) msb) (msb / 2)))
    else if op == op_4asr
    then some
        (pos (bit_or (bit_or (bit_or (bit_or (int_of a / 16) msb) (msb / 2)) (msb / 4)) (msb / 8)))
    else some (pos 0)

-- `& 0xFFFF`; NaN and `undefined` are read as 0.
unfoldable pub low_word : Option ℤ → ℕ
unfolding to_uint32
low_word none = 0
low_word (some n) = bit_and (to_uint32 n) 0xFFFF

-- The result of an evaluation instruction.
unfoldable pub alu_result : ℕ → Cell → Cell → ℕ
unfolding low_word alu_perform
alu_result op a b = low_word (alu_perform op a b)
