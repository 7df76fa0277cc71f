-- ===== src/Ucode/Alu/Laws.antt =====
-- What the operations of the ALU compute, on words of 16 bits.
use u_fork.Prelude.{
  ℕ, zero, suc, ◌+◌, ◌-◌, ◌*◌, ◌/◌, ◌%◌, ◌^◌, ◌<◌, ◌≤◌, ◌≡◌, ◌⊎◌, inl, inr, ltb, if◌then◌else◌,
  bit_and, bit_or, Option, none, some, arith, ◌∙◌, ap,
}
use u_fork.Prelude.Int.{ℤ, pos, negsuc, sub_ℕ}
use u_fork.Prelude.Masks.{and_ones, and_run, or_bit, or_fields, bit_or-zero}
use native.Mathlib.Nat.{mod-eq_of_lt}
use u_fork.Ufork.Raw.{to_uint32}
use u_fork.Ucode.Stack.{Cell}
use u_fork.Ucode.Alu.{
  alu_perform, alu_result, rotated, low_word, op_add, op_sub, op_mul, op_rol, op_2rol, op_4rol,
  op_8rol, op_asr, op_2asr, op_4asr,
}

low_word_lem : (z : ℤ) → low_word (some z) ≡ to_uint32 z % 2 ^ 16
unfolding low_word
low_word_lem z = and_ones 16 (to_uint32 z)

low_word-lt : (r : Option ℤ) → low_word r < 2 ^ 16
low_word-lt none = unfold low_word in omega arith
low_word-lt (some z) = omega (arith, low_word_lem z)

-- Whatever the operation and its operands, the result is a word of 16 bits.
pub alu_result-lt : (op : ℕ) (a b : Cell) → alu_result op a b < 2 ^ 16
unfolding alu_result
alu_result-lt op a b = low_word-lt (alu_perform op a b)

-- Sums, differences and products are those of arithmetic modulo 2^16.
alu_arithmetic :
    (a b : ℕ)
    → a < 2 ^ 16
    → b < 2 ^ 16
    → (alu_result op_add (some a) (some b) ≡ (a + b) % 2 ^ 16)
      × (alu_result op_sub (some a) (some b) ≡ (a + 2 ^ 16 - b) % 2 ^ 16)
      × (alu_result op_mul (some a) (some b) ≡ a * b % 2 ^ 16)
unfolding alu_result to_uint32
alu_arithmetic a b ha hb = (
  ground (arith, low_word_lem (pos (a + b))),
  ground (arith, low_word_lem (sub_ℕ a b)),
  ground (arith, low_word_lem (pos (a * b))),
)

-- A rotation by `k` bits carries the upper `k` bits round to the low end.
abbrev pub rotate_left : ℕ → ℕ → ℕ
rotate_left k a = a % 2 ^ (16 - k) * 2 ^ k + a / 2 ^ (16 - k)

rotated_lem :
    (k j a : ℕ) → a * 2 ^ k < 2 ^ 32 → a / 2 ^ j < 2 ^ k → rotated k j a ≡ a * 2 ^ k + a / 2 ^ j
rotated_lem k j a p q =
    ap (λ (t : ℕ). bit_or t (a / 2 ^ j)) (mod-eq_of_lt p) ∙ or_fields k a (a / 2 ^ j) q

-- The four rotations rotate by 1, 2, 4 and 8 bits.
alu_rotations :
    (a : ℕ) (b : Cell)
    → a < 2 ^ 16
    → (alu_result op_rol (some a) b ≡ rotate_left 1 a)
      × (alu_result op_2rol (some a) b ≡ rotate_left 2 a)
      × (alu_result op_4rol (some a) b ≡ rotate_left 4 a)
      × (alu_result op_8rol (some a) b ≡ rotate_left 8 a)
unfolding alu_result to_uint32
alu_rotations a b h = (
  low_word_lem (pos (rotated 1 15 a))
      ∙ omega (arith, rotated_lem 1 15 a (omega arith) (omega arith)),
  low_word_lem (pos (rotated 2 14 a))
      ∙ omega (arith, rotated_lem 2 14 a (omega arith) (omega arith)),
  low_word_lem (pos (rotated 4 12 a))
      ∙ omega (arith, rotated_lem 4 12 a (omega arith) (omega arith)),
  low_word_lem (pos (rotated 8 8 a)) ∙ omega (arith, rotated_lem 8 8 a (omega arith) (omega arith)),
)

-- The signed number that a word stands for, in two's complement.
abbrev pub signed16 : ℕ → ℤ
signed16 w = if ltb w (2 ^ 15) then pos w else negsuc (2 ^ 16 - 1 - w)

-- Division by 2 ^ k, rounded down.
abbrev pub floor_shift : ℕ → ℤ → ℤ
floor_shift k (pos n) = pos (n / 2 ^ k)
floor_shift k (negsuc n) = negsuc (n / 2 ^ k)

-- The sign bit of a word, and `|` with it.
sign_bit :
    (a : ℕ)
    → a < 2 ^ 16
    → (a < 2 ^ 15 × (bit_and a 0x8000 ≡ 0)) ⊎ (2 ^ 15 ≤ a × (bit_and a 0x8000 ≡ 0x8000))
sign_bit a h = ground (arith, and_run 1 15 a)

-- A shifted word with the sign bit `m` filled in at one, two and four places.
abbrev fill : ℕ → ℕ → ℕ → ℕ
fill (suc zero) x m = bit_or x m
fill (suc (suc zero)) x m = bit_or (bit_or x m) (m / 2)
fill k x m = bit_or (bit_or (bit_or (bit_or x m) (m / 2)) (m / 4)) (m / 8)

-- No bits are filled in below 2^15, and ones from there on.
fill_none : (x : ℕ) → (fill 1 x 0 ≡ x) × (fill 2 x 0 ≡ x) × (fill 4 x 0 ≡ x)
fill_none x = (
  bit_or-zero x,
  bit_or-zero (bit_or x 0) ∙ bit_or-zero x,
  bit_or-zero (bit_or (bit_or (bit_or x 0) 0) 0)
      ∙ bit_or-zero (bit_or (bit_or x 0) 0)
      ∙ bit_or-zero (bit_or x 0)
      ∙ bit_or-zero x,
)

fill_one : (x : ℕ) → x < 2 ^ 15 → fill 1 x 0x8000 ≡ x + 2 ^ 15
fill_one x h = omega (arith, or_bit 15 x)

fill_two : (x : ℕ) → x < 2 ^ 14 → fill 2 x 0x8000 ≡ x + 3 * 2 ^ 14
fill_two x h =
    ap (λ (t : ℕ). bit_or t 0x4000) (fill_one x (omega arith))
    ∙ omega (arith, or_bit 14 (x + 2 ^ 15))

fill_four : (x : ℕ) → x < 2 ^ 12 → fill 4 x 0x8000 ≡ x + 15 * 2 ^ 12
fill_four x h =
    ap (λ (t : ℕ). bit_or (bit_or t 0x2000) 0x1000) (fill_two x (omega arith))
    ∙ ap (λ (t : ℕ). bit_or t 0x1000) (third x h)
    ∙ omega (arith, or_bit 12 (x + 7 * 2 ^ 13))
  where
    third : (y : ℕ) → y < 2 ^ 12 → bit_or (y + 3 * 2 ^ 14) 0x2000 ≡ y + 7 * 2 ^ 13
    third y k = omega (arith, or_bit 13 (y + 3 * 2 ^ 14))

-- The three shifts through `fill`, for the sign bit as it is.
shift_value :
    (k x m : ℕ) {r : ℕ} → fill k x m ≡ r → r < 2 ^ 16 → low_word (some (pos (fill k x m))) ≡ r
unfolding to_uint32
shift_value k x m e h = low_word_lem (pos (fill k x m)) ∙ omega (arith, e)

-- The arithmetic right shifts divide the signed number by 2, 4 and 16, rounded down.
alu_shifts :
    (a : ℕ) (b : Cell)
    → a < 2 ^ 16
    → (signed16 (alu_result op_asr (some a) b) ≡ floor_shift 1 (signed16 a))
      × (signed16 (alu_result op_2asr (some a) b) ≡ floor_shift 2 (signed16 a))
      × (signed16 (alu_result op_4asr (some a) b) ≡ floor_shift 4 (signed16 a))
unfolding alu_result
alu_shifts a b h = elim (sign_bit a h) [
  | inl (small, e) ↦ rw e (
    ground (arith, shift_value 1 (a / 2) 0 (fill_none (a / 2)).0 (omega arith)),
    ground (arith, shift_value 2 (a / 4) 0 (fill_none (a / 4)).1 (omega arith)),
    ground (arith, shift_value 4 (a / 16) 0 (fill_none (a / 16)).2 (omega arith)),
  )
  | inr (large, e) ↦ rw e (
    ground (arith, shift_value 1 (a / 2) 0x8000 (fill_one (a / 2) (omega arith)) (omega arith)),
    ground (arith, shift_value 2 (a / 4) 0x8000 (fill_two (a / 4) (omega arith)) (omega arith)),
    ground (arith, shift_value 4 (a / 16) 0x8000 (fill_four (a / 16) (omega arith)) (omega arith)),
  )
]

-- Sums, differences and products of words are those of arithmetic modulo 2^16; the four rotations
-- rotate by 1, 2, 4 and 8 bits; the arithmetic right shifts divide the signed number by 2, 4 and
-- 16, rounded down.
pub alu_explained :
    (a b : ℕ)
    → a < 2 ^ 16
    → b < 2 ^ 16
    → (alu_result op_add (some a) (some b) ≡ (a + b) % 2 ^ 16)
      × (alu_result op_sub (some a) (some b) ≡ (a + 2 ^ 16 - b) % 2 ^ 16)
      × (alu_result op_mul (some a) (some b) ≡ a * b % 2 ^ 16)
      × (alu_result op_rol (some a) (some b) ≡ rotate_left 1 a)
      × (alu_result op_2rol (some a) (some b) ≡ rotate_left 2 a)
      × (alu_result op_4rol (some a) (some b) ≡ rotate_left 4 a)
      × (alu_result op_8rol (some a) (some b) ≡ rotate_left 8 a)
      × (signed16 (alu_result op_asr (some a) (some b)) ≡ floor_shift 1 (signed16 a))
      × (signed16 (alu_result op_2asr (some a) (some b)) ≡ floor_shift 2 (signed16 a))
      × (signed16 (alu_result op_4asr (some a) (some b)) ≡ floor_shift 4 (signed16 a))
alu_explained a b ha hb =
    let (sum, difference, product) = alu_arithmetic a b ha hb in
    let (r1, r2, r4, r8) = alu_rotations a (some b) ha in
    let (s1, s2, s4) = alu_shifts a (some b) ha in
    (sum, difference, product, r1, r2, r4, r8, s1, s2, s4)
