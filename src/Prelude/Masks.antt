-- ===== src/Prelude/Masks.antt =====
-- The masks of the source as arithmetic: runs of ones, single bits, and fields side by side.
use Prim.Native.Nat.{
  ℕ, zero, suc, ◌+◌, ◌-◌, ◌*◌, ◌/◌, ◌%◌, ◌^◌, ◌≤◌, ◌<◌, bit_and, bit_or, bit_xor, differ,
  bit_and-bitwise, bit_or-bitwise, bit_and-bitwise,
}
use mathlib.Core.Path.{◌≡◌, refl, ap, ap₂, sym, ◌∙◌}
use native.Mathlib.Omega.{arith}
use native.Mathlib.Nat.{
  pow-suc, div-add-mod, mod-lt, mul_comm, mul-add-mod_self_right, mod-eq_of_lt,
}
use u_fork.Prelude.Bits.{split, bit_and-IsBitwise, bit_or-IsBitwise, bit_xor-IsBitwise}

and_zero_fuel : (n a : ℕ) → a ≤ n → bit_and a 0 ≡ 0
and_zero_fuel n zero h = refl
and_zero_fuel zero (suc a) h = absurd (omega arith)
and_zero_fuel (suc n) (suc a) h =
    omega (arith, bit_and-IsBitwise.step (suc a) 0, and_zero_fuel n (suc a / 2) (omega arith))

pub bit_and-zero : (a : ℕ) → bit_and a 0 ≡ 0
bit_and-zero a = and_zero_fuel a a (omega arith)

or_zero_fuel : (n a : ℕ) → a ≤ n → bit_or a 0 ≡ a
or_zero_fuel n zero h = refl
or_zero_fuel zero (suc a) h = absurd (omega arith)
or_zero_fuel (suc n) (suc a) h =
    omega (arith, bit_or-IsBitwise.step (suc a) 0, or_zero_fuel n (suc a / 2) (omega arith))

pub bit_or-zero : (a : ℕ) → bit_or a 0 ≡ a
bit_or-zero a = or_zero_fuel a a (omega arith)

pub zero-bit_or : (a : ℕ) → bit_or 0 a ≡ a
zero-bit_or a = bit_or-bitwise 0 a

pow_pos : (k : ℕ) → 0 < 2 ^ k
pow_pos zero = omega arith
pow_pos (suc k) = omega (arith, pow_pos k, pow-suc 2 k)

-- A number in its two parts at bit `k`.
parts : (k a : ℕ) → a / 2 ^ k * 2 ^ k + a % 2 ^ k ≡ a
parts k a = omega (arith, div-add-mod a (2 ^ k), mul_comm (2 ^ k) (a / 2 ^ k))

low-lt : (k a : ℕ) → a % 2 ^ k < 2 ^ k
low-lt k a = mod-lt a (pow_pos k)

-- The low bits of `a` are the low bits of its half, and its last digit.
mod_step : (k a : ℕ) → a % 2 ^ suc k ≡ a / 2 % 2 ^ k * 2 + a % 2
mod_step k a =
    ap (λ (t : ℕ). t % 2 ^ suc k)
      (omega (arith, parts k (a / 2), ap (λ (t : ℕ). a / 2 / 2 ^ k * t) (pow-suc 2 k)))
    ∙ mul-add-mod_self_right (a / 2 / 2 ^ k) (2 ^ suc k) (a / 2 % 2 ^ k * 2 + a % 2)
    ∙ mod-eq_of_lt (omega (arith, low-lt k (a / 2), pow-suc 2 k))

pub and_ones : (k a : ℕ) → bit_and a (2 ^ k - 1) ≡ a % 2 ^ k
and_ones zero a = omega (arith, bit_and-zero a)
and_ones (suc k) a = omega (
  arith,
  bit_and-IsBitwise.step a (2 ^ suc k - 1),
  ap (λ (t : ℕ). bit_and (a / 2) t) (halved k),
  odd k,
  and_ones k (a / 2),
  mod_step k a,
)
  where
    halved : (j : ℕ) → (2 ^ suc j - 1) / 2 ≡ 2 ^ j - 1
    halved j = omega (arith, pow-suc 2 j, pow_pos j)

    odd : (j : ℕ) → (2 ^ suc j - 1) % 2 ≡ 1
    odd j = omega (arith, pow-suc 2 j, pow_pos j)

-- A run of `j` ones above `k` zeros.
pub and_run : (j k a : ℕ) → bit_and a ((2 ^ j - 1) * 2 ^ k) ≡ a / 2 ^ k % 2 ^ j * 2 ^ k
and_run j k a =
    ap₂ bit_and (sym (parts k a)) (omega arith)
    ∙ split bit_and-IsBitwise k (a / 2 ^ k) (a % 2 ^ k) (2 ^ j - 1) 0 (low-lt k a) (pow_pos k)
    ∙ omega (arith, bit_and-zero (a % 2 ^ k), ap (λ (t : ℕ). t * 2 ^ k) (and_ones j (a / 2 ^ k)))

-- One bit set by `|`.
pub or_bit : (k a : ℕ) → bit_or a (2 ^ k) ≡ (a / 2 ^ k / 2 * 2 + 1) * 2 ^ k + a % 2 ^ k
or_bit k a =
    ap₂ bit_or (sym (parts k a)) (omega arith)
    ∙ split bit_or-IsBitwise k (a / 2 ^ k) (a % 2 ^ k) 1 0 (low-lt k a) (pow_pos k)
    ∙ omega (arith, bit_or-zero (a % 2 ^ k), ap (λ (t : ℕ). t * 2 ^ k) (or_one (a / 2 ^ k)))
  where
    or_one : (b : ℕ) → bit_or b 1 ≡ b / 2 * 2 + 1
    or_one b = omega (arith, bit_or-IsBitwise.step b 1, bit_or-zero (b / 2))

plus_zero : (a : ℕ) → a ≡ a + 0
plus_zero a = omega arith

zero_fields : (k l : ℕ) → l ≡ 0 * 2 ^ k + l
zero_fields k l = omega arith

-- Fields side by side.
pub or_fields : (k h l : ℕ) → l < 2 ^ k → bit_or (h * 2 ^ k) l ≡ h * 2 ^ k + l
or_fields k h l p =
    ap₂ bit_or (plus_zero (h * 2 ^ k)) (zero_fields k l)
    ∙ split bit_or-IsBitwise k h 0 0 l (pow_pos k) p
    ∙ omega (arith, zero-bit_or l, ap (λ (t : ℕ). t * 2 ^ k) (bit_or-zero h))

and_le_fuel : (n a b : ℕ) → a ≤ n → bit_and a b ≤ a
and_le_fuel n zero b h = omega (arith, bit_and-bitwise 0 b)
and_le_fuel zero (suc a) b h = absurd (omega arith)
and_le_fuel (suc n) (suc a) b h =
    omega (arith, bit_and-IsBitwise.step (suc a) b, and_le_fuel n (suc a / 2) (b / 2) (omega arith))

pub bit_and-le : (a b : ℕ) → bit_and a b ≤ a
bit_and-le a b = and_le_fuel a a b (omega arith)

pub bit_or-lt : (k a b : ℕ) → a < 2 ^ k → b < 2 ^ k → bit_or a b < 2 ^ k
bit_or-lt zero zero zero p q = omega arith
bit_or-lt zero (suc a) b p q = absurd (omega arith)
bit_or-lt zero zero (suc b) p q = absurd (omega arith)
bit_or-lt (suc k) a b p q = omega (
  arith,
  bit_or-IsBitwise.step a b,
  bit_or-lt k (a / 2) (b / 2) (omega (arith, pow-suc 2 k)) (omega (arith, pow-suc 2 k)),
  pow-suc 2 k,
)

-- The digits of `^`.
differ-digit : (a b : ℕ) → a < 2 → b < 2 → (differ a b < 2) × (b ≡ 1 → differ a b ≡ 1 - a)
differ-digit zero zero h k = (omega arith, λ e. absurd (omega arith))
differ-digit zero (suc zero) h k = (omega arith, λ _. refl)
differ-digit (suc zero) zero h k = (omega arith, λ e. absurd (omega arith))
differ-digit (suc zero) (suc zero) h k = (omega arith, λ _. refl)
differ-digit (suc (suc a)) b h k = absurd (omega arith)
differ-digit a (suc (suc b)) h k = absurd (omega arith)

pub bit_xor-lt : (k a b : ℕ) → a < 2 ^ k → b < 2 ^ k → bit_xor a b < 2 ^ k
bit_xor-lt zero zero zero p q = omega arith
bit_xor-lt zero (suc a) b p q = absurd (omega arith)
bit_xor-lt zero zero (suc b) p q = absurd (omega arith)
bit_xor-lt (suc k) a b p q = omega (
  arith,
  bit_xor-IsBitwise.step a b,
  (differ-digit (a % 2) (b % 2) (omega arith) (omega arith)).0,
  bit_xor-lt k (a / 2) (b / 2) (omega (arith, pow-suc 2 k)) (omega (arith, pow-suc 2 k)),
  pow-suc 2 k,
)

-- `^` with ones turns each bit over.
pub xor_ones : (k a : ℕ) → a < 2 ^ k → bit_xor a (2 ^ k - 1) ≡ 2 ^ k - 1 - a
xor_ones zero zero h = refl
xor_ones zero (suc a) h = absurd (omega arith)
xor_ones (suc k) a h = omega (
  arith,
  bit_xor-IsBitwise.step a (2 ^ suc k - 1),
  ap (λ (t : ℕ). bit_xor (a / 2) t) (halved k),
  (differ-digit (a % 2) ((2 ^ suc k - 1) % 2) (omega arith) (omega arith)).1 (odd k),
  xor_ones k (a / 2) (omega (arith, pow-suc 2 k)),
  pow-suc 2 k,
)
  where
    halved : (j : ℕ) → (2 ^ suc j - 1) / 2 ≡ 2 ^ j - 1
    halved j = omega (arith, pow-suc 2 j, pow_pos j)

    odd : (j : ℕ) → (2 ^ suc j - 1) % 2 ≡ 1
    odd j = omega (arith, pow-suc 2 j, pow_pos j)
