-- ===== src/Prelude/Bits.antt =====
-- The source's `&`, `|` and `^` on unsigned words: a word splits at any bit into a high and a low
-- part, and the operators act on the parts. Tables of a few bits then give every mask that is used.
use Prim.Native.Nat.{
  ℕ, zero, suc, ◌+◌, ◌*◌, ◌/◌, ◌%◌, ◌^◌, ◌≤◌, ◌<◌, min, max, bit_and, bit_or, bit_xor, digits,
  bit_and-bitwise, bit_or-bitwise, bit_xor-bitwise, differ,
}
use mathlib.Core.Path.{◌≡◌, refl, ap, ap₂}
use native.Mathlib.Omega.{arith}
use native.Mathlib.Nat.{pow-suc}

-- The recursion on digits has enough fuel with any bound of its first number.
module _ (rest : ℕ → ℕ) (digit : ℕ → ℕ → ℕ) where
  digits_fuel : (x i j y : ℕ) → x ≤ i → x ≤ j → digits rest digit i x y ≡ digits rest digit j x y
  digits_fuel zero zero zero y hi hj = refl
  digits_fuel zero zero (suc j) y hi hj = refl
  digits_fuel zero (suc i) zero y hi hj = refl
  digits_fuel zero (suc i) (suc j) y hi hj = refl
  digits_fuel (suc x) zero j y hi hj = absurd (omega arith)
  digits_fuel (suc x) (suc i) zero y hi hj = absurd (omega arith)
  digits_fuel (suc x) (suc i) (suc j) y hi hj =
      ap (λ (r : ℕ). r * 2 + digit (suc x % 2) (y % 2))
        (digits_fuel (suc x / 2) i j (y / 2) (omega arith) (omega arith))

-- An operator whose lowest digit is `f` of the lowest digits.
pub record IsBitwise (op f : ℕ → ℕ → ℕ) : Type 0 where
  pub step : (a b : ℕ) → op a b ≡ op (a / 2) (b / 2) * 2 + f (a % 2) (b % 2)
  pub zeros : op 0 0 ≡ 0

pub bit_and-IsBitwise : IsBitwise bit_and min
bit_and-IsBitwise = record { step = step; zeros = refl }
  where
    step : (a b : ℕ) → bit_and a b ≡ bit_and (a / 2) (b / 2) * 2 + min (a % 2) (b % 2)
    step zero b = omega (arith, bit_and-bitwise 0 b, bit_and-bitwise 0 (b / 2))
    step (suc a) b = omega (
      arith,
      bit_and-bitwise (suc a) b,
      bit_and-bitwise (suc a / 2) (b / 2),
      digits_fuel (λ _. zero) min (suc a / 2) a (suc a / 2) (b / 2) (omega arith) (omega arith),
    )

pub bit_or-IsBitwise : IsBitwise bit_or max
bit_or-IsBitwise = record { step = step; zeros = refl }
  where
    step : (a b : ℕ) → bit_or a b ≡ bit_or (a / 2) (b / 2) * 2 + max (a % 2) (b % 2)
    step zero b = omega (arith, bit_or-bitwise 0 b, bit_or-bitwise 0 (b / 2))
    step (suc a) b = omega (
      arith,
      bit_or-bitwise (suc a) b,
      bit_or-bitwise (suc a / 2) (b / 2),
      digits_fuel (λ c. c) max (suc a / 2) a (suc a / 2) (b / 2) (omega arith) (omega arith),
    )

pub bit_xor-IsBitwise : IsBitwise bit_xor differ
bit_xor-IsBitwise = record { step = step; zeros = refl }
  where
    differ-zero : (b : ℕ) → b < 2 → differ 0 b ≡ b
    differ-zero zero h = refl
    differ-zero (suc zero) h = refl
    differ-zero (suc (suc b)) h = absurd (omega arith)

    step : (a b : ℕ) → bit_xor a b ≡ bit_xor (a / 2) (b / 2) * 2 + differ (a % 2) (b % 2)
    step zero b =
        omega
          (arith, bit_xor-bitwise 0 b, bit_xor-bitwise 0 (b / 2), differ-zero (b % 2) (omega arith))
    step (suc a) b = omega (
      arith,
      bit_xor-bitwise (suc a) b,
      bit_xor-bitwise (suc a / 2) (b / 2),
      digits_fuel (λ c. c) differ (suc a / 2) a (suc a / 2) (b / 2) (omega arith) (omega arith),
    )

-- Words of a high part and `k` low bits: the operator acts on both parts.
module _ {op f : ℕ → ℕ → ℕ} (bw : IsBitwise op f) where
  pub split :
      (k h l h' l' : ℕ)
      → l < 2 ^ k
      → l' < 2 ^ k
      → op (h * 2 ^ k + l) (h' * 2 ^ k + l') ≡ op h h' * 2 ^ k + op l l'
  split zero h l h' l' p q = omega (
    arith,
    bw.zeros,
    ap₂ op (whole h l (omega arith)) (whole h' l' (omega arith)),
    ap₂ op (none_left l (omega arith)) (none_left l' (omega arith)),
  )
    where
      whole : (a b : ℕ) → b ≡ 0 → a * 2 ^ 0 + b ≡ a
      whole a b e = omega arith

      none_left : (b : ℕ) → b ≡ 0 → b ≡ 0
      none_left b e = e
  split (suc k) h l h' l' p q = omega (
    arith,
    bw.step (h * 2 ^ suc k + l) (h' * 2 ^ suc k + l'),
    bw.step l l',
    ap₂ op (half k h l) (half k h' l'),
    ap₂ f (last k h l) (last k h' l'),
    split k h (l / 2) h' (l' / 2) (low k l p) (low k l' q),
    pow-suc 2 k,
    ap (λ (t : ℕ). op h h' * t) (pow-suc 2 k),
  )
    where
      half : (j a b : ℕ) → (a * 2 ^ suc j + b) / 2 ≡ a * 2 ^ j + b / 2
      half j a b = omega (arith, ap (λ (t : ℕ). a * t) (pow-suc 2 j))

      last : (j a b : ℕ) → (a * 2 ^ suc j + b) % 2 ≡ b % 2
      last j a b = omega (arith, ap (λ (t : ℕ). a * t) (pow-suc 2 j))

      low : (j b : ℕ) → b < 2 ^ suc j → b / 2 < 2 ^ j
      low j b h = omega (arith, pow-suc 2 j)
