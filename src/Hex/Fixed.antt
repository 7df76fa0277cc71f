-- ===== src/Hex/Fixed.antt =====
-- lib/hex.js: a number that fits in the digits asked for has exactly those.
use native.Mathlib.Nat.{pow-suc}
use u_fork.Prelude.{
  ℕ, zero, suc, ◌-◌, ◌/◌, ◌%◌, ◌^◌, ◌≤◌, ◌<◌, ◌≡◌, refl, sym, ap, ◌∙◌, true, ◌==◌, List, [], ◌∷◌,
  ◌++◌, length, replicate, length-append, append_assoc, arith, Bool-cases, inl, inr,
}
use u_fork.Hex.{digit, to_string16, pad_start}
use u_fork.Hex.RoundTrip.{one_digit, more_digits}

-- The lowest `k` digits of a number, the highest first.
abbrev pub digits_of : ℕ → ℕ → List ℕ
digits_of zero number = []
digits_of (suc k) number = digits_of k (number / 16) ++ digit (number % 16) ∷ []

replicate-suc : (k d : ℕ) → replicate k d ++ d ∷ [] ≡ d ∷ replicate k d
replicate-suc zero d = refl
replicate-suc (suc k) d = ap (λ r. d ∷ r) (replicate-suc k d)

digits_of-zero : (k : ℕ) → digits_of k 0 ≡ replicate k 48
unfolding digit
digits_of-zero zero = refl
digits_of-zero (suc k) = ap (λ r. r ++ 48 ∷ []) (digits_of-zero k) ∙ replicate-suc k 48

-- Zeros are put in front of all digits but the last, as the last takes one place.
pad_start-append :
    (k : ℕ) (text : List ℕ) (d : ℕ)
    → pad_start (suc k) (text ++ d ∷ []) ≡ pad_start k text ++ d ∷ []
unfolding pad_start
pad_start-append k text d =
    ap (λ n. replicate n 48 ++ (text ++ d ∷ [])) (omega (arith, length-append text (d ∷ [])))
    ∙ sym (append_assoc (replicate (k - length text) 48) text (d ∷ []))

pad_start-empty : (k : ℕ) → pad_start k [] ≡ digits_of k 0
unfolding pad_start
pad_start-empty k =
    ap (λ n. replicate n 48 ++ []) (omega arith)
    ∙ append_empty (replicate k 48)
    ∙ sym (digits_of-zero k)
  where
    append_empty : (xs : List ℕ) → xs ++ [] ≡ xs
    append_empty [] = refl
    append_empty (x ∷ xs) = ap (λ r. x ∷ r) (append_empty xs)

-- A number of one digit has zeros in front.
one_digit_padded :
    (k fuel number : ℕ)
    → (number / 16 == 0) ≡ true
    → pad_start (suc k) (to_string16 (suc fuel) number) ≡ digits_of (suc k) number
one_digit_padded k fuel number e =
    let high : number / 16 ≡ 0 = ground arith in
    ap (pad_start (suc k)) (one_digit fuel number (omega (arith, high)))
    ∙ pad_start-append k [] (digit number)
    ∙ ap (λ t. t ++ digit number ∷ []) (pad_start-empty k)
    ∙ ap (λ n. digits_of k 0 ++ digit n ∷ []) (omega (arith, high))
    ∙ ap (λ n. digits_of k n ++ digit (number % 16) ∷ []) (sym high)

pub digits_of_lem :
    (k fuel number : ℕ)
    → number < 16 ^ suc k
    → k ≤ fuel
    → pad_start (suc k) (to_string16 (suc fuel) number) ≡ digits_of (suc k) number
digits_of_lem zero fuel number small enough = one_digit_padded 0 fuel number (ground arith)
digits_of_lem (suc k) zero number small enough = absurd (omega arith)
digits_of_lem (suc k) (suc fuel) number small enough = elim (Bool-cases (number / 16 == 0)) [
  | inl e ↦ one_digit_padded (suc k) (suc fuel) number e
  | inr e ↦
      ap (pad_start (suc (suc k))) (more_digits (suc fuel) number e)
      ∙ pad_start-append (suc k) (to_string16 (suc fuel) (number / 16)) (digit (number % 16))
      ∙ ap (λ t. t ++ digit (number % 16) ∷ [])
          (digits_of_lem k fuel (number / 16) (omega (arith, pow-suc 16 (suc k))) (omega arith))
]
