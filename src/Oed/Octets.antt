-- ===== src/Oed/Octets.antt =====
-- lib/oed_lite.js: the octets of a magnitude, as they are encoded and as they are summed.
use native.Mathlib.Nat.{pow-suc, mul-add, mul_assoc}
use u_fork.Prelude.{
  ℕ, zero, suc, ◌+◌, ◌*◌, ◌/◌, ◌%◌, ◌^◌, ◌≤◌, ◌<◌, ◌≡◌, refl, sym, ap, ◌∙◌, true, ◌==◌, leb, List,
  [], ◌∷◌, ◌++◌, length, get_elem?, drop, Option, none, some, arith, if_cases, drop-drop,
}
use u_fork.Prelude.Int.{ℤ, pos, negsuc}
use u_fork.Prelude.Masks.{and_ones}
use u_fork.Oed.{radix, octet_at, radix_digits, encode_magnitude, sum_octets}

-- What stands at an offset.
pub item_at :
    (octets : List ℕ) (i x : ℕ) (xs : List ℕ) → drop i octets ≡ x ∷ xs → get_elem? octets i ≡ some x
item_at [] zero x xs h = absurd (cc)
item_at [] (suc i) x xs h = absurd (cc)
item_at (y ∷ ys) zero x xs h = ap (λ l. get_elem? l 0) h
item_at (y ∷ ys) (suc i) x xs h = item_at ys i x xs h

pub behind_item :
    (octets : List ℕ) (i x : ℕ) (xs : List ℕ) → drop i octets ≡ x ∷ xs → drop (i + 1) octets ≡ xs
behind_item octets i x xs h = sym (drop-drop i 1 octets) ∙ ap (drop 1) h

-- The number that octets stand for, the lowest first.
abbrev pub magnitude : List ℕ → ℕ
magnitude [] = 0
magnitude (octet ∷ octets) = octet + 256 * magnitude octets

pub sum_octets_lem :
    (octets xs after : List ℕ) (offset value scale : ℕ)
    → drop offset octets ≡ xs ++ after
    → sum_octets octets (length xs) offset value scale ≡ some (value + scale * magnitude xs)
unfolding sum_octets
sum_octets_lem octets [] after offset value scale h = ap some (omega arith)
sum_octets_lem octets (x ∷ xs) after offset value scale h =
    ap
      (λ o. elim o as (λ _. Option ℕ) [
        | none ↦ none
        | some octet ↦
            sum_octets octets (length xs) (offset + 1) (value + scale * octet) (scale * radix)
      ])
      (item_at octets offset x (xs ++ after) h)
    ∙ sum_octets_lem octets xs after (offset + 1) (value + scale * x) (scale * radix)
        (behind_item octets offset x (xs ++ after) h)
    ∙ ap some (summed value scale x (magnitude xs))
  where
    summed : (v s a m : ℕ) → (v + s * a) + s * 256 * m ≡ v + s * (a + 256 * m)
    summed v s a m = omega (arith, mul-add s a (256 * m), mul_assoc s 256 m)

radix_digits_lem :
    (fuel n : ℕ)
    → n < 256 ^ fuel
    → (magnitude (radix_digits fuel n) ≡ n) × (length (radix_digits fuel n) ≤ fuel)
unfolding radix_digits
radix_digits_lem zero n h = (omega arith, omega arith)
radix_digits_lem (suc fuel) n h =
    let (value, short) = radix_digits_lem fuel (n / 256) (omega (arith, pow-suc 256 fuel)) in
    if_cases (λ xs. (magnitude xs ≡ n) × (length xs ≤ suc fuel)) (n == 0)
      (λ e. (is_zero n e, omega arith)) (λ _. (omega (arith, value), omega (arith, short)))
  where
    is_zero : (n : ℕ) → (n == 0) ≡ true → 0 ≡ n
    is_zero n e = ground arith

-- What the octets of a number are behind its type: its bits, and its magnitude from the lowest octet.
pub record IsEncoded (integer_type n : ℕ) (octets : List ℕ) : Type 0 where
  pub digits : List ℕ
  pub shape : octets ≡ integer_type ∷ length digits * 8 ∷ digits
  pub value : magnitude digits ≡ n
  pub short : length digits ≤ 7

octet_at_lem : (shift n : ℕ) → octet_at shift n ≡ n / 2 ^ shift % 256
octet_at_lem shift n = and_ones 8 (n / 2 ^ shift)

pub below : (a b : ℕ) → leb a b ≡ true → a ≤ b
below a b h = ground arith

pub encode_magnitude-IsEncoded :
    (integer_type n : ℕ) → n < 2 ^ 53 → IsEncoded integer_type n (encode_magnitude integer_type n)
unfolding encode_magnitude
encode_magnitude-IsEncoded t n safe =
    let (all, seven) = radix_digits_lem 7 n (omega arith) in
    if_cases (IsEncoded t n) (leb n 0xFF)
      (λ h. record {
        digits = octet_at 0 n ∷ [];
        shape = refl;
        value = omega (arith, octet_at_lem 0 n, below n 0xFF h);
        short = omega arith;
      })
      (λ _.
        if_cases (IsEncoded t n) (leb n 0xFFFF)
          (λ h. record {
            digits = octet_at 0 n ∷ octet_at 8 n ∷ [];
            shape = refl;
            value = omega (arith, octet_at_lem 0 n, octet_at_lem 8 n, below n 0xFFFF h);
            short = omega arith;
          })
          (λ _.
            if_cases (IsEncoded t n) (leb n 0xFFFFFF)
              (λ h. record {
                digits = octet_at 0 n ∷ octet_at 8 n ∷ octet_at 16 n ∷ [];
                shape = refl;
                value = omega (
                  arith,
                  octet_at_lem 0 n,
                  octet_at_lem 8 n,
                  octet_at_lem 16 n,
                  below n 0xFFFFFF h,
                );
                short = omega arith;
              })
              (λ _.
                if_cases (IsEncoded t n) (leb n 0xFFFFFFFF)
                  (λ h. record {
                    digits = octet_at 0 n ∷ octet_at 8 n ∷ octet_at 16 n ∷ octet_at 24 n ∷ [];
                    shape = refl;
                    value = omega (
                      arith,
                      octet_at_lem 0 n,
                      octet_at_lem 8 n,
                      octet_at_lem 16 n,
                      octet_at_lem 24 n,
                      below n 0xFFFFFFFF h,
                    );
                    short = omega arith;
                  })
                  (λ _. record {
                    digits = radix_digits 7 n;
                    shape = refl;
                    value = all;
                    short = seven;
                  }))))

-- A safe integer.
abbrev pub IsSafe : ℤ → Type 0
IsSafe (pos n) = n < 2 ^ 53
IsSafe (negsuc n) = suc n < 2 ^ 53
