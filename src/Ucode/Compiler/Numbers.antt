-- ===== src/Ucode/Compiler/Numbers.antt =====
-- fpga/ucode/ucode.js: parse_memh reads the four digits that print_memh writes of a word.
use native.Mathlib.Nat.{mod-lt}
use u_fork.Prelude.{
  ℕ, ◌+◌, ◌*◌, ◌/◌, ◌%◌, ◌^◌, ◌<◌, ◌≡◌, refl, ap, ◌∙◌, Bool, true, false, List, ◌∷◌, ◌++◌, bit_or,
  arith, some,
}
use u_fork.Prelude.Masks.{or_fields}
use u_fork.Hex.{digit, from}
use u_fork.Hex.Fixed.{digits_of_lem}
use u_fork.Ucode.Compiler.Reader.{
  seeking, next_mode, is_hex_digit, from_hex_digit, skip, collect, start_number, parse_hex,
}

digit_read : (d : ℕ) → d < 16 → (is_hex_digit (digit d) ≡ true) × (from_hex_digit (digit d) ≡ d)
unfolding digit is_hex_digit from_hex_digit
digit_read d h = ground arith

reduced : (num : ℕ) → num < 2 ^ 28 → num * 2 ^ 4 % 2 ^ 32 ≡ num * 2 ^ 4
reduced num small = omega arith

collect-digit :
    (num d : ℕ) (rest : List ℕ)
    → num < 2 ^ 28
    → d < 16
    → collect num (digit d ∷ rest) ≡ collect (num * 16 + d) rest
unfolding collect
collect-digit num d rest small h =
    let (found, value) = digit_read d h in
    let shifted : bit_or (num * 2 ^ 4 % 2 ^ 32) (from_hex_digit (digit d)) ≡ num * 16 + d =
      ap (bit_or (num * 2 ^ 4 % 2 ^ 32)) value
      ∙ ap (λ n. bit_or n d) (reduced num small)
      ∙ or_fields 4 num d h in
    ap
      (λ b. elim b [
        | true ↦ collect (bit_or (num * 2 ^ 4 % 2 ^ 32) (from_hex_digit (digit d))) rest
        | false ↦ (num, rest)
      ])
      found
    ∙ ap (λ n. collect n rest) shifted

found_digit :
    (d : ℕ) (rest : List ℕ)
    → d < 16
    → parse_hex (digit d ∷ rest) ≡ some (collect 0 (digit d ∷ rest))
unfolding parse_hex skip start_number
found_digit d rest h =
    let look : Bool → List ℕ =
      (λ b. elim b [ true ↦ digit d ∷ rest | false ↦ skip (next_mode seeking (digit d)) rest ]) in
    ap (λ b. start_number (look b)) (digit_read d h).0

ended : (num : ℕ) (rest : List ℕ) → collect num (32 ∷ rest) ≡ (num, rest)
unfolding collect is_hex_digit
ended num rest = refl

-- Four digits and the space behind them.
pub number_read :
    (word : ℕ) (rest : List ℕ)
    → word < 2 ^ 16
    → parse_hex (from word 16 ++ (32 ∷ rest)) ≡ some (word, rest)
unfolding from
number_read word rest small =
    let last = 32 ∷ rest in
    let d3 = word / 16 / 16 / 16 % 16 in
    let d2 = word / 16 / 16 % 16 in
    let d1 = word / 16 % 16 in
    let d0 = word % 16 in
    let b3 : d3 < 16 = mod-lt (word / 16 / 16 / 16) (omega arith) in
    let b2 : d2 < 16 = mod-lt (word / 16 / 16) (omega arith) in
    let b1 : d1 < 16 = mod-lt (word / 16) (omega arith) in
    let b0 : d0 < 16 = mod-lt word (omega arith) in
    let whole : (((0 * 16 + d3) * 16 + d2) * 16 + d1) * 16 + d0 ≡ word = omega arith in
    ap (λ t. parse_hex (t ++ last)) (digits_of_lem 3 13 word (omega arith) (omega arith))
    ∙ found_digit d3 _ b3
    ∙ ap some (
        collect-digit 0 d3 _ (omega arith) b3
        ∙ collect-digit _ d2 _ (omega arith) b2
        ∙ collect-digit _ d1 _ (omega arith) b1
        ∙ collect-digit _ d0 last (omega arith) b0
        ∙ ended _ rest
        ∙ ap (λ n. (n, rest)) whole)
