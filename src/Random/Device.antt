-- ===== src/Random/Device.antt =====
-- vm/js/random_dev.js: the range of the numbers that the device gives.
use native.Mathlib.Nat.{mod-lt}
use u_fork.Prelude.{
  ℕ, ◌+◌, ◌%◌, ◌≡◌, true, false, ◌⊎◌, inl, inr, Option, none, some, if_cases, arith,
}
use u_fork.Prelude.Int.{
  ℤ, pos, pos_part, neg_part, ltb_ℤ, ◌+ℤ◌, ◌-ℤ◌, ◌≤ℤ◌, parts_lem, add_lem, sub_lem,
}
use u_fork.Ufork.Raw.{IsU32, is_fix, fix_to_i32}
use u_fork.Ufork.Raw.RoundTrip.{IsFixInt, fix_to_i32-fixnum, fixnum-fix_to_i32}
use u_fork.Random.{within, or_zero, random32, fix_or_undefined, host_random}

-- Between two bounds, of which either may be the larger.
abbrev pub IsBetween : ℤ → ℤ → ℤ → Type 0
IsBetween a b z = ((a ≤ℤ z) × (z ≤ℤ b)) ⊎ ((b ≤ℤ z) × (z ≤ℤ a))

size_lem :
    (a b : ℤ)
    → b ≤ℤ a
    → pos_part (a +ℤ pos 1 -ℤ b) + (neg_part a + pos_part b) ≡ pos_part a + neg_part b + 1
size_lem a b h = elim (parts_lem (a +ℤ pos 1 -ℤ b)) [
  | inl e ↦ omega (arith, sub_lem (a +ℤ pos 1) b, add_lem a (pos 1))
  | inr e ↦ omega (arith, sub_lem (a +ℤ pos 1) b, add_lem a (pos 1))
]

within_range :
    (integer : ℕ) (a b : ℤ) → b ≤ℤ a → (b ≤ℤ within integer a b) × (within integer a b ≤ℤ a)
unfolding within
within_range integer a b h =
    let size = pos_part (a +ℤ pos 1 -ℤ b) in
    let sum = add_lem b (pos (integer % size)) in
    let width = size_lem a b h in
    let small = mod-lt integer {m = size} (omega (arith, width)) in
    (omega (arith, sum, width, small), omega (arith, sum, width, small))

random32_range :
    (integer : ℕ) (a : ℤ) (b : Option ℤ) → IsBetween a (or_zero b) (random32 integer (some a) b)
unfolding random32
random32_range integer a b =
    if_cases {yes = within integer (or_zero b) a} {no = within integer a (or_zero b)}
      (IsBetween a (or_zero b)) (ltb_ℤ a (or_zero b))
      (λ lt. inl (within_range integer (or_zero b) a (below a (or_zero b) lt)))
      (λ ge. inr (within_range integer a (or_zero b) (not_below a (or_zero b) ge)))
  where
    below : (x y : ℤ) → ltb_ℤ x y ≡ true → x ≤ℤ y
    below x y h = ground arith

    not_below : (x y : ℤ) → ltb_ℤ x y ≡ false → y ≤ℤ x
    not_below x y h = ground arith

bound-IsFixInt : (raw : ℕ) → IsU32 raw → IsFixInt (or_zero (fix_or_undefined raw))
bound-IsFixInt raw u =
    if_cases {yes = some (fix_to_i32 raw)} {no = none} (λ o. IsFixInt (or_zero o)) (is_fix raw)
      (λ fix. (fixnum-fix_to_i32 raw u fix).1) (λ _. (omega arith, omega arith))

between-IsFixInt : (a b z : ℤ) → IsFixInt a → IsFixInt b → IsBetween a b z → IsFixInt z
between-IsFixInt a b z ha hb (inl h) = (omega (arith, ha.0, h.0), omega (arith, hb.1, h.1))
between-IsFixInt a b z ha hb (inr h) = (omega (arith, hb.0, h.0), omega (arith, ha.1, h.1))

-- With a fixnum as its first bound, the device gives a fixnum between its two bounds, whichever
-- is the larger; a second bound that is no fixnum stands for 0. Both bounds are raw values.
pub host_random_range :
    (integer a_raw b_raw : ℕ)
    → IsU32 a_raw
    → IsU32 b_raw
    → is_fix a_raw ≡ true
    → (is_fix (host_random integer a_raw b_raw) ≡ true)
      × IsBetween
          (fix_to_i32 a_raw)
          (or_zero (fix_or_undefined b_raw))
          (fix_to_i32 (host_random integer a_raw b_raw))
unfolding host_random
host_random_range integer a_raw b_raw ua ub fix =
    let b = fix_or_undefined b_raw in
    let range = random32_range integer (fix_to_i32 a_raw) b in
    let (back, _, is) = fix_to_i32-fixnum (random32 integer (some (fix_to_i32 a_raw)) b) (
      between-IsFixInt (fix_to_i32 a_raw) (or_zero b) (random32 integer (some (fix_to_i32 a_raw)) b)
        ((fixnum-fix_to_i32 a_raw ua fix).1) (bound-IsFixInt b_raw ub) range) in
    rw fix (is, rw back range)
