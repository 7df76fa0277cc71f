-- ===== src/Random.antt =====
-- vm/js/random_dev.js: the random device; and lib/prng.js, a generator that is not random. The word
-- that webcrypto gives is a parameter, a number below 2^32.
pub mod Device
pub mod Generator
use u_fork.Prelude.{
  ℕ, zero, suc, ◌+◌, ◌-◌, ◌*◌, ◌%◌, ◌^◌, ltb, ◌==◌, if◌then◌else◌, Option, none, some,
}
use u_fork.Prelude.Int.{ℤ, pos, negsuc, pos_part, ltb_ℤ, sub_ℕ, ◌+ℤ◌, ◌-ℤ◌}
use u_fork.Ufork.Raw.{is_fix, fixnum, fix_to_i32}

-- `b + (integer % (a + 1 - b))`, where `a` is not below `b`.
unfoldable pub within : ℕ → ℤ → ℤ → ℤ
within integer a b = b +ℤ pos (integer % pos_part (a +ℤ pos 1 -ℤ b))

abbrev pub or_zero : Option ℤ → ℤ
or_zero none = pos 0
or_zero (some b) = b

-- If `b > a`, the bounds change places.
unfoldable pub random32 : ℕ → Option ℤ → Option ℤ → ℤ
random32 integer none b = pos integer
random32 integer (some a) b =
    let b = or_zero b in if ltb_ℤ a b then within integer b a else within integer a b

abbrev pub fix_or_undefined : ℕ → Option ℤ
fix_or_undefined raw = if is_fix raw then some (fix_to_i32 raw) else none

unfoldable pub host_random : ℕ → ℕ → ℕ → ℕ
host_random integer a_raw b_raw =
    fixnum (random32 integer (fix_or_undefined a_raw) (fix_or_undefined b_raw))

-- lib/prng.js

abbrev pub n : ℕ
n = 2 ^ 31 - 1

abbrev pub g : ℕ
g = 7 ^ 5

-- `seed %= n; if (seed <= 0) seed += n`; a remainder has the sign of its dividend.
unfoldable pub prng : ℤ → ℕ
prng (pos seed) = if seed % n == 0 then seed % n + n else seed % n
prng (negsuc seed) = n - suc seed % n

-- The seed that a call of `random` leaves, and the number it gives: the numerator of a fraction of
-- n - 1, for the default range from 0 to 1.
unfoldable pub random_seed : ℕ → ℕ
random_seed seed = seed * g % n

unfoldable pub random_numerator : ℕ → ℤ
unfolding random_seed
random_numerator seed = sub_ℕ (random_seed seed) 1

-- The seed behind a number of calls.
unfoldable pub seed_after : ℕ → ℕ → ℕ
unfolding random_seed
seed_after zero seed = seed
seed_after (suc calls) seed = seed_after calls (random_seed seed)
