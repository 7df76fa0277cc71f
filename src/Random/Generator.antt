-- ===== src/Random/Generator.antt =====
-- lib/prng.js: the range of the seeds and numbers.
use u_fork.Prelude.{ℕ, zero, suc, ◌-◌, ◌%◌, ◌<◌, ◌≡◌, refl, arith}
use u_fork.Prelude.Int.{ℤ, pos, negsuc, ◌≤ℤ◌}
use u_fork.Random.{n, prng, random_seed, random_numerator, seed_after}

-- A seed that n does not divide.
abbrev pub IsSeed : ℕ → Type 0
IsSeed seed = (0 < seed) × (seed < n)

abbrev pub Divides : ℤ → Type 0
Divides (pos seed) = seed % n ≡ 0
Divides (negsuc seed) = suc seed % n ≡ 0

random_seed-IsSeed : (seed : ℕ) → IsSeed seed → IsSeed (random_seed seed)
unfolding random_seed
random_seed-IsSeed seed (low, high) = (omega arith, omega arith)

seed_after-IsSeed : (calls seed : ℕ) → IsSeed seed → IsSeed (seed_after calls seed)
unfolding seed_after
seed_after-IsSeed zero seed h = h
seed_after-IsSeed (suc calls) seed h =
    seed_after-IsSeed calls (random_seed seed) (random_seed-IsSeed seed h)

prng-IsSeed : (seed : ℤ) → (Divides seed → ⊥) → IsSeed (prng seed)
unfolding prng
prng-IsSeed (pos seed) h = ground arith
prng-IsSeed (negsuc seed) h = (ground arith, ground arith)

-- Unless n divides the given seed, every number is from 0 to 1, whatever the calls before it.
pub random_in_range :
    (seed : ℤ) (calls : ℕ)
    → (Divides seed → ⊥)
    → (pos 0 ≤ℤ random_numerator (seed_after calls (prng seed)))
      × (random_numerator (seed_after calls (prng seed)) ≤ℤ pos (n - 1))
unfolding random_numerator
random_in_range seed calls h =
    let s = seed_after calls (prng seed) in
    let (low, high) =
      random_seed-IsSeed s (seed_after-IsSeed calls (prng seed) (prng-IsSeed seed h)) in
    (ground arith, ground arith)

random_seed_stuck : (seed : ℕ) → seed % n ≡ 0 → random_seed seed ≡ 0
unfolding random_seed
random_seed_stuck seed h = omega arith

seed_after_stuck : (calls seed : ℕ) → seed % n ≡ 0 → seed_after calls seed % n ≡ 0
unfolding seed_after
seed_after_stuck zero seed h = h
seed_after_stuck (suc calls) seed h =
    seed_after_stuck calls (random_seed seed) (omega (arith, random_seed_stuck seed h))

prng_stuck : (seed : ℤ) → Divides seed → prng seed % n ≡ 0
unfolding prng
prng_stuck (pos seed) h = ground arith
prng_stuck (negsuc seed) h = ground arith

numerator_stuck : (seed : ℕ) → seed % n ≡ 0 → random_numerator seed ≡ negsuc 0
unfolding random_numerator
numerator_stuck seed h = rw (random_seed_stuck seed h) refl

-- If n divides the given seed, as 0 and n do, every number is -1 / (n - 1), below the range.
pub random_stuck :
    (seed : ℤ) (calls : ℕ)
    → Divides seed
    → random_numerator (seed_after calls (prng seed)) ≡ negsuc 0
random_stuck seed calls h =
    numerator_stuck (seed_after calls (prng seed))
      (seed_after_stuck calls (prng seed) (prng_stuck seed h))
