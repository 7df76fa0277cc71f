-- ===== src/Tests/Random.antt =====
-- vm/js/random_dev.js and lib/prng.js on concrete words and seeds.
use u_fork.Prelude.{◌-◌, ◌≡◌, refl, none, some, arith}
use u_fork.Prelude.Int.{pos, negsuc, ◌≤ℤ◌, ◌+ℤ◌, ◌-ℤ◌}
use u_fork.Random.{n, within, random32, prng, random_numerator, seed_after}
use u_fork.Random.Generator.{random_in_range, random_stuck}

-- The range of the source's comment: random32(crypto, -3, 2).
random32_runs :
    (random32 9 (some (negsuc 2)) (some (pos 2)) ≡ pos 0)
    × (random32 5 (some (pos 2)) (some (negsuc 2)) ≡ pos 2)
    × (random32 7 (some (pos 3)) none ≡ pos 3)
    × (random32 7 none none ≡ pos 7)
unfolding random32 within ◌+ℤ◌ ◌-ℤ◌
random32_runs = (refl, refl, refl, refl)

random_in_range_example :
    (pos 0 ≤ℤ random_numerator (seed_after 3 (prng (negsuc 41))))
    × (random_numerator (seed_after 3 (prng (negsuc 41))) ≤ℤ pos (n - 1))
random_in_range_example = random_in_range (negsuc 41) 3 (λ h. absurd (omega arith))

random_stuck_example : random_numerator (seed_after 3 (prng (pos 0))) ≡ negsuc 0
random_stuck_example = random_stuck (pos 0) 3 refl
