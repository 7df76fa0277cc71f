-- ===== src/Tests/Compact.antt =====
-- vm/js/compact_memory.js: the example of the source, two quads in use and two that are not.
use u_fork.Prelude.{ℕ, ◌*◌, ◌≡◌, refl, true, false, List, ◌∷◌, ◌++◌, some, take, replicate}
use u_fork.Ufork.Memory.{get_uint32}
use u_fork.Ufork.Compact.{in_use, find_top, compact_memory, all_in_use, compact_memory_explained}

abbrev bytes : List ℕ
bytes = 15 ∷ (replicate 15 0 ++ 6 ∷ replicate 47 0)

compact_memory_runs : compact_memory bytes ≡ some (15 ∷ (replicate 15 0 ++ 6 ∷ replicate 15 0))
unfolding compact_memory find_top in_use get_uint32
compact_memory_runs = refl

compact_memory_explained_example :
    (k : ℕ) × (compact_memory bytes ≡ some (take (k * 16) bytes))
    × (all_in_use bytes k ≡ true)
    × (in_use bytes (k * 16) ≡ false)
compact_memory_explained_example = compact_memory_explained bytes
