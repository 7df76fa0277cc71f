-- ===== src/Ufork/Memory/Bytes.antt =====
-- Words of four bytes in a memory: what is written is read back, and what lies beside it is kept.
use u_fork.Prelude.{
  ℕ, zero, suc, ◌+◌, ◌^◌, ◌≤◌, ◌<◌, ◌≡◌, ◌⊎◌, List, [], ◌∷◌, ltb, ◌==◌, ◌&&◌, if◌then◌else◌, length,
  get_or, set, length-set, arith,
}
use u_fork.Ufork.Memory.{get_uint32, set_uint32}

pub get_or-set {ℓ} :
    {A : Type ℓ} (xs : List A) (i j : ℕ) (v d : A)
    → get_or (set xs i v) j d ≡ (if i == j && ltb i (length xs) then v else get_or xs j d)
get_or-set [] i j v d = ground arith
get_or-set (x ∷ xs) zero zero v d = ground arith
get_or-set (x ∷ xs) zero (suc j) v d = ground arith
get_or-set (x ∷ xs) (suc i) zero v d = ground arith
get_or-set (x ∷ xs) (suc i) (suc j) v d = ground (arith, get_or-set xs i j v d)

pub length-set_uint32 : (mem : List ℕ) (i v : ℕ) → length (set_uint32 mem i v) ≡ length mem
unfolding set_uint32
length-set_uint32 mem i v = simp length-set

pub get_uint32-set_self :
    (mem : List ℕ) (i v : ℕ)
    → i + 4 ≤ length mem
    → v < 2 ^ 32
    → get_uint32 (set_uint32 mem i v) i ≡ v
unfolding get_uint32 set_uint32
get_uint32-set_self mem i v h k = simp (get_or-set, length-set) (ground arith)

pub get_uint32-set_apart :
    (mem : List ℕ) (i j v : ℕ)
    → (i + 4 ≤ j) ⊎ (j + 4 ≤ i)
    → get_uint32 (set_uint32 mem i v) j ≡ get_uint32 mem j
unfolding get_uint32 set_uint32
get_uint32-set_apart mem i j v h = simp (get_or-set, length-set) (ground arith)
