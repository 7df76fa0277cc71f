-- ===== src/Ufork/Compact.antt =====
-- vm/js/compact_memory.js: a memory image without the quads above the top of memory.
use u_fork.Prelude.{
  ℕ, zero, suc, ◌+◌, ◌*◌, ◌<◌, ◌≤◌, ◌≡◌, refl, ap, ◌∙◌, Bool, true, false, not, ◌&&◌, leb, ◌==◌,
  if◌then◌else◌, List, Option, none, some, inl, inr, Bool-cases, length, take, arith,
}
use u_fork.Ufork.Constants.{undef_raw}
use u_fork.Ufork.Memory.{get_uint32}

-- The test of the loop: the T field at `top` is in the memory, and is not #?.
unfoldable pub in_use : List ℕ → ℕ → Bool
in_use bytes top = leb (top + 4) (length bytes) && not (get_uint32 bytes top == undef_raw)

-- The loop from `top` on; `none` if the fuel runs out.
unfoldable pub find_top : ℕ → List ℕ → ℕ → Option ℕ
find_top zero bytes top = none
find_top (suc fuel) bytes top =
    let rest = find_top fuel bytes (top + 16) in if in_use bytes top then rest else some top

abbrev pub trimmed : List ℕ → Option ℕ → Option (List ℕ)
trimmed bytes none = none
trimmed bytes (some top) = some (take top bytes)

unfoldable pub compact_memory : List ℕ → Option (List ℕ)
compact_memory bytes = trimmed bytes (find_top (suc (length bytes)) bytes 0)

-- Each of the first `k` quads is in use.
abbrev pub all_in_use : List ℕ → ℕ → Bool
all_in_use bytes zero = true
all_in_use bytes (suc k) = all_in_use bytes k && in_use bytes (k * 16)

in_use_within : (bytes : List ℕ) (top : ℕ) → in_use bytes top ≡ true → top + 4 ≤ length bytes
unfolding in_use
in_use_within bytes top h =
    within (top + 4) (length bytes) (not (get_uint32 bytes top == undef_raw)) h
  where
    within : (a n : ℕ) (b : Bool) → (leb a n && b) ≡ true → a ≤ n
    within a n b h = ground arith

find_top_explained :
    (fuel : ℕ) (bytes : List ℕ) (j : ℕ)
    → length bytes + 12 < fuel * 16 + j * 16
    → j * 16 ≤ length bytes + 12
    → all_in_use bytes j ≡ true
    → (k : ℕ) × (find_top fuel bytes (j * 16) ≡ some (k * 16))
      × (all_in_use bytes k ≡ true)
      × (in_use bytes (k * 16) ≡ false)
unfolding find_top
find_top_explained zero bytes j enough low used = absurd (omega arith)
find_top_explained (suc fuel) bytes j enough low used = elim (Bool-cases (in_use bytes (j * 16))) [
  | inl more ↦
      let (k, found, all, stop) =
        find_top_explained fuel bytes (suc j) (omega arith)
          (omega (arith, in_use_within bytes (j * 16) more)) (both used more) in
      (k, rw more (ap (find_top fuel bytes) (next j) ∙ found), all, stop)
  | inr stop ↦ (j, rw stop refl, used, stop)
]
  where
    next : (m : ℕ) → m * 16 + 16 ≡ suc m * 16
    next m = omega arith

    both : {a b : Bool} → a ≡ true → b ≡ true → (a && b) ≡ true
    both ha hb = rw (ha, hb) refl

-- The loop ends, and what is left are the first quads of the memory, each of which is in use; the
-- next is not in use, or its T field is behind the end of the memory.
pub compact_memory_explained :
    (bytes : List ℕ)
    → (k : ℕ) × (compact_memory bytes ≡ some (take (k * 16) bytes))
      × (all_in_use bytes k ≡ true)
      × (in_use bytes (k * 16) ≡ false)
unfolding compact_memory
compact_memory_explained bytes =
    let (k, found, all, stop) =
      find_top_explained (suc (length bytes)) bytes 0 (omega arith) (omega arith) refl in
    (k, ap (trimmed bytes) found, all, stop)
