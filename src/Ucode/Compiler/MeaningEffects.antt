-- ===== src/Ucode/Compiler/MeaningEffects.antt =====
-- fpga/ucode/ucode.js and fpga/ucode/ucode_sim.js: the effects of the codes of the words.
use Prim.Native.String.{String}
use u_fork.Prelude.{ℕ, ◌^◌, ◌<◌, ◌≡◌, refl, ap, subst, none, some, List, [], ◌∷◌, get_or, arith}
use u_fork.Ucode.Stack.{Cell, Stack, tos, nos}
use u_fork.Ucode.Stack.Refinement.{Holds, effect}
use u_fork.Ucode.Machine.Step.{decode}
use u_fork.Ucode.Compiler.Entries.{put, held_at, from_entries}
use u_fork.Ucode.Compiler.Table.{word_of, initial_words}
use u_fork.Ucode.Compiler.Meanings
use u_fork.Ucode.Compiler.MeaningValues.{
  Coded, value_of, pass_lem, Pushes-Coded, Maps-Coded, Joins-Coded,
}

-- Words of 16 bits.
abbrev pub AreWords : List ℕ → Type 0
AreWords [] = Unit {0}
AreWords (x ∷ xs) = (x < 2 ^ 16) × AreWords xs

-- The cells that are read, of a stack of numbers.
abbrev pub Top : List ℕ → Cell → Type 0
Top [] c = Unit {0}
Top (x ∷ xs) c = c ≡ some x

abbrev pub Next : List ℕ → Cell → Type 0
Next [] c = Unit {0}
Next (x ∷ xs) c = Top xs c

pub tos-Top : (xs : List ℕ) (s : Stack) → Holds s.cells xs → Top xs (tos s)
unfolding tos
tos-Top xs s h = at_front s.cells xs h
  where
    at_front : (cells : List Cell) (xs : List ℕ) → Holds cells xs → Top xs (get_or cells 0 none)
    at_front cells [] h = tt
    at_front [] (x ∷ xs) h = absurd h
    at_front (c ∷ cells) (x ∷ xs) h = h.0

pub nos-Next : (xs : List ℕ) (s : Stack) → Holds s.cells xs → Next xs (nos s)
unfolding nos
nos-Next xs s h = next s.cells xs h
  where
    next : (cells : List Cell) (xs : List ℕ) → Holds cells xs → Next xs (get_or cells 1 none)
    next cells [] h = tt
    next cells (x ∷ []) h = tt
    next [] (x ∷ y ∷ xs) h = absurd h
    next (c ∷ []) (x ∷ y ∷ xs) h = absurd h.1
    next (c ∷ d ∷ cells) (x ∷ y ∷ xs) h = h.1.0

-- The effects of the word's code, on unbounded stacks, are what the word is meant to do.
abbrev pub Effects : String → List ℕ → List ℕ → List ℕ → List ℕ → Type 0
Effects name ds rs ds' rs' =
    (instr d r : ℕ) × Coded name instr d r
    × (d < 8)
    × (r < 8)
    × ((a b tors : Cell)
        → Top ds a
        → Next ds b
        → Top rs tors
        → (effect d (value_of instr a b tors) ds ≡ some ds')
          × (effect r (value_of instr a b tors) rs ≡ some rs'))

-- The words that only move items.
pub Does-Effects :
    {name : String} {ds rs ds' rs' : List ℕ}
    → AreWords ds
    → AreWords rs
    → Meanings.Does rs name ds ds' rs'
    → Effects name ds rs ds' rs'
unfolding decode word_of initial_words from_entries held_at put
Does-Effects h k Meanings.nop =
    (0x0000, 0, 0, (refl, refl), omega arith, omega arith, λ a b tors t n u. (refl, refl))
Does-Effects h k Meanings.debug =
    (0x00F0, 0, 0, (refl, refl), omega arith, omega arith, λ a b tors t n u. (refl, refl))
Does-Effects h k Meanings.drop_word =
    (0x0100, 1, 0, (refl, refl), omega arith, omega arith, λ a b tors t n u. (refl, refl))
Does-Effects h k Meanings.swap =
    (0x0400, 4, 0, (refl, refl), omega arith, omega arith, λ a b tors t n u. (refl, refl))
Does-Effects h k Meanings.rot =
    (0x0500, 5, 0, (refl, refl), omega arith, omega arith, λ a b tors t n u. (refl, refl))
Does-Effects h k Meanings.minus_rot =
    (0x0600, 6, 0, (refl, refl), omega arith, omega arith, λ a b tors t n u. (refl, refl))
Does-Effects h k (Meanings.dup {a} {ds}) = (
  0x0200,
  2,
  0,
  (refl, refl),
  omega arith,
  omega arith,
  λ c b tors t n u. (ap (λ v. some (v ∷ a ∷ ds)) (rw t (pass_lem a (some a) h.0)), refl),
)
Does-Effects h k (Meanings.over {a} {b} {ds}) = (
  0x0240,
  2,
  0,
  (refl, refl),
  omega arith,
  omega arith,
  λ c d tors t n u. (ap (λ v. some (v ∷ b ∷ a ∷ ds)) (rw n (pass_lem a c h.1.0)), refl),
)
Does-Effects {rs = rs} h k (Meanings.to_r {a}) = (
  0x2100,
  1,
  2,
  (refl, refl),
  omega arith,
  omega arith,
  λ c b tors t n u. (refl, ap (λ v. some (v ∷ rs)) (rw t (pass_lem a (some a) h.0))),
)
Does-Effects h k (Meanings.pushes {ds = ds} word) =
    let (instr, coded, computed) = Pushes-Coded word in
    (
      instr,
      2,
      0,
      coded,
      omega arith,
      omega arith,
      λ a b tors t n u. (ap (λ v. some (v ∷ ds)) (computed a b tors), refl),
    )
Does-Effects h k (Meanings.maps {a = a} {ds = ds} word) =
    let (instr, coded, computed) = Maps-Coded h.0 word in
    (
      instr,
      3,
      0,
      coded,
      omega arith,
      omega arith,
      λ c b tors t n u. (ap (λ v. some (v ∷ ds)) (rw t (computed b tors)), refl),
    )
Does-Effects h k (Meanings.joins {ds = ds} word) =
    let (instr, coded, computed) = Joins-Coded h.1.0 h.0 word in
    (
      instr,
      7,
      0,
      coded,
      omega arith,
      omega arith,
      λ c d tors t n u. (ap (λ v. some (v ∷ ds)) (rw (t, n) (computed tors)), refl),
    )
Does-Effects h k (Meanings.r_fetch {a} {ds} {rest} e) = (
  0x0280,
  2,
  0,
  (refl, refl),
  omega arith,
  omega arith,
  λ c d tors t n u. (
    ap (λ v. some (v ∷ ds))
        (rw (subst (λ r. Top r tors) e u) (pass_lem a c (subst AreWords e k).0)),
    refl,
  ),
)
Does-Effects h k (Meanings.r_from {a} {ds} {rest} e) = (
  0x1280,
  2,
  1,
  (refl, refl),
  omega arith,
  omega arith,
  λ c d tors t n u. (
    ap (λ v. some (v ∷ ds))
        (rw (subst (λ r. Top r tors) e u) (pass_lem a c (subst AreWords e k).0)),
    rw e refl,
  ),
)
Does-Effects h k (Meanings.r_drop e) =
    (0x1000, 0, 1, (refl, refl), omega arith, omega arith, λ c d tors t n u. (refl, rw e refl))
