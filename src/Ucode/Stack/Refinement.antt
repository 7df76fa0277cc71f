-- ===== src/Ucode/Stack/Refinement.antt =====
-- The bounded stack of the simulator is a stack of numbers, as long as its depth is enough.
use u_fork.Prelude.{
  ℕ, zero, suc, ◌+◌, ◌≤◌, ◌<◌, ◌≡◌, refl, List, [], ◌∷◌, ◌++◌, Option, none, some, length,
  length-append, get_or, arith,
}
use u_fork.Prelude.Int.{ℤ, pos}
use u_fork.Ucode.Stack.{
  Cell, Stack, last_cell, all_but_last, effect_cells, effect_stats, perform, tos, nos,
}

-- What the effects do to an unbounded stack; `none` where it holds too few items.
abbrev pub effect : ℕ → ℕ → List ℕ → Option (List ℕ)
effect zero v xs = some xs
effect (suc zero) v (a ∷ xs) = some xs
effect (suc (suc zero)) v xs = some (v ∷ xs)
effect (suc (suc (suc zero))) v (a ∷ xs) = some (v ∷ xs)
effect (suc (suc (suc (suc zero)))) v (a ∷ b ∷ xs) = some (b ∷ a ∷ xs)
effect (suc (suc (suc (suc (suc zero))))) v (a ∷ b ∷ c ∷ xs) = some (c ∷ a ∷ b ∷ xs)
effect (suc (suc (suc (suc (suc (suc zero)))))) v (a ∷ b ∷ c ∷ xs) = some (b ∷ c ∷ a ∷ xs)
effect (suc (suc (suc (suc (suc (suc (suc zero))))))) v (a ∷ b ∷ xs) = some (v ∷ xs)
effect se v xs = none

-- The items stand at the front of the array, the top first.
abbrev pub Holds : List Cell → List ℕ → Type 0
Holds cells [] = Unit {0}
Holds [] (x ∷ xs) = ⊥
Holds (c ∷ cells) (x ∷ xs) = (c ≡ some x) × Holds cells xs

length-last_cell : (c : Cell) (cs : List Cell) → length (last_cell (c ∷ cs)) ≡ 1
length-last_cell c [] = refl
length-last_cell c (d ∷ cs) = length-last_cell d cs

length-all_but_last : (c : Cell) (cs : List Cell) → length (all_but_last (c ∷ cs)) ≡ length cs
length-all_but_last c [] = refl
length-all_but_last c (d ∷ cs) = omega (arith, length-all_but_last d cs)

-- No effect changes the depth of the array.
pub length-effect_cells :
    (se v : ℕ) (cells : List Cell)
    → 2 < length cells
    → length (effect_cells se v cells) ≡ length cells
unfolding effect_cells
length-effect_cells se v [] h = elim h [ ]
length-effect_cells se v (a ∷ []) h = absurd (omega arith)
length-effect_cells se v (a ∷ b ∷ []) h = absurd (omega arith)
length-effect_cells se v (a ∷ b ∷ c ∷ cs) h = ground (
  arith,
  length-append (b ∷ c ∷ cs) (last_cell (a ∷ b ∷ c ∷ cs)),
  length-append (c ∷ cs) (last_cell (a ∷ b ∷ c ∷ cs)),
  length-last_cell a (b ∷ c ∷ cs),
  length-all_but_last a (b ∷ c ∷ cs),
)

Holds-append : (cells more : List Cell) (xs : List ℕ) → Holds cells xs → Holds (cells ++ more) xs
Holds-append cells more [] h = tt
Holds-append [] more (x ∷ xs) h = absurd h
Holds-append (c ∷ cells) more (x ∷ xs) h = (h.0, Holds-append cells more xs h.1)

Holds-all_but_last :
    (c : Cell) (cells : List Cell) (xs : List ℕ)
    → Holds (c ∷ cells) xs
    → length xs ≤ length cells
    → Holds (all_but_last (c ∷ cells)) xs
Holds-all_but_last c cells [] h k = tt
Holds-all_but_last c [] (x ∷ xs) h k = absurd (omega arith)
Holds-all_but_last c (d ∷ cells) (x ∷ xs) h k =
    (h.0, Holds-all_but_last d cells xs h.1 (omega arith))

-- What the array holds after an effect with a result that fits it.
abbrev Kept : List Cell → ℕ → Option (List ℕ) → Type 0
Kept cells depth none = Unit {0}
Kept cells depth (some ys) = length ys ≤ depth → Holds cells ys

-- One lemma for each effect, on an array of three cells and more.
module _ (v : ℕ) (a b c : Cell) (cs : List Cell) where
  drop-Kept :
      (xs : List ℕ)
      → Holds (a ∷ b ∷ c ∷ cs) xs
      → Kept (effect_cells 1 v (a ∷ b ∷ c ∷ cs)) (3 + length cs) (effect 1 v xs)
  unfolding effect_cells
  drop-Kept [] h = tt
  drop-Kept (x ∷ xs) h = λ _. Holds-append (b ∷ c ∷ cs) _ xs h.1

  push-Kept :
      (xs : List ℕ)
      → Holds (a ∷ b ∷ c ∷ cs) xs
      → Kept (effect_cells 2 v (a ∷ b ∷ c ∷ cs)) (3 + length cs) (effect 2 v xs)
  unfolding effect_cells
  push-Kept xs h = λ k. (refl, Holds-all_but_last a (b ∷ c ∷ cs) xs h (omega arith))

  rplc-Kept :
      (xs : List ℕ)
      → Holds (a ∷ b ∷ c ∷ cs) xs
      → Kept (effect_cells 3 v (a ∷ b ∷ c ∷ cs)) (3 + length cs) (effect 3 v xs)
  unfolding effect_cells
  rplc-Kept [] h = tt
  rplc-Kept (x ∷ xs) h = λ _. (refl, h.1)

  swap-Kept :
      (xs : List ℕ)
      → Holds (a ∷ b ∷ c ∷ cs) xs
      → Kept (effect_cells 4 v (a ∷ b ∷ c ∷ cs)) (3 + length cs) (effect 4 v xs)
  unfolding effect_cells
  swap-Kept [] h = tt
  swap-Kept (x ∷ []) h = tt
  swap-Kept (x ∷ y ∷ xs) h = λ _. (h.1.0, (h.0, h.1.1))

  rot3-Kept :
      (xs : List ℕ)
      → Holds (a ∷ b ∷ c ∷ cs) xs
      → Kept (effect_cells 5 v (a ∷ b ∷ c ∷ cs)) (3 + length cs) (effect 5 v xs)
  unfolding effect_cells
  rot3-Kept [] h = tt
  rot3-Kept (x ∷ []) h = tt
  rot3-Kept (x ∷ y ∷ []) h = tt
  rot3-Kept (x ∷ y ∷ z ∷ xs) h = λ _. (h.1.1.0, (h.0, (h.1.0, h.1.1.1)))

  rrot-Kept :
      (xs : List ℕ)
      → Holds (a ∷ b ∷ c ∷ cs) xs
      → Kept (effect_cells 6 v (a ∷ b ∷ c ∷ cs)) (3 + length cs) (effect 6 v xs)
  unfolding effect_cells
  rrot-Kept [] h = tt
  rrot-Kept (x ∷ []) h = tt
  rrot-Kept (x ∷ y ∷ []) h = tt
  rrot-Kept (x ∷ y ∷ z ∷ xs) h = λ _. (h.1.0, (h.1.1.0, (h.0, h.1.1.1)))

  alu2-Kept :
      (xs : List ℕ)
      → Holds (a ∷ b ∷ c ∷ cs) xs
      → Kept (effect_cells 7 v (a ∷ b ∷ c ∷ cs)) (3 + length cs) (effect 7 v xs)
  unfolding effect_cells
  alu2-Kept [] h = tt
  alu2-Kept (x ∷ []) h = tt
  alu2-Kept (x ∷ y ∷ xs) h = λ _. (refl, Holds-append (c ∷ cs) _ xs h.1.1)

effect-Kept :
    (se v : ℕ) (a b c : Cell) (cs : List Cell) (xs : List ℕ)
    → se < 8
    → Holds (a ∷ b ∷ c ∷ cs) xs
    → Kept (effect_cells se v (a ∷ b ∷ c ∷ cs)) (3 + length cs) (effect se v xs)
effect-Kept zero v a b c cs xs n h = λ _. unfold effect_cells in h
effect-Kept (suc zero) v a b c cs xs n h = drop-Kept v a b c cs xs h
effect-Kept (suc (suc zero)) v a b c cs xs n h = push-Kept v a b c cs xs h
effect-Kept (suc (suc (suc zero))) v a b c cs xs n h = rplc-Kept v a b c cs xs h
effect-Kept (suc (suc (suc (suc zero)))) v a b c cs xs n h = swap-Kept v a b c cs xs h
effect-Kept (suc (suc (suc (suc (suc zero))))) v a b c cs xs n h = rot3-Kept v a b c cs xs h
effect-Kept (suc (suc (suc (suc (suc (suc zero)))))) v a b c cs xs n h = rrot-Kept v a b c cs xs h
effect-Kept (suc (suc (suc (suc (suc (suc (suc zero))))))) v a b c cs xs n h =
    alu2-Kept v a b c cs xs h
effect-Kept (suc (suc (suc (suc (suc (suc (suc (suc se)))))))) v a b c cs xs n h =
    absurd (omega arith)

-- The number of items is counted.
abbrev Counted : ℤ → Option (List ℕ) → Type 0
Counted cnt none = Unit {0}
Counted cnt (some ys) = cnt ≡ pos (length ys)

effect-Counted :
    (se v : ℕ) (s : Stack) (xs : List ℕ)
    → se < 8
    → s.cnt ≡ pos (length xs)
    → Counted (effect_stats se s).cnt (effect se v xs)
unfolding effect_stats
effect-Counted zero v s xs n h = h
effect-Counted (suc zero) v s [] n h = tt
effect-Counted (suc zero) v s (x ∷ xs) n h = ground arith
effect-Counted (suc (suc zero)) v s xs n h = ground arith
effect-Counted (suc (suc (suc zero))) v s [] n h = tt
effect-Counted (suc (suc (suc zero))) v s (x ∷ xs) n h = ground arith
effect-Counted (suc (suc (suc (suc zero)))) v s [] n h = tt
effect-Counted (suc (suc (suc (suc zero)))) v s (x ∷ []) n h = tt
effect-Counted (suc (suc (suc (suc zero)))) v s (x ∷ y ∷ xs) n h = ground arith
effect-Counted (suc (suc (suc (suc (suc zero))))) v s [] n h = tt
effect-Counted (suc (suc (suc (suc (suc zero))))) v s (x ∷ []) n h = tt
effect-Counted (suc (suc (suc (suc (suc zero))))) v s (x ∷ y ∷ []) n h = tt
effect-Counted (suc (suc (suc (suc (suc zero))))) v s (x ∷ y ∷ z ∷ xs) n h = ground arith
effect-Counted (suc (suc (suc (suc (suc (suc zero)))))) v s [] n h = tt
effect-Counted (suc (suc (suc (suc (suc (suc zero)))))) v s (x ∷ []) n h = tt
effect-Counted (suc (suc (suc (suc (suc (suc zero)))))) v s (x ∷ y ∷ []) n h = tt
effect-Counted (suc (suc (suc (suc (suc (suc zero)))))) v s (x ∷ y ∷ z ∷ xs) n h = ground arith
effect-Counted (suc (suc (suc (suc (suc (suc (suc zero))))))) v s [] n h = tt
effect-Counted (suc (suc (suc (suc (suc (suc (suc zero))))))) v s (x ∷ []) n h = tt
effect-Counted (suc (suc (suc (suc (suc (suc (suc zero))))))) v s (x ∷ y ∷ xs) n h = ground arith
effect-Counted (suc (suc (suc (suc (suc (suc (suc (suc se)))))))) v s xs n h = absurd (omega arith)

-- While the items fit its depth, a bounded stack does what an unbounded stack of numbers does: an
-- effect that the latter allows leaves its items at the front of the array, keeps the depth, and
-- counts the items.
pub perform_refines :
    (se v : ℕ) (s : Stack) (xs ys : List ℕ)
    → se < 8
    → 2 < length s.cells
    → Holds s.cells xs
    → s.cnt ≡ pos (length xs)
    → effect se v xs ≡ some ys
    → length ys ≤ length s.cells
    → Holds (perform se v s).cells ys
      × ((perform se v s).cnt ≡ pos (length ys))
      × (length (perform se v s).cells ≡ length s.cells)
unfolding perform
perform_refines se v s xs ys n d h c e k =
    (kept s.cells d h k, rw e at (effect-Counted se v s xs n c), length-effect_cells se v s.cells d)
  where
    kept :
        (cells : List Cell)
        → 2 < length cells
        → Holds cells xs
        → length ys ≤ length cells
        → Holds (effect_cells se v cells) ys
    kept [] d h k = elim d [ ]
    kept (a ∷ []) d h k = absurd (omega arith)
    kept (a ∷ b ∷ []) d h k = absurd (omega arith)
    kept (a ∷ b ∷ c ∷ cs) d h k = (rw e at (effect-Kept se v a b c cs xs n h)) (omega arith)

-- What the machine reads of a stack that holds items: the top one and the next one.
pub tos-nos :
    (s : Stack) (x y : ℕ) (xs : List ℕ)
    → Holds s.cells (x ∷ y ∷ xs)
    → (tos s ≡ some x) × (nos s ≡ some y)
unfolding tos nos
tos-nos s x y xs h = peek s.cells h
  where
    peek :
        (cells : List Cell)
        → Holds cells (x ∷ y ∷ xs)
        → (get_or cells 0 none ≡ some x) × (get_or cells 1 none ≡ some y)
    peek [] h = absurd h
    peek (a ∷ []) h = absurd h.1
    peek (a ∷ b ∷ cs) h = (h.0, h.1.0)
