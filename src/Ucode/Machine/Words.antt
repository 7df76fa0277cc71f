-- ===== src/Ucode/Machine/Words.antt =====
-- Stacks of the uCode machine that hold words of 16 bits, and the reads and effects that keep them so.
use u_fork.Prelude.{
  if_both, ℕ, zero, suc, ◌^◌, ◌<◌, ◌≡◌, refl, none, some, List, [], ◌∷◌, ◌++◌, length, get_or, set,
  drop, replicate, ◌==◌, bit_and, arith,
}
use u_fork.Prelude.Masks.{and_ones}
use u_fork.Ucode.Stack.{
  Cell, Stack, last_cell, all_but_last, effect_cells, perform, reset, tos, nos, make_stack,
}
use u_fork.Ucode.Stack.Refinement.{length-effect_cells}

-- A word of 16 bits, if it is defined.
abbrev pub IsWord : Cell → Type 0
IsWord none = Unit {0}
IsWord (some n) = n < 2 ^ 16

abbrev pub AllWords : List Cell → Type 0
AllWords [] = Unit {0}
AllWords (c ∷ cs) = IsWord c × AllWords cs

-- A stack of the machine: twelve cells, each of them a word or undefined.
pub record IsWordStack (s : Stack) : Type 0 where
  pub depth : length s.cells ≡ 12
  pub words : AllWords s.cells

AllWords-append : (xs ys : List Cell) → AllWords xs → AllWords ys → AllWords (xs ++ ys)
AllWords-append [] ys h k = k
AllWords-append (x ∷ xs) ys h k = (h.0, AllWords-append xs ys h.1 k)

AllWords-last_cell : (xs : List Cell) → AllWords xs → AllWords (last_cell xs)
AllWords-last_cell [] h = tt
AllWords-last_cell (c ∷ []) h = h
AllWords-last_cell (c ∷ d ∷ cs) h = AllWords-last_cell (d ∷ cs) h.1

AllWords-all_but_last : (xs : List Cell) → AllWords xs → AllWords (all_but_last xs)
AllWords-all_but_last [] h = tt
AllWords-all_but_last (c ∷ []) h = tt
AllWords-all_but_last (c ∷ d ∷ cs) h = (h.0, AllWords-all_but_last (d ∷ cs) h.1)

AllWords-drop : (n : ℕ) (xs : List Cell) → AllWords xs → AllWords (drop n xs)
AllWords-drop zero xs h = h
AllWords-drop (suc n) [] h = tt
AllWords-drop (suc n) (x ∷ xs) h = AllWords-drop n xs h.1

AllWords-set : (xs : List Cell) (i : ℕ) (c : Cell) → AllWords xs → IsWord c → AllWords (set xs i c)
AllWords-set [] i c h k = tt
AllWords-set (x ∷ xs) zero c h k = (k, h.1)
AllWords-set (x ∷ xs) (suc i) c h k = (h.0, AllWords-set xs i c h.1 k)

IsWord-get_or : (xs : List Cell) (i : ℕ) → AllWords xs → IsWord (get_or xs i none)
IsWord-get_or [] i h = tt
IsWord-get_or (x ∷ xs) zero h = h.0
IsWord-get_or (x ∷ xs) (suc i) h = IsWord-get_or xs i h.1

AllWords-replicate : (n : ℕ) → AllWords (replicate n none)
AllWords-replicate zero = tt
AllWords-replicate (suc n) = (tt, AllWords-replicate n)

AllWords-effect_cells :
    (se v : ℕ) (cs : List Cell) → v < 2 ^ 16 → AllWords cs → AllWords (effect_cells se v cs)
unfolding effect_cells
AllWords-effect_cells se v cs n h =
    if_both AllWords (se == 1)
      (AllWords-append (drop 1 cs) (last_cell cs) (AllWords-drop 1 cs h) (AllWords-last_cell cs h))
      (if_both AllWords (se == 2) (n, AllWords-all_but_last cs h)
        (if_both AllWords (se == 3) (AllWords-set cs 0 (some v) h n) (
          if_both AllWords (se == 4) (put _ (put _ h 0 1) 1 0) (
            if_both AllWords (se == 5) (put _ (put _ (put _ h 2 1) 1 0) 0 2) (
              if_both AllWords (se == 6) (put _ (put _ (put _ h 0 1) 1 2) 2 0) (
                if_both AllWords (se == 7)
                  (
                    n,
                    AllWords-append (drop 2 cs) (last_cell cs) (AllWords-drop 2 cs h)
                        (AllWords-last_cell cs h),
                  )
                  h))))))
  where
    put : (xs : List Cell) → AllWords xs → (i j : ℕ) → AllWords (set xs i (get_or cs j none))
    put xs hx i j = AllWords-set xs i (get_or cs j none) hx (IsWord-get_or cs j h)

module _ (s : Stack) (ok : IsWordStack s) where
  -- Every effect of a word keeps the twelve words.
  pub perform-IsWordStack : (se v : ℕ) → v < 2 ^ 16 → IsWordStack (perform se v s)
  unfolding perform
  perform-IsWordStack se v n = record {
    depth = omega (arith, ok.depth, length-effect_cells se v s.cells (omega (arith, ok.depth)));
    words = AllWords-effect_cells se v s.cells n ok.words;
  }

  pub tos-IsWord : IsWord (tos s)
  unfolding tos
  tos-IsWord = IsWord-get_or s.cells 0 ok.words

  pub nos-IsWord : IsWord (nos s)
  unfolding nos
  nos-IsWord = IsWord-get_or s.cells 1 ok.words

pub reset-IsWordStack : (s : Stack) → IsWordStack (reset 12 s)
unfolding reset
reset-IsWordStack s = record { depth = refl; words = AllWords-replicate 12 }

pub make_stack-IsWordStack : IsWordStack (make_stack 12)
unfolding make_stack
make_stack-IsWordStack = record { depth = refl; words = AllWords-replicate 12 }

pub low_bits-lt : (n : ℕ) → bit_and n 0xFFFF < 2 ^ 16
low_bits-lt n = omega (arith, and_ones 16 n)

pub address-lt : (n : ℕ) → bit_and n 0x0FFF < 2 ^ 12
address-lt n = omega (arith, and_ones 12 n)
