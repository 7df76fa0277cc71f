-- ===== src/Ucode/Stack.antt =====
-- fpga/ucode/ucode_sim.js: make_stack, a stack of bounded depth. A cell that was never written is
-- `undefined`, which is `none` here.
pub mod Refinement
use u_fork.Prelude.{
  ℕ, zero, suc, ◌==◌, if◌then◌else◌, ◌&&◌, List, [], ◌∷◌, ◌++◌, Option, none, some, get_or, set,
  drop, replicate,
}
use u_fork.Prelude.Int.{ℤ, pos, negsuc, ◌+ℤ◌, ltb_ℤ}

abbrev pub Cell : Type 0
Cell = Option ℕ

-- The stack effects; 0 has none.
abbrev pub se_drop : ℕ
se_drop = 1

abbrev pub se_push : ℕ
se_push = 2

abbrev pub se_rplc : ℕ
se_rplc = 3

abbrev pub se_swap : ℕ
se_swap = 4

abbrev pub se_rot3 : ℕ
se_rot3 = 5

abbrev pub se_rrot : ℕ
se_rrot = 6

abbrev pub se_alu2 : ℕ
se_alu2 = 7

-- The array of the cells, the top first, and the statistics of its use.
pub record Stack : Type 0 where
  pub cells : List Cell
  pub min : ℤ
  pub cnt : ℤ
  pub max : ℤ

unfoldable pub make_stack : ℕ → Stack
make_stack depth = record { cells = replicate depth none; min = pos 0; cnt = pos 0; max = pos 0 }

-- `slice(-1)` and `slice(0, -1)`
abbrev pub last_cell : List Cell → List Cell
last_cell [] = []
last_cell (c ∷ []) = c ∷ []
last_cell (c ∷ d ∷ cs) = last_cell (d ∷ cs)

abbrev pub all_but_last : List Cell → List Cell
all_but_last [] = []
all_but_last (c ∷ []) = []
all_but_last (c ∷ d ∷ cs) = c ∷ all_but_last (d ∷ cs)

unfoldable pub adjust : ℤ → Stack → Stack
unfolding ◌+ℤ◌
adjust delta s =
    let cnt = if ltb_ℤ s.cnt (pos 0) && ltb_ℤ (pos 0) delta then delta else s.cnt +ℤ delta in
    record s {
      cnt = cnt;
      min = if ltb_ℤ cnt s.min then cnt else s.min;
      max = if ltb_ℤ s.max cnt then cnt else s.max;
    }

unfoldable pub reset : ℕ → Stack → Stack
reset depth s = record s { cells = replicate depth none; cnt = pos 0 }

unfoldable pub tos : Stack → Cell
tos s = get_or s.cells 0 none

unfoldable pub nos : Stack → Cell
nos s = get_or s.cells 1 none

-- The array after a stack effect. An array has the depth of its stack, which is more than 2.
unfoldable pub effect_cells : ℕ → ℕ → List Cell → List Cell
effect_cells se value cells =
    if se == se_drop
    then drop 1 cells ++ last_cell cells
    else if se == se_push
    then some value ∷ all_but_last cells
    else if se == se_rplc
    then set cells 0 (some value)
    else if se == se_swap
    then set (set cells 0 (get_or cells 1 none)) 1 (get_or cells 0 none)
    else if se == se_rot3
    then set (set (set cells 2 (get_or cells 1 none)) 1 (get_or cells 0 none)) 0
        (get_or cells 2 none)
    else if se == se_rrot
    then set (set (set cells 0 (get_or cells 1 none)) 1 (get_or cells 2 none)) 2
        (get_or cells 0 none)
    else if se == se_alu2
    then some value ∷ (drop 2 cells ++ last_cell cells)
    else cells

-- How an effect changes the number of items.
unfoldable pub effect_stats : ℕ → Stack → Stack
unfolding adjust
effect_stats se s =
    if se == se_drop
    then adjust (negsuc 0) s
    else if se == se_push
    then adjust (pos 1) s
    else if se == se_alu2
    then adjust (negsuc 0) s
    else s

unfoldable pub perform : ℕ → ℕ → Stack → Stack
unfolding effect_cells effect_stats
perform se value s = record (effect_stats se s) { cells = effect_cells se value s.cells }
