-- ===== src/Ucode/Compiler/Kept.antt =====
-- fpga/ucode/ucode.js: the sound states of `compile`, but for `tail_ctx`, which is reset behind a compiler
-- function.
use u_fork.Prelude.{ℕ, ◌%◌, ◌^◌, ◌≤◌, ◌<◌, List, ◌∷◌, length, arith}
use u_fork.Ucode.Compiler.States.{State, push, popped, Outcome, Ensures}
use u_fork.Ucode.Compiler.Sound.{
  AllFits, AllPlaced, AllCoded, IsSound, AllFits-mono, AllPlaced-mono, AllFits-push, length-push,
  popped-AllPlaced,
}

-- A state that is sound once the compiler has reset `tail_ctx`.
pub record IsKept (t : State) : Type 0 where
  pub base : ℕ
  pub room : base ≤ length t.prog
  pub prog : AllFits base t.prog
  pub ctrl : AllPlaced base t.ctrl_ctx
  pub words : AllCoded t.words

abbrev pub Keeps : Outcome State → Type 0
Keeps = Ensures (Unit {0}) IsKept

pub kept :
    (n : ℕ) (t : State)
    → n ≤ length t.prog
    → AllFits n t.prog
    → AllPlaced n t.ctrl_ctx
    → AllCoded t.words
    → IsKept t
kept n t le fits placed coded = record {
  base = n;
  room = le;
  prog = fits;
  ctrl = placed;
  words = coded;
}

module _ (s : State) (ok : IsSound s) where
  pub within : ok.base ≤ length s.prog
  within = omega (arith, ok.room)

  pub fits : (n : ℕ) → length s.prog ≤ n → AllFits n s.prog
  fits n le = AllFits-mono ok.base n s.prog (omega (arith, within)) ok.prog

  pub placed : (n : ℕ) → length s.prog ≤ n → AllPlaced n s.ctrl_ctx
  placed n le = AllPlaced-mono ok.base n s.ctrl_ctx (omega (arith, within)) ok.ctrl

  pub rest : (n : ℕ) → length s.prog ≤ n → AllPlaced n (popped s.ctrl_ctx)
  rest n le = popped-AllPlaced n s.ctrl_ctx (placed n le)

  -- One word is pushed, and the control stack has addresses up to the old end.
  pub pushed :
      (word : ℕ) (ctrl : List ℕ)
      → word < 2 ^ 16
      → AllPlaced (length s.prog) ctrl
      → IsKept (record s { prog = push word s.prog; ctrl_ctx = ctrl })
  pushed word ctrl h k =
      kept (length s.prog) _ (omega (arith, length-push word s.prog))
        (AllFits-push (length s.prog) s.prog word (fits (length s.prog) (omega arith))
          (omega arith))
        k ok.words

  pub here :
      (word : ℕ)
      → (word % 2 ^ 12 ≤ length s.prog)
      → word < 2 ^ 16
      → AllPlaced (length s.prog) (word ∷ popped s.ctrl_ctx)
  here word h k = (h, k, rest (length s.prog) (omega arith))
