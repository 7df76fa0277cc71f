-- ===== src/Ucode/Compiler/Sound.antt =====
-- fpga/ucode/ucode.js: the state of `compile` between two tokens, of which every word that the
-- program gets has 16 bits, as long as the program is no longer than that, and every address that is
-- kept for a patch lies within the program.
use u_fork.Prelude.{
  ℕ, zero, suc, ◌+◌, ◌-◌, ◌%◌, ◌^◌, ◌≤◌, ◌<◌, ◌≡◌, refl, ap, ◌∙◌, List, [], ◌∷◌, ◌++◌, length,
  get_or, length-append, arith,
}
use u_fork.Ucode.Compiler.Codes.{uc_fixup}
use u_fork.Ucode.Compiler.Fields.{uc_fixup_lem}
use u_fork.Ucode.Compiler.Table.{Word, code, directive, inherited}
use u_fork.Ucode.Compiler.Lines.{IsLine}
use u_fork.Ucode.Compiler.States.{
  State, Tail, tail_none, tail_eval, tail_call, tail_data, store_at, push, without_end, top, popped,
}

-- Words of 16 bits, or below the program's length.
abbrev pub AllFits : ℕ → List ℕ → Type 0
AllFits n [] = Unit {0}
AllFits n (word ∷ prog) = (word < 2 ^ 16 + (n - 2 ^ 16)) × AllFits n prog

-- Words of 16 bits with an address in the program, its end included.
abbrev pub AllPlaced : ℕ → List ℕ → Type 0
AllPlaced n [] = Unit {0}
AllPlaced n (word ∷ ctrl) = (word % 2 ^ 12 ≤ n) × (word < 2 ^ 16) × AllPlaced n ctrl

abbrev pub IsCoded : Word → Type 0
IsCoded (code word) = word < 2 ^ 16
IsCoded (directive function) = Unit {0}
IsCoded (inherited property) = Unit {0}

-- The words fit, and no name has a line feed.
abbrev pub AllCoded : List (List ℕ × Word) → Type 0
AllCoded [] = Unit {0}
AllCoded ((name, word) ∷ entries) = IsLine name × IsCoded word × AllCoded entries

-- The words of the program that a number took: the last two may be taken back.
abbrev pub spare : Tail → ℕ
spare tail_data = 2
spare tail_none = 0
spare tail_eval = 0
spare tail_call = 0

-- A word that `;` may change is the last one.
abbrev pub EndsIn : Tail → List ℕ → Type 0
EndsIn tail_eval prog = get_or prog (length prog - 1) 0 < 2 ^ 16
EndsIn tail_call prog = get_or prog (length prog - 1) 0 < 2 ^ 16
EndsIn tail_none prog = Unit {0}
EndsIn tail_data prog = Unit {0}

pub record IsSound (s : State) : Type 0 where
  pub base : ℕ
  pub room : base + spare s.tail_ctx ≤ length s.prog
  pub prog : AllFits base s.prog
  pub ctrl : AllPlaced base s.ctrl_ctx
  pub words : AllCoded s.words
  pub last : EndsIn s.tail_ctx s.prog

pub AllFits-mono : (m n : ℕ) (prog : List ℕ) → m ≤ n → AllFits m prog → AllFits n prog
AllFits-mono m n [] le h = tt
AllFits-mono m n (word ∷ prog) le (h, k) = (omega arith, AllFits-mono m n prog le k)

pub AllPlaced-mono : (m n : ℕ) (ctrl : List ℕ) → m ≤ n → AllPlaced m ctrl → AllPlaced n ctrl
AllPlaced-mono m n [] le h = tt
AllPlaced-mono m n (word ∷ ctrl) le (h, w, k) = (omega arith, w, AllPlaced-mono m n ctrl le k)

pub AllFits-push :
    (n : ℕ) (prog : List ℕ) (word : ℕ)
    → AllFits n prog
    → word < 2 ^ 16 + (n - 2 ^ 16)
    → AllFits n (push word prog)
unfolding push
AllFits-push n [] word h k = (k, tt)
AllFits-push n (old ∷ prog) word (h, hs) k = (h, AllFits-push n prog word hs k)

pub AllFits-store_at :
    (n : ℕ) (addr word : ℕ) (prog : List ℕ)
    → AllFits n prog
    → word < 2 ^ 16 + (n - 2 ^ 16)
    → AllFits n (store_at addr word prog)
unfolding store_at
AllFits-store_at n zero word [] h k = (k, tt)
AllFits-store_at n zero word (old ∷ prog) (h, hs) k = (k, hs)
AllFits-store_at n (suc addr) word [] h k = (omega arith, AllFits-store_at n addr word [] tt k)
AllFits-store_at n (suc addr) word (old ∷ prog) (h, hs) k =
    (h, AllFits-store_at n addr word prog hs k)

pub AllFits-without_end : (n : ℕ) (prog : List ℕ) → AllFits n prog → AllFits n (without_end prog)
unfolding without_end
AllFits-without_end n [] h = tt
AllFits-without_end n (word ∷ []) h = tt
AllFits-without_end n (word ∷ next ∷ prog) (h, hs) = (h, AllFits-without_end n (next ∷ prog) hs)

pub get_or_fits :
    (n : ℕ) (prog : List ℕ) (addr : ℕ) → AllFits n prog → get_or prog addr 0 < 2 ^ 16 + (n - 2 ^ 16)
get_or_fits n [] addr h = omega arith
get_or_fits n (word ∷ prog) zero (h, hs) = h
get_or_fits n (word ∷ prog) (suc addr) (h, hs) = get_or_fits n prog addr hs

pub length-push : (word : ℕ) (prog : List ℕ) → length (push word prog) ≡ length prog + 1
unfolding push
length-push word prog = length-append prog (word ∷ [])

pub store_at_longer :
    (addr word : ℕ) (prog : List ℕ) → length prog ≤ length (store_at addr word prog)
unfolding store_at
store_at_longer zero word [] = omega arith
store_at_longer zero word (old ∷ prog) = omega arith
store_at_longer (suc addr) word [] = omega arith
store_at_longer (suc addr) word (old ∷ prog) = omega (arith, store_at_longer addr word prog)

pub length-without_end : (prog : List ℕ) → length (without_end prog) ≡ length prog - 1
unfolding without_end
length-without_end [] = omega arith
length-without_end (word ∷ []) = omega arith
length-without_end (word ∷ next ∷ prog) = omega (arith, length-without_end (next ∷ prog))

pub get_or-push :
    (word : ℕ) (prog : List ℕ) → get_or (push word prog) (length (push word prog) - 1) 0 ≡ word
unfolding push
get_or-push word prog =
    ap (λ n. get_or (prog ++ word ∷ []) n 0) (omega (arith, length-append prog (word ∷ [])))
    ∙ found prog
  where
    found : (prog : List ℕ) → get_or (prog ++ word ∷ []) (length prog) 0 ≡ word
    found [] = refl
    found (old ∷ prog) = found prog

pub popped-AllPlaced : (n : ℕ) (ctrl : List ℕ) → AllPlaced n ctrl → AllPlaced n (popped ctrl)
popped-AllPlaced n [] h = tt
popped-AllPlaced n (word ∷ ctrl) (_, _, h) = h

pub top-lt : (n : ℕ) (ctrl : List ℕ) → AllPlaced n ctrl → top ctrl < 2 ^ 16
top-lt n [] h = omega arith
top-lt n (word ∷ ctrl) (_, h, _) = h

pub uc_fixup-lt : (word addr : ℕ) → word < 2 ^ 16 → uc_fixup word addr < 2 ^ 16
uc_fixup-lt word addr h = omega (arith, uc_fixup_lem word addr h)
