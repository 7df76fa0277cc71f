-- ===== src/Ucode/Compiler/Programs.antt =====
-- fpga/ucode/ucode.js: what `compile` returns of a text, as the image that is printed of it and as
-- the program of the simulator, fpga/ucode/ucode_sim.js.
use u_fork.Prelude.{
  ℕ, zero, suc, ◌+◌, ◌^◌, ◌≤◌, ◌≡◌, refl, Bool, true, false, ◌&&◌, ltb, List, [], ◌∷◌, length,
  get_elem?, Option, none, some, arith, subst, map,
}
use u_fork.Prelude.Int.{ℤ, pos}
use u_fork.Ucode.Machine.{make_machine}
use u_fork.Ucode.Machine.Words.{IsWord}
use u_fork.Ucode.Machine.Invariant.{IsReady, make_machine-IsReady}
use u_fork.Ucode.Compiler.{Compiled, compile_tokens, initial_state, finished, compile}
use u_fork.Ucode.Compiler.Streams.{make_stream, Lexed, next_token}
use u_fork.Ucode.Compiler.Entries.{from_entries, put}
use u_fork.Ucode.Compiler.Fields.{uc_jump_lem}
use u_fork.Ucode.Compiler.Table.{Word, code, directive, inherited, initial_words}
use u_fork.Ucode.Compiler.States.{State, done, Ensures, Ensures-and_then}
use u_fork.Ucode.Compiler.Directives.{read_past}
use u_fork.Ucode.Compiler.Printer.{print_memh}
use u_fork.Ucode.Compiler.Reader.{parse_memh}
use u_fork.Ucode.Compiler.Lines.{is_line, literal, HaveLines}
use u_fork.Ucode.Compiler.Images.{AllFit, parse_memh-print_memh}
use u_fork.Ucode.Compiler.Sound.{AllFits, IsCoded, AllCoded, IsSound}
use u_fork.Ucode.Compiler.Kept.{within}
use u_fork.Ucode.Compiler.Invariant.{compile_tokens-Sound}

abbrev is_coded : Word → Bool
is_coded (code word) = ltb word (2 ^ 16)
is_coded (directive function) = true
is_coded (inherited property) = true

abbrev all_coded : List (List ℕ × Word) → Bool
all_coded [] = true
all_coded ((name, word) ∷ entries) = is_line name && (is_coded word && all_coded entries)

both : (a b : Bool) → (a && b) ≡ true → (a ≡ true) × (b ≡ true)
both true b h = (refl, h)
both false b h = absurd (cc)

coded : (word : Word) → is_coded word ≡ true → IsCoded word
coded (code word) h = ground arith
coded (directive function) h = tt
coded (inherited property) h = tt

all_coded-AllCoded : (entries : List (List ℕ × Word)) → all_coded entries ≡ true → AllCoded entries
all_coded-AllCoded [] h = tt
all_coded-AllCoded ((name, word) ∷ entries) h =
    let (line, rest) = both (is_line name) _ h in
    let (fits, others) = both (is_coded word) (all_coded entries) rest in
    (literal line, coded word fits, all_coded-AllCoded entries others)

initial_words-AllCoded : AllCoded initial_words
unfolding initial_words from_entries put
initial_words-AllCoded = all_coded-AllCoded initial_words refl

pub initial_state-IsSound :
    (text : List ℕ) (lexed : Lexed) → IsSound (read_past (initial_state text) lexed)
initial_state-IsSound text lexed = record {
  base = 1;
  room = omega arith;
  prog = (omega (arith, uc_jump_lem 0), tt);
  ctrl = tt;
  words = initial_words-AllCoded;
  last = tt;
}

-- What a program that is compiled has.
record IsFit (c : Compiled) : Type 0 where
  base : ℕ
  room : base ≤ length c.prog
  prog : AllFits base c.prog
  words : AllCoded c.words

finished-IsFit : (s : State) → IsSound s → IsFit (finished s)
unfolding finished
finished-IsFit s ok = record {
  base = ok.base;
  room = within s ok;
  prog = ok.prog;
  words = ok.words;
}

compile-IsFit :
    (number : List ℕ → Option ℤ) (text : List ℕ) (c : Compiled)
    → compile number text ≡ done c
    → IsFit c
unfolding compile
compile-IsFit number text c e =
    let lexed = next_token (make_stream text) in
    subst (Ensures (Unit {0}) IsFit) e (
      Ensures-and_then (Unit {0}) IsSound IsFit
        (compile_tokens number (length text + 2) lexed.token (read_past (initial_state text) lexed))
        _
        (compile_tokens-Sound number (length text + 2) lexed.token _
          (initial_state-IsSound text lexed))
        finished-IsFit)

AllFits-AllFit : (n : ℕ) (prog : List ℕ) → n ≤ 2 ^ 16 → AllFits n prog → AllFit prog
AllFits-AllFit n [] le h = tt
AllFits-AllFit n (word ∷ prog) le (h, k) = (omega arith, AllFits-AllFit n prog le k)

AllCoded-HaveLines : (entries : List (List ℕ × Word)) → AllCoded entries → HaveLines entries
AllCoded-HaveLines [] h = tt
AllCoded-HaveLines ((name, word) ∷ entries) (line, _, k) = (line, AllCoded-HaveLines entries k)

-- A compiled program of at most 2^16 words has only words of 16 bits.
pub compile-AllFit :
    (number : List ℕ → Option ℤ) (text : List ℕ) (c : Compiled)
    → compile number text ≡ done c
    → length c.prog ≤ 2 ^ 16
    → AllFit c.prog
compile-AllFit number text c e short =
    let fit = compile-IsFit number text c e in
    AllFits-AllFit fit.base c.prog (omega (arith, fit.room)) fit.prog

-- The image that is printed of a compiled program of at most 2^16 words, with any address marked,
-- is read back as the program.
pub compiled_image :
    (number : List ℕ → Option ℤ) (text : List ℕ) (c : Compiled) (mark_address : Option ℕ)
    → compile number text ≡ done c
    → length c.prog ≤ 2 ^ 16
    → parse_memh (print_memh c.words mark_address c.prog) ≡ some (map pos c.prog)
compiled_image number text c mark_address e short =
    parse_memh-print_memh c.words (AllCoded-HaveLines c.words (compile-IsFit number text c e).words)
      mark_address c.prog (compile-AllFit number text c e short)

AllFit-IsWord : (prog : List ℕ) (i : ℕ) → AllFit prog → IsWord (get_elem? prog i)
AllFit-IsWord [] i h = tt
AllFit-IsWord (word ∷ prog) zero (h, _) = h
AllFit-IsWord (word ∷ prog) (suc i) (_, k) = AllFit-IsWord prog i k

get_elem?_end : (prog : List ℕ) (i : ℕ) → length prog ≤ i → get_elem? prog i ≡ none
get_elem?_end [] i h = refl
get_elem?_end (word ∷ prog) zero h = absurd (omega arith)
get_elem?_end (word ∷ prog) (suc i) h = get_elem?_end prog i (omega arith)

-- The simulator that starts with a compiled program of at most 2^12 words, the size of its program
-- memory, is ready: the invariant that each of its steps keeps.
pub compiled_is_ready :
    {W : Type 0} (number : List ℕ → Option ℤ) (text : List ℕ) (c : Compiled) (world : W)
    → compile number text ≡ done c
    → length c.prog ≤ 2 ^ 12
    → IsReady (make_machine (get_elem? c.prog) world)
compiled_is_ready number text c world e short =
    make_machine-IsReady (get_elem? c.prog) world
      (λ i. AllFit-IsWord c.prog i (compile-AllFit number text c e (omega arith)))
      (λ i behind. get_elem?_end c.prog i (omega arith))
