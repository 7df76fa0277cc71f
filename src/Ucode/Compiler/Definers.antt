-- ===== src/Ucode/Compiler/Definers.antt =====
-- fpga/ucode/ucode.js: the compiler functions that define words and data, and `;`, keep the state of
-- `compile` sound.
use u_fork.Prelude.{
  ℕ, ◌+◌, ◌-◌, ◌^◌, ◌≤◌, ◌<◌, ◌≡◌, if_both, List, [], ◌∷◌, length, get_or, Option, none, some,
  arith, bit_and, bit_or, subst,
}
use u_fork.Prelude.Masks.{bit_and-le, bit_or-lt}
use u_fork.Ufork.Raw.{bit_not}
use u_fork.Ucode.Compiler.Streams.{next_token}
use u_fork.Ucode.Compiler.Codes.{uc_call, uc_exit, uc_const}
use u_fork.Ucode.Compiler.Fields.{uc_call_lem}
use u_fork.Ucode.Compiler.Entries.{put, is_before, index_of}
use u_fork.Ucode.Compiler.Table.{Word, code, word_of}
use u_fork.Ucode.Compiler.States.{
  State, Tail, tail_none, tail_eval, tail_call, tail_data, store_at, push, some_auto, if_data_cases,
  Outcome, failed, error, redefined_word,
}
use u_fork.Ucode.Compiler.Directives.{
  read_past, unless_defined, define_entry, allocate_data, define_constant, define_variable,
  with_exit, end_procedure,
}
use u_fork.Ucode.Compiler.Sound.{
  AllFits, AllCoded, spare, EndsIn, IsSound, AllFits-push, AllFits-store_at, AllFits-without_end,
  get_or_fits, length-push, store_at_longer, length-without_end,
}
use u_fork.Ucode.Compiler.Lines.{IsLine}
use u_fork.Ucode.Compiler.Tokens.{next_token-IsLine}
use u_fork.Ucode.Compiler.Kept.{Keeps, kept, fits, placed}

put-AllCoded :
    (name : List ℕ) (word : ℕ) (entries : List (List ℕ × Word))
    → IsLine name
    → word < 2 ^ 16
    → AllCoded entries
    → AllCoded (put name (code word) entries)
unfolding put
put-AllCoded name word [] line h k = (line, h, tt)
put-AllCoded name word ((key, held) ∷ entries) line h (l, c, k) =
    if_both AllCoded (is_before (index_of name) (index_of key)) (line, h, (l, c, k))
      (l, c, put-AllCoded name word entries line h k)

unless_defined-Keeps :
    (name : List ℕ) (s : State) (o : Outcome State) → Keeps o → Keeps (unless_defined name s o)
unless_defined-Keeps name s o h = go (word_of name s.words)
  where
    go :
        (w : Option Word)
        → Keeps (elim w [ some word ↦ failed (error s.stream (redefined_word name)) | none ↦ o ])
    go (some word) = tt
    go none = h

module _ (s : State) (ok : IsSound s) where
  pub define_entry-Keeps : Keeps (define_entry s)
  unfolding define_entry
  define_entry-Keeps =
      let lexed = next_token s.stream in
      let word = uc_call (length s.prog) in
      let small : word < 2 ^ 16 = omega (arith, uc_call_lem (length s.prog)) in
      unless_defined-Keeps lexed.token (read_past s lexed) _ (
        kept (length s.prog) _ (store_at_longer 0 word s.prog)
          (AllFits-store_at (length s.prog) 0 word s.prog (fits s ok (length s.prog) (omega arith))
            (omega arith))
          (placed s ok (length s.prog) (omega arith))
          (put-AllCoded lexed.token word s.words (next_token-IsLine s.stream) small ok.words))

  pub allocate_data-Keeps : Keeps (allocate_data s)
  unfolding allocate_data
  allocate_data-Keeps =
      if_data_cases Keeps s.tail_ctx _ _
        (λ e.
          let room : ok.base + 2 ≤ length s.prog =
            subst (λ tail. ok.base + spare tail ≤ length s.prog) e ok.room in
          let addr = length s.prog - 2 in
          let word = get_or s.prog (addr + 1) 0 in
          let copied = store_at addr word s.prog in
          kept ok.base _
            (omega (arith, room, store_at_longer addr word s.prog, length-without_end copied))
            (AllFits-without_end ok.base copied (
              AllFits-store_at ok.base addr word s.prog ok.prog
                (get_or_fits ok.base s.prog (addr + 1) ok.prog)))
            ok.ctrl ok.words)
        tt

  pub define_constant-Keeps : Keeps (define_constant s)
  unfolding define_constant
  define_constant-Keeps =
      let lexed = next_token s.stream in
      let addr = length s.prog - 2 in
      let word = uc_call addr in
      let small : word < 2 ^ 16 = omega (arith, uc_call_lem addr) in
      unless_defined-Keeps lexed.token (read_past s lexed) _ (
        if_data_cases Keeps s.tail_ctx _ _
          (λ _.
            kept (length s.prog) _ (store_at_longer addr uc_const s.prog)
              (AllFits-store_at (length s.prog) addr uc_const s.prog
                (fits s ok (length s.prog) (omega arith)) (omega arith))
              (placed s ok (length s.prog) (omega arith))
              (put-AllCoded lexed.token word s.words (next_token-IsLine s.stream) small ok.words))
          tt)

  pub define_variable-Keeps : Keeps (define_variable s)
  unfolding define_variable
  define_variable-Keeps =
      let lexed = next_token s.stream in
      let word = uc_call (length s.prog) in
      let small : word < 2 ^ 16 = omega (arith, uc_call_lem (length s.prog)) in
      let one = push uc_const s.prog in
      let two = push (length one + 1) one in
      let n = length (push 0 two) in
      let grown : n ≡ length one + 2 =
        omega (arith, length-push 0 two, length-push (length one + 1) one) in
      let longer : length s.prog ≤ n = omega (arith, grown, length-push uc_const s.prog) in
      unless_defined-Keeps lexed.token (read_past s lexed) _ (
        kept n _ (omega arith)
          (AllFits-push n two 0
            (AllFits-push n one (length one + 1)
              (AllFits-push n s.prog uc_const (fits s ok n longer) (omega arith))
              (omega (arith, grown)))
            (omega arith))
          (placed s ok n longer)
          (put-AllCoded lexed.token word s.words (next_token-IsLine s.stream) small ok.words))

  -- What `;` makes of the last word still has 16 bits.
  with_exit-AllFits :
      (n : ℕ) (tail : Tail) (prog : List ℕ)
      → AllFits n prog
      → EndsIn tail prog
      → AllFits n (with_exit tail prog)
  unfolding with_exit
  with_exit-AllFits n tail_none prog h e = AllFits-push n prog uc_exit h (omega arith)
  with_exit-AllFits n tail_data prog h e = AllFits-push n prog uc_exit h (omega arith)
  with_exit-AllFits n tail_eval prog h e =
      let last = get_or prog (length prog - 1) 0 in
      AllFits-store_at n (length prog - 1) (bit_or last uc_exit) prog h
        (omega (arith, bit_or-lt 16 last uc_exit e (omega arith)))
  with_exit-AllFits n tail_call prog h e =
      let last = get_or prog (length prog - 1) 0 in
      AllFits-store_at n (length prog - 1) (bit_and last (bit_not 0x4000)) prog h
        (omega (arith, e, bit_and-le last (bit_not 0x4000)))

  with_exit_longer : (tail : Tail) (prog : List ℕ) → length prog ≤ length (with_exit tail prog)
  unfolding with_exit
  with_exit_longer tail_none prog = omega (arith, length-push uc_exit prog)
  with_exit_longer tail_data prog = omega (arith, length-push uc_exit prog)
  with_exit_longer tail_eval prog = store_at_longer (length prog - 1) _ prog
  with_exit_longer tail_call prog = store_at_longer (length prog - 1) _ prog

  pub end_procedure-Keeps : Keeps (end_procedure s)
  unfolding end_procedure
  end_procedure-Keeps = if_both Keeps (some_auto s.ctrl_ctx) tt (
      kept (length s.prog) _ (with_exit_longer s.tail_ctx s.prog)
        (with_exit-AllFits (length s.prog) s.tail_ctx s.prog
          (fits s ok (length s.prog) (omega arith)) ok.last)
        (placed s ok (length s.prog) (omega arith)) ok.words)
