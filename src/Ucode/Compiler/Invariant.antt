-- ===== src/Ucode/Compiler/Invariant.antt =====
-- fpga/ucode/ucode.js: every token keeps the state of `compile` sound, so a program that is
-- compiled is one of 16-bit words.
use u_fork.Prelude.{
  ℕ, zero, suc, ◌-◌, ◌^◌, ◌<◌, ◌≡◌, refl, sym, ◌==◌, if_both, List, [], ◌∷◌, length, get_or, Option,
  none, some, arith, bit_and, subst,
}
use u_fork.Prelude.Int.{ℤ}
use u_fork.Prelude.Masks.{and_ones}
use u_fork.Ufork.Raw.{to_uint32}
use u_fork.Ucode.Compiler.{
  compile_comment, tail_of, compile_code, compile_number, compile_literal, compile_entry,
  compile_word, compile_tokens,
}
use u_fork.Ucode.Compiler.Streams.{codes, same, Lexed, next_token}
use u_fork.Ucode.Compiler.Codes.{uc_lit, uc_jnz_dec, uc_jnz_inc}
use u_fork.Ucode.Compiler.Fields.{uc_jnz_dec_lem, uc_jnz_inc_lem}
use u_fork.Ucode.Compiler.Entries.{held_at}
use u_fork.Ucode.Compiler.Table.{
  Word, code, directive, inherited, truthy, falsy, throws, object, Directive, Inherited, word_of,
  object_prototype,
}
use u_fork.Ucode.Compiler.States.{
  State, Tail, tail_none, push, Outcome, done, failed, thrown, stuck, Ensures, Ensures-and_then,
  error, unknown_word,
}
use u_fork.Ucode.Compiler.Directives.{read_past, invoke}
use u_fork.Ucode.Compiler.Sound.{
  IsCoded, AllCoded, spare, EndsIn, IsSound, AllFits-push, length-push, get_or-push,
}
use u_fork.Ucode.Compiler.Kept.{IsKept, Keeps, fits, placed}
use u_fork.Ucode.Compiler.Definers.{
  define_entry-Keeps, allocate_data-Keeps, define_constant-Keeps, define_variable-Keeps,
  end_procedure-Keeps,
}
use u_fork.Ucode.Compiler.Control.{
  skip_if_zero-Keeps, begin_loop-Keeps, end_until-Keeps, while_test-Keeps, end_repeat-Keeps,
  counted_loop-Keeps, loop_index-Keeps, end_again-Keeps, begin_if-Keeps, begin_else-Keeps,
  end_then-Keeps,
}

abbrev Sound : Outcome State → Type 0
Sound = Ensures (Unit {0}) IsSound

kept_after_reset : (t : State) → IsKept t → IsSound (record t { tail_ctx = tail_none })
kept_after_reset t k = record {
  base = k.base;
  room = omega (arith, k.room);
  prog = k.prog;
  ctrl = k.ctrl;
  words = k.words;
  last = tt;
}

-- Of a word that is found.
abbrev FoundCoded : Option Word → Type 0
FoundCoded none = Unit {0}
FoundCoded (some word) = IsCoded word

held_at-FoundCoded :
    (token : List ℕ) (entries : List (List ℕ × Word))
    → AllCoded entries
    → FoundCoded (held_at token entries)
unfolding held_at
held_at-FoundCoded token [] h = tt
held_at-FoundCoded token ((key, held) ∷ entries) (_, c, k) =
    if_both FoundCoded (same token key) c (held_at-FoundCoded token entries k)

word_of-FoundCoded :
    (token : List ℕ) (entries : List (List ℕ × Word))
    → AllCoded entries
    → FoundCoded (word_of token entries)
unfolding word_of
word_of-FoundCoded token entries h =
    own (held_at token entries) (held_at token object_prototype)
      (held_at-FoundCoded token entries h)
  where
    own :
        (o : Option Word) (p : Option Inherited)
        → FoundCoded o
        → FoundCoded (elim o [
          | some word ↦ some word
          | none ↦ elim p [ none ↦ none | some property ↦ some (inherited property) ]
        ])
    own (some word) p h = h
    own none none h = tt
    own none (some property) h = tt

compile_number-IsSound : (num : ℤ) (s : State) → IsSound s → IsSound (compile_number num s)
unfolding compile_number
compile_number-IsSound num s ok =
    let n = length s.prog in
    let word = bit_and (to_uint32 num) 0xFFFF in
    let lit = push uc_lit s.prog in
    let small : word < 2 ^ 16 = omega (arith, and_ones 16 (to_uint32 num)) in
    record {
      base = n;
      room = omega (arith, length-push word lit, length-push uc_lit s.prog);
      prog =
          AllFits-push n lit word
            (AllFits-push n s.prog uc_lit (fits s ok n (omega arith)) (omega arith))
            (omega (arith, small));
      ctrl = placed s ok n (omega arith);
      words = ok.words;
      last = tt;
    }

-- A pushed word of 16 bits is one that `;` may change.
tail_of-EndsIn :
    (word : ℕ) (prog : List ℕ)
    → word < 2 ^ 16
    → (spare (tail_of word) ≡ 0) × EndsIn (tail_of word) (push word prog)
unfolding tail_of
tail_of-EndsIn word prog h =
    let ends : get_or (push word prog) (length (push word prog) - 1) 0 < 2 ^ 16 =
      subst (λ w. w < 2 ^ 16) (sym (get_or-push word prog)) h in
    if_both Ends (bit_and word 0xF000 == 0xC000) (refl, ends)
      (if_both Ends (bit_and word 0xF000 == 0x0000) (refl, ends) (refl, tt))
  where
    Ends : Tail → Type 0
    Ends tail = (spare tail ≡ 0) × EndsIn tail (push word prog)

compile_code-IsSound :
    (token : List ℕ) (word : ℕ) (s : State)
    → word < 2 ^ 16
    → IsSound s
    → IsSound (compile_code token word s)
unfolding compile_code
compile_code-IsSound token word s h ok =
    let n = length s.prog in
    let (none_spare, ends) = tail_of-EndsIn word s.prog h in
    record {
      base = n;
      room = omega (arith, none_spare, length-push word s.prog);
      prog = AllFits-push n s.prog word (fits s ok n (omega arith)) (omega (arith, h));
      ctrl = placed s ok n (omega arith);
      words = ok.words;
      last = ends;
    }

invoke-Keeps : (d : Directive) (s : State) → IsSound s → Keeps (invoke d s)
unfolding invoke
invoke-Keeps Directive.colon s ok = define_entry-Keeps s ok
invoke-Keeps Directive.comma s ok = allocate_data-Keeps s ok
invoke-Keeps Directive.constant s ok = define_constant-Keeps s ok
invoke-Keeps Directive.variable s ok = define_variable-Keeps s ok
invoke-Keeps Directive.skz s ok = skip_if_zero-Keeps s ok
invoke-Keeps Directive.begin s ok = begin_loop-Keeps s ok
invoke-Keeps Directive.until s ok = end_until-Keeps s ok
invoke-Keeps Directive.while s ok = while_test-Keeps s ok
invoke-Keeps Directive.repeat s ok = end_repeat-Keeps s ok
invoke-Keeps Directive.loop_down s ok =
    counted_loop-Keeps s ok uc_jnz_dec
      (λ a. (omega (arith, uc_jnz_dec_lem a), omega (arith, uc_jnz_dec_lem a)))
invoke-Keeps Directive.loop_up s ok =
    counted_loop-Keeps s ok uc_jnz_inc
      (λ a. (omega (arith, uc_jnz_inc_lem a), omega (arith, uc_jnz_inc_lem a)))
invoke-Keeps Directive.index s ok = loop_index-Keeps s ok
invoke-Keeps Directive.again s ok = end_again-Keeps s ok
invoke-Keeps Directive.if_zero s ok = begin_if-Keeps s ok
invoke-Keeps Directive.else_part s ok = begin_else-Keeps s ok
invoke-Keeps Directive.then_end s ok = end_then-Keeps s ok
invoke-Keeps Directive.semicolon s ok = end_procedure-Keeps s ok

-- Only the stream changes.
read_past-IsSound : (s : State) (lexed : Lexed) → IsSound s → IsSound (read_past s lexed)
read_past-IsSound s lexed ok = record {
  base = ok.base;
  room = ok.room;
  prog = ok.prog;
  ctrl = ok.ctrl;
  words = ok.words;
  last = ok.last;
}

-- A property that resets `tail_ctx` and does nothing else.
falsy_kept : (s : State) → IsSound s → IsSound (record s { tail_ctx = tail_none })
falsy_kept s ok = record {
  base = ok.base;
  room = omega (arith, ok.room);
  prog = ok.prog;
  ctrl = ok.ctrl;
  words = ok.words;
  last = tt;
}

module _ (number : List ℕ → Option ℤ) where
  compile_literal-Sound :
      (token : List ℕ) (s : State) → IsSound s → Sound (compile_literal number token s)
  unfolding compile_literal
  compile_literal-Sound token s ok = read (number token)
    where
      read :
          (num : Option ℤ)
          → Sound (elim num [
            | some n ↦ done (compile_number n s)
            | none ↦ failed (error s.stream (unknown_word token))
          ])
      read none = tt
      read (some n) = compile_number-IsSound n s ok

  compile_entry-Sound :
      (token : List ℕ) (word : Option Word) (s : State)
      → FoundCoded word
      → IsSound s
      → Sound (compile_entry number token word s)
  unfolding compile_entry
  compile_entry-Sound token none s c ok = compile_literal-Sound token s ok
  compile_entry-Sound token (some (code word)) s c ok = compile_code-IsSound token word s c ok
  compile_entry-Sound token (some (directive function)) s c ok =
      Ensures-and_then (Unit {0}) IsKept IsSound (invoke function s) _ (invoke-Keeps function s ok)
        kept_after_reset
  compile_entry-Sound token (some (inherited truthy)) s c ok = ok
  compile_entry-Sound token (some (inherited falsy)) s c ok = falsy_kept s ok
  compile_entry-Sound token (some (inherited throws)) s c ok = tt
  compile_entry-Sound token (some (inherited object)) s c ok = compile_literal-Sound token s ok

  anything : {A : Type 0} (o : Outcome A) → Ensures (Unit {0}) (λ _. Unit {0}) o
  anything (done a) = tt
  anything (failed e) = tt
  anything thrown = tt
  anything stuck = tt

  compile_word-Sound :
      (fuel : ℕ) (token : List ℕ) (s : State) → IsSound s → Sound (compile_word number fuel token s)
  unfolding compile_word
  compile_word-Sound fuel token s ok =
      let lexed = next_token s.stream in
      if_both Sound (same token (codes "("))
        (Ensures-and_then (Unit {0}) (λ _. Unit {0}) IsSound
          (compile_comment fuel lexed.token lexed.stream) _ (anything _)
          (λ end _. read_past-IsSound s end ok))
        (compile_entry-Sound token (word_of token s.words) s
          (word_of-FoundCoded token s.words ok.words) ok)

  pub compile_tokens-Sound :
      (fuel : ℕ) (token : List ℕ) (s : State)
      → IsSound s
      → Sound (compile_tokens number fuel token s)
  unfolding compile_tokens
  compile_tokens-Sound zero token s ok = tt
  compile_tokens-Sound (suc fuel) [] s ok = ok
  compile_tokens-Sound (suc fuel) (c ∷ cs) s ok =
      Ensures-and_then (Unit {0}) IsSound IsSound (compile_word number fuel (c ∷ cs) s) _
        (compile_word-Sound fuel (c ∷ cs) s ok)
        (λ t sound.
          let lexed = next_token t.stream in
          compile_tokens-Sound fuel lexed.token (read_past t lexed)
            (read_past-IsSound t lexed sound))

  -- A token that is compiled keeps the state sound: the addresses that are kept for patches lie within
  -- the program, and the words of the program and of the dictionary have 16 bits, those of the program
  -- as long as it is no longer than 2^16.
  pub compile_word-IsSound :
      (fuel : ℕ) (token : List ℕ) (s t : State)
      → IsSound s
      → compile_word number fuel token s ≡ done t
      → IsSound t
  compile_word-IsSound fuel token s t ok e = subst Sound e (compile_word-Sound fuel token s ok)
