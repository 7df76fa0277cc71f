-- ===== src/Ucode/Compiler/Fuel.antt =====
-- fpga/ucode/ucode.js: the loops of `compile` end, as every token takes characters from the text.
use u_fork.Prelude.{
  ℕ, zero, suc, ◌+◌, ◌≤◌, ◌<◌, ◌≢◌, Bool, true, false, if_both, List, [], ◌∷◌, length, Option, none,
  some, arith,
}
use u_fork.Prelude.Int.{ℤ}
use u_fork.Ucode.Compiler.{
  compile_comment, compile_code, compile_number, compile_literal, compile_entry, compile_word,
  compile_tokens, compile, initial_state, finished, Compiled,
}
use u_fork.Ucode.Compiler.Streams.{codes, same, Stream, make_stream, Lexed, next_token}
use u_fork.Ucode.Compiler.States.{
  error, redefined_word, unknown_word, if_data_cases, Ensures, Ensures-and_then, State, Outcome,
  done, failed, thrown, stuck, and_then, some_auto,
}
use u_fork.Ucode.Compiler.Codes.{uc_is_auto}
use u_fork.Ucode.Compiler.States.{top}
use u_fork.Ucode.Compiler.Table.{
  Word, code, directive, inherited, truthy, falsy, throws, object, word_of, Directive,
}
use u_fork.Ucode.Compiler.Directives.{
  read_past, unless_defined, define_entry, allocate_data, define_constant, define_variable,
  skip_if_zero, begin_loop, end_until, while_test, end_repeat, counted_loop, loop_index, end_again,
  begin_if, begin_else, end_then, end_procedure, invoke,
}
use u_fork.Ucode.Compiler.Tokens.{next_token-size}

-- At most `n` characters are left, where a comment or a word has been compiled.
abbrev Ends : ℕ → Outcome Lexed → Type 0
Ends n = Ensures ⊥ (λ end. length end.stream.rest ≤ n)

abbrev Leaves : ℕ → Outcome State → Type 0
Leaves n = Ensures ⊥ (λ t. length t.stream.rest ≤ n)

-- More may be left.
Ends-mono : {m n : ℕ} (o : Outcome Lexed) → m ≤ n → Ends m o → Ends n o
Ends-mono (done end) le h = omega arith
Ends-mono (failed e) le h = tt
Ends-mono thrown le h = tt
Ends-mono stuck le h = h

-- The body of the loop, by its calls.
comment_step :
    (fuel c : ℕ) (cs : List ℕ) (stream : Stream)
    → length stream.rest < fuel
    → ((token : List ℕ) (next : Stream)
        → length token + length next.rest < fuel
        → Ends (length next.rest) (compile_comment fuel token next))
    → Ends (length stream.rest) (compile_comment (suc fuel) (c ∷ cs) stream)
unfolding compile_comment
comment_step fuel c cs stream h again = step (same (c ∷ cs) (codes "(")) (same (c ∷ cs) (codes ")"))
  where
    -- The call for a token behind `before`, where no more than `stream` is left.
    next :
        (before : Stream)
        → length before.rest ≤ length stream.rest
        → Ends
            (length stream.rest)
            (compile_comment fuel (next_token before).token (next_token before).stream)
    next before le =
        let taken = next_token-size before in
        Ends-mono _ (omega (arith, taken))
          (again (next_token before).token (next_token before).stream (omega (arith, taken)))

    step :
        (opens closes : Bool)
        → Ends (length stream.rest) (elim opens [
          | true ↦
              and_then
                (compile_comment fuel (next_token stream).token (next_token stream).stream)
                (λ inner.
                  let behind = next_token inner.stream in
                  compile_comment fuel behind.token behind.stream)
          | false ↦ elim closes [
            | true ↦ done (record { token = c ∷ cs; stream = stream })
            | false ↦ compile_comment fuel (next_token stream).token (next_token stream).stream
          ]
        ])
    step true closes =
        Ensures-and_then ⊥ _ _ (compile_comment fuel _ _) _ (next stream (omega arith))
          (λ inner le. next inner.stream le)
    step false true = omega arith
    step false false = next stream (omega arith)

-- A comment ends, and leaves no more than was there.
compile_comment-Ends :
    (fuel : ℕ) (token : List ℕ) (stream : Stream)
    → length token + length stream.rest < fuel
    → Ends (length stream.rest) (compile_comment fuel token stream)
unfolding compile_comment
compile_comment-Ends zero token stream h = absurd (omega arith)
compile_comment-Ends (suc fuel) [] stream h = omega arith
compile_comment-Ends (suc fuel) (c ∷ cs) stream h =
    comment_step fuel c cs stream (omega arith) (compile_comment-Ends fuel)

unless_defined-Leaves :
    (n : ℕ) (name : List ℕ) (s : State) (o : Outcome State)
    → Leaves n o
    → Leaves n (unless_defined name s o)
unless_defined-Leaves n name s o h = go (word_of name s.words)
  where
    go :
        (w : Option Word)
        → Leaves n (elim w [ some word ↦ failed (error s.stream (redefined_word name)) | none ↦ o ])
    go (some word) = tt
    go none = h

-- The compiler functions read at most a name.
invoke-Leaves : (d : Directive) (s : State) → Leaves (length s.stream.rest) (invoke d s)
unfolding invoke define_entry allocate_data define_constant define_variable skip_if_zero begin_loop
    end_until while_test end_repeat counted_loop loop_index end_again begin_if begin_else end_then
    end_procedure
invoke-Leaves Directive.colon s =
    unless_defined-Leaves _ (next_token s.stream).token (read_past s (next_token s.stream)) _
      (omega (arith, next_token-size s.stream))
invoke-Leaves Directive.comma s =
    if_data_cases (Leaves (length s.stream.rest)) s.tail_ctx _ _ (λ _. omega arith) tt
invoke-Leaves Directive.constant s =
    unless_defined-Leaves _ (next_token s.stream).token (read_past s (next_token s.stream)) _ (
      if_data_cases (Leaves (length s.stream.rest)) s.tail_ctx _ _
        (λ _. omega (arith, next_token-size s.stream)) tt)
invoke-Leaves Directive.variable s =
    unless_defined-Leaves _ (next_token s.stream).token (read_past s (next_token s.stream)) _
      (omega (arith, next_token-size s.stream))
invoke-Leaves Directive.skz s = omega arith
invoke-Leaves Directive.begin s = omega arith
invoke-Leaves Directive.until s = omega arith
invoke-Leaves Directive.while s = omega arith
invoke-Leaves Directive.repeat s = omega arith
invoke-Leaves Directive.loop_down s = omega arith
invoke-Leaves Directive.loop_up s = omega arith
invoke-Leaves Directive.index s =
    if_both (Leaves (length s.stream.rest)) (uc_is_auto (top s.ctrl_ctx)) (omega arith) tt
invoke-Leaves Directive.again s =
    if_both (λ (t : State). length t.stream.rest ≤ length s.stream.rest)
      (uc_is_auto (top s.ctrl_ctx)) (omega arith) (omega arith)
invoke-Leaves Directive.if_zero s = omega arith
invoke-Leaves Directive.else_part s = omega arith
invoke-Leaves Directive.then_end s = omega arith
invoke-Leaves Directive.semicolon s =
    if_both (Leaves (length s.stream.rest)) (some_auto s.ctrl_ctx) tt (omega arith)

module _ (number : List ℕ → Option ℤ) where
  literal_kept :
      (token : List ℕ) (s : State) → Leaves (length s.stream.rest) (compile_literal number token s)
  unfolding compile_literal compile_number
  literal_kept token s = kept (number token)
    where
      kept :
          (num : Option ℤ)
          → Leaves (length s.stream.rest) (elim num [
            | some n ↦ done (compile_number n s)
            | none ↦ failed (error s.stream (unknown_word token))
          ])
      kept none = tt
      kept (some n) = omega arith

  entry_kept :
      (token : List ℕ) (word : Option Word) (s : State)
      → Leaves (length s.stream.rest) (compile_entry number token word s)
  unfolding compile_entry compile_code
  entry_kept token none s = literal_kept token s
  entry_kept token (some (code word)) s = omega arith
  entry_kept token (some (directive function)) s =
      Ensures-and_then ⊥ _ _ (invoke function s) _ (invoke-Leaves function s) (λ t h. h)
  entry_kept token (some (inherited truthy)) s = omega arith
  entry_kept token (some (inherited falsy)) s = omega arith
  entry_kept token (some (inherited throws)) s = tt
  entry_kept token (some (inherited object)) s = literal_kept token s

  word_kept :
      (fuel : ℕ) (token : List ℕ) (s : State)
      → length s.stream.rest < fuel
      → Leaves (length s.stream.rest) (compile_word number fuel token s)
  unfolding compile_word
  word_kept fuel token s h =
      let lexed = next_token s.stream in
      let taken = next_token-size s.stream in
      if_both (Leaves (length s.stream.rest)) (same token (codes "("))
        (Ensures-and_then ⊥ _ _ (compile_comment fuel lexed.token lexed.stream) _
          (compile_comment-Ends fuel lexed.token lexed.stream (omega (arith, taken)))
          (λ end le. omega (arith, le, taken)))
        (entry_kept token (word_of token s.words) s)

  tokens_end :
      (fuel : ℕ) (token : List ℕ) (s : State)
      → length token + length s.stream.rest < fuel
      → Ensures ⊥ (λ _. Unit {0}) (compile_tokens number fuel token s)
  unfolding compile_tokens
  tokens_end zero token s h = absurd (omega arith)
  tokens_end (suc fuel) [] s h = tt
  tokens_end (suc fuel) (c ∷ cs) s h =
      Ensures-and_then ⊥ _ _ (compile_word number fuel (c ∷ cs) s) _
        (word_kept fuel (c ∷ cs) s (omega arith))
        (λ t le.
          let lexed = next_token t.stream in
          tokens_end fuel lexed.token (read_past t lexed)
            (omega (arith, le, next_token-size t.stream)))

  -- Whatever the text, the compiler comes to an end: with a program, with an error or with an
  -- exception.
  pub compile_ends : (text : List ℕ) → compile number text ≢ stuck
  unfolding compile
  compile_ends text e =
      let lexed = next_token (make_stream text) in
      ended (compile number text)
        (Ensures-and_then ⊥ (λ _. Unit {0}) (λ _. Unit {0}) _ (λ s. done (finished s))
          (tokens_end (length text + 2) lexed.token (read_past (initial_state text) lexed)
            (omega (arith, next_token-size (make_stream text))))
          (λ _ h. h))
        e
    where
      ended : (o : Outcome Compiled) → Ensures ⊥ (λ _. Unit {0}) o → o ≢ stuck
      ended (done c) h e = absurd (cc)
      ended (failed c) h e = absurd (cc)
      ended thrown h e = absurd (cc)
      ended stuck h e = h
