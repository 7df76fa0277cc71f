-- ===== src/Ucode/Compiler.antt =====
-- fpga/ucode/ucode.js: `compile`. `Number(token)` is a parameter: `some` of a safe integer, `none` of
-- every other value.
pub mod Codes
pub mod Directives
pub mod Entries
pub mod Fields
pub mod Fuel
pub mod Images
pub mod Lines
pub mod Loops
pub mod Numbers
pub mod Printer
pub mod Programs
pub mod Reader
pub mod Sound
pub mod Invariant
pub mod Meanings
pub mod MeaningValues
pub mod MeaningEffects
pub mod WordsObeyed
pub mod Jumps
pub mod Kept
pub mod Definers
pub mod Control
pub mod States
pub mod Tokens
pub mod Structured
pub mod Streams
pub mod Table
use u_fork.Prelude.{
  ℕ, zero, suc, ◌+◌, ◌==◌, Bool, true, false, if◌then◌else◌, List, [], ◌∷◌, length, Option, none,
  some, bit_and,
}
use u_fork.Prelude.Int.{ℤ}
use u_fork.Ufork.Raw.{to_uint32}
use u_fork.Ucode.Compiler.Streams.{codes, same, Stream, make_stream, Lexed, next_token}
use u_fork.Ucode.Compiler.Codes.{uc_jump, uc_lit}
use u_fork.Ucode.Compiler.Entries.{delete, without_last, values}
use u_fork.Ucode.Compiler.Table.{
  Word, code, directive, inherited, truthy, falsy, throws, object, word_of, initial_words,
}
use u_fork.Ucode.Compiler.States.{
  unknown_word, Error, error, Tail, tail_none, tail_eval, tail_call, tail_data, State, Outcome,
  done, failed, thrown, stuck, and_then, push,
}
use u_fork.Ucode.Compiler.Directives.{read_past, invoke}

-- The token that closes a comment, or an empty one at the text's end. A comment within a comment is
-- read by the function itself.
unfoldable pub compile_comment : ℕ → List ℕ → Stream → Outcome Lexed
compile_comment zero token stream = stuck
compile_comment (suc fuel) [] stream = done (record { token = []; stream = stream })
compile_comment (suc fuel) (c ∷ cs) stream =
    let lexed = next_token stream in
    elim (same (c ∷ cs) (codes "(")) [
      | true ↦ and_then (compile_comment fuel lexed.token lexed.stream) (λ inner.
          let behind = next_token inner.stream in compile_comment fuel behind.token behind.stream)
      | false ↦ elim (same (c ∷ cs) (codes ")")) [
        | true ↦ done (record { token = c ∷ cs; stream = stream })
        | false ↦ compile_comment fuel lexed.token lexed.stream
      ]
    ]

unfoldable pub tail_of : ℕ → Tail
tail_of word =
    if bit_and word 0xF000 == 0xC000
    then tail_call
    else if bit_and word 0xF000 == 0x0000
    then tail_eval
    else tail_none

-- "compile primitive or call"
unfoldable pub compile_code : List ℕ → ℕ → State → State
compile_code token word s = record s {
  prog = push word s.prog;
  unused = delete token s.unused;
  tail_ctx = tail_of word;
}

-- "push number literal", truncated to 16 bits
unfoldable pub compile_number : ℤ → State → State
compile_number num s = record s {
  prog = push (bit_and (to_uint32 num) 0xFFFF) (push uc_lit s.prog);
  tail_ctx = tail_data;
}

module _ (number : List ℕ → Option ℤ) where
  unfoldable pub compile_literal : List ℕ → State → Outcome State
  compile_literal token s = elim (number token) [
    | some num ↦ done (compile_number num s)
    | none ↦ failed (error s.stream (unknown_word token))
  ]

  -- A token that is no comment, by what `words[token]` is.
  unfoldable pub compile_entry : List ℕ → Option Word → State → Outcome State
  compile_entry token none s = compile_literal token s
  compile_entry token (some (code word)) s = done (compile_code token word s)
  compile_entry token (some (directive function)) s =
      and_then (invoke function s) (λ t. done (record t { tail_ctx = tail_none }))
  compile_entry token (some (inherited truthy)) s = done s
  compile_entry token (some (inherited falsy)) s = done (record s { tail_ctx = tail_none })
  compile_entry token (some (inherited throws)) s = thrown
  compile_entry token (some (inherited object)) s = compile_literal token s

  unfoldable pub compile_word : ℕ → List ℕ → State → Outcome State
  compile_word fuel token s =
      let lexed = next_token s.stream in
      if same token (codes "(")
      then and_then (compile_comment fuel lexed.token lexed.stream) (λ end. done (read_past s end))
      else compile_entry token (word_of token s.words) s

  unfoldable pub compile_tokens : ℕ → List ℕ → State → Outcome State
  compile_tokens zero token s = stuck
  compile_tokens (suc fuel) [] s = done s
  compile_tokens (suc fuel) (c ∷ token) s =
      and_then (compile_word fuel (c ∷ token) s) (λ t.
        let lexed = next_token t.stream in compile_tokens fuel lexed.token (read_past t lexed))

-- What `compile` returns of a text without errors.
pub record Compiled : Type 0 where
  pub words : List (List ℕ × Word)
  pub prog : List ℕ
  pub warnings : List Error

abbrev pub initial_state : List ℕ → State
initial_state text = record {
  stream = make_stream text;
  prog = uc_jump 0 ∷ [];
  ctrl_ctx = [];
  tail_ctx = tail_none;
  words = initial_words;
  unused = [];
}

-- "The final word is used implicitly as the entry point."
unfoldable pub finished : State → Compiled
finished s = record { words = s.words; prog = s.prog; warnings = values (without_last s.unused) }

-- The fuel is the text's length and two.
unfoldable pub compile : (List ℕ → Option ℤ) → List ℕ → Outcome Compiled
compile number text =
    let lexed = next_token (make_stream text) in
    and_then
      (compile_tokens number (length text + 2) lexed.token (read_past (initial_state text) lexed))
      (λ s. done (finished s))
