-- ===== src/Tests/Compiler.antt =====
-- Texts of uCode and what the compiler makes of them: the words of the program, an image, errors, and
-- the theorems on the compiler at such texts.
use u_fork.Prelude.{
  ℕ, zero, ◌^◌, ◌≤◌, ◌≡◌, refl, ap, ◌≢◌, Bool, true, false, List, [], ◌∷◌, Option, none, some,
  get_elem?, length, map, arith,
}
use u_fork.Prelude.Int.{ℤ, pos}
use u_fork.Ufork.Raw.{to_uint32, to_int32}
use u_fork.Ucode.Machine.{Machine, Devices, make_machine}
use u_fork.Ucode.Machine.Step.{step, count_instr}
use u_fork.Ucode.Compiler.Jumps.{if_zero, obeyed, jumps_obeyed}
use u_fork.Ucode.Machine.Invariant.{IsReady}
use u_fork.Ucode.Compiler.{
  compile, compile_word, compile_tokens, compile_entry, compile_literal, compile_number,
  compile_code, tail_of, compile_comment, finished, Compiled, initial_state,
}
use u_fork.Ucode.Compiler.Codes.{
  uc_jump, uc_jz, uc_jnz_dec, uc_jnz_inc, uc_call, uc_is_auto, uc_fixup, uc_to_r,
}
use u_fork.Ucode.Compiler.Streams.{codes, passed, next_token, skip_space, collect_token}
use u_fork.Ucode.Compiler.States.{
  Outcome, done, failed, thrown, stuck, State, Message, redefined_word, unknown_word,
  exit_from_loop, store_at, push, without_end,
}
use u_fork.Ucode.Compiler.Entries.{decimal, put, held_at, delete, without_last, from_entries}
use u_fork.Ucode.Compiler.Table.{initial_words, word_of}
use u_fork.Ucode.Compiler.Directives.{
  define_entry, allocate_data, define_constant, define_variable, skip_if_zero, begin_loop,
  end_until, while_test, end_repeat, counted_loop, loop_index, end_again, begin_if, begin_else,
  end_then, with_exit, end_procedure, invoke,
}
use u_fork.Ucode.Compiler.Printer.{print_memh}
use u_fork.Ucode.Compiler.Reader.{
  parse_memh, parse_all, read_on, parse_hex, start_number, skip, next_mode, is_hex_digit,
  from_hex_digit, collect,
}
use u_fork.Ucode.Compiler.Structured.{emit, if_else_then}
use u_fork.Ucode.Compiler.Loops.{while_repeat, counted_loops}
use u_fork.Ucode.Compiler.Fuel.{compile_ends}
use u_fork.Ucode.Compiler.Sound.{IsSound}
use u_fork.Ucode.Compiler.Invariant.{compile_word-IsSound}
use u_fork.Ucode.Compiler.Programs.{initial_state-IsSound, compiled_image, compiled_is_ready}

-- `Number` on decimal digits.
abbrev number_of : List ℕ → Option ℤ
number_of token = elim (decimal 0 token) [ none ↦ none | some n ↦ some (pos n) ]

abbrev source : List ℕ
source = codes ": F ( n -- n ) IF 500 ELSE DUP THEN ; : G F 7 CONSTANT SEVEN ?LOOP- I AGAIN ;"

abbrev source_prog : List ℕ
source_prog =
    0xC007 ∷ 0x9005 ∷ 0x021F ∷ 0x01F4 ∷ 0x8006 ∷ 0x0200 ∷ 0x5000 ∷ 0xC001 ∷ 0x521F ∷ 0x0007 ∷ 0x2100
    ∷ 0x800D ∷ 0x0280 ∷ 0xB00C ∷ 0x5000 ∷ []

abbrev compiled_of : Outcome Compiled → Compiled
compiled_of (done compiled) = compiled
compiled_of _ = record { words = []; prog = []; warnings = [] }

abbrev is_done : Outcome Compiled → Bool
is_done (done compiled) = true
is_done _ = false

abbrev message_of : Outcome Compiled → Option Message
message_of (failed e) = some e.message
message_of _ = none

compile_runs :
    ((compiled_of (compile number_of source)).prog ≡ source_prog)
    × (is_done (compile number_of (codes "constant")) ≡ false)
    × (message_of (compile number_of (codes ": DUP ;")) ≡ some (redefined_word (codes "DUP")))
    × (message_of (compile number_of (codes ": F ?LOOP- ;")) ≡ some (exit_from_loop 1))
    × (message_of (compile number_of (codes "VARIABLE V ( ( x ) y ) W"))
        ≡ some (unknown_word (codes "W")))
unfolding compile compile_tokens compile_word compile_entry compile_literal compile_number
    compile_code tail_of compile_comment finished passed next_token skip_space collect_token uc_jump
    uc_jz uc_jnz_inc uc_jnz_dec uc_call uc_is_auto uc_fixup put held_at delete without_last
    from_entries initial_words word_of store_at push without_end define_entry allocate_data
    define_constant define_variable skip_if_zero begin_loop end_until while_test end_repeat
    counted_loop loop_index end_again begin_if begin_else end_then with_exit end_procedure invoke
    to_uint32
compile_runs = (refl, refl, refl, refl, refl)

-- Properties that every object inherits are taken for words: `constructor` compiles to nothing,
-- `toString` cannot be defined, and `valueOf` throws. A `THEN` without an `IF` patches the entry point.
oddities :
    ((compiled_of (compile number_of (codes "constructor"))).prog ≡ 0x8000 ∷ [])
    × (message_of (compile number_of (codes ": toString ;"))
        ≡ some (redefined_word (codes "toString")))
    × (compile number_of (codes "valueOf") ≡ thrown)
    × ((compiled_of (compile number_of (codes ": F DUP THEN ;"))).prog ≡ 2 ∷ 0x0200 ∷ 0x5000 ∷ [])
unfolding compile compile_tokens compile_word compile_entry compile_literal compile_number
    compile_code tail_of compile_comment finished passed next_token skip_space collect_token uc_jump
    uc_jz uc_jnz_inc uc_jnz_dec uc_call uc_is_auto uc_fixup put held_at delete without_last
    from_entries initial_words word_of store_at push without_end define_entry allocate_data
    define_constant define_variable skip_if_zero begin_loop end_until while_test end_repeat
    counted_loop loop_index end_again begin_if begin_else end_then with_exit end_procedure invoke
    to_uint32
oddities = (refl, refl, refl, refl)

-- A comment that follows a number at once is read as numbers.
image_runs :
    (parse_memh (codes "  C0de // Data?") ≡ some (pos 0xC0DE ∷ []))
    × (parse_memh (codes "0021//c0de") ≡ some (pos 0x21 ∷ pos 0x0DE ∷ []))
unfolding parse_memh parse_all read_on parse_hex start_number skip next_mode is_hex_digit
    from_hex_digit collect to_int32
image_runs = (refl, refl)

compile_ends_example : compile number_of source ≢ stuck
compile_ends_example = compile_ends number_of source

source_compiles : compile number_of source ≡ done (compiled_of (compile number_of source))
unfolding compile compile_tokens compile_word compile_entry compile_literal compile_number
    compile_code tail_of compile_comment finished passed next_token skip_space collect_token uc_jump
    uc_jz uc_jnz_inc uc_jnz_dec uc_call uc_is_auto uc_fixup put held_at delete without_last
    from_entries initial_words word_of store_at push without_end define_entry allocate_data
    define_constant define_variable skip_if_zero begin_loop end_until while_test end_repeat
    counted_loop loop_index end_again begin_if begin_else end_then with_exit end_procedure invoke
    to_uint32
source_compiles = refl

source_short : length (compiled_of (compile number_of source)).prog ≤ 2 ^ 12
source_short = omega (arith, ap length compile_runs.0)

compiled_image_example :
    parse_memh (
      print_memh
        (compiled_of (compile number_of source)).words
        (some 3)
        (compiled_of (compile number_of source)).prog)
    ≡ some (map pos (compiled_of (compile number_of source)).prog)
compiled_image_example =
    compiled_image number_of source (compiled_of (compile number_of source)) (some 3)
      source_compiles (omega (arith, source_short))

compiled_is_ready_example :
    IsReady (make_machine (get_elem? (compiled_of (compile number_of source)).prog) zero)
compiled_is_ready_example =
    compiled_is_ready number_of source (compiled_of (compile number_of source)) zero source_compiles
      source_short

-- A state in which the text `: F` has been compiled.
abbrev entered : State
entered = record (initial_state (codes "IF 1 THEN")) {
  stream = record { rest = codes "1 THEN"; place = record { pos = 3; line = 1 } };
}

entered-IsSound : IsSound entered
entered-IsSound = initial_state-IsSound (codes "IF 1 THEN") (record {
  token = codes "IF";
  stream = record { rest = codes "1 THEN"; place = record { pos = 3; line = 1 } };
})

if_compiles :
    compile_word number_of 5 (codes "IF") entered
    ≡ done (record entered { prog = 0x8000 ∷ 0x9001 ∷ []; ctrl_ctx = 0x9001 ∷ [] })
unfolding compile compile_tokens compile_word compile_entry compile_literal compile_number
    compile_code tail_of compile_comment finished passed next_token skip_space collect_token uc_jump
    uc_jz uc_jnz_inc uc_jnz_dec uc_call uc_is_auto uc_fixup put held_at delete without_last
    from_entries initial_words word_of store_at push without_end define_entry allocate_data
    define_constant define_variable skip_if_zero begin_loop end_until while_test end_repeat
    counted_loop loop_index end_again begin_if begin_else end_then with_exit end_procedure invoke
    to_uint32
if_compiles = refl

compile_word-IsSound_example :
    IsSound (record entered { prog = 0x8000 ∷ 0x9001 ∷ []; ctrl_ctx = 0x9001 ∷ [] })
compile_word-IsSound_example =
    compile_word-IsSound number_of 5 (codes "IF") entered
      (record entered { prog = 0x8000 ∷ 0x9001 ∷ []; ctrl_ctx = 0x9001 ∷ [] }) entered-IsSound
      if_compiles

if_else_then_example :
    end_then (emit (0x0200 ∷ []) (begin_else (emit (0x0100 ∷ 0x0200 ∷ []) (begin_if entered))))
    ≡ emit (uc_jz 5 ∷ 0x0100 ∷ 0x0200 ∷ uc_jump 6 ∷ 0x0200 ∷ []) entered
if_else_then_example = if_else_then entered (0x0100 ∷ 0x0200 ∷ []) (0x0200 ∷ []) (omega arith)

while_repeat_example :
    end_repeat (emit (0x0100 ∷ []) (while_test (emit (0x0200 ∷ []) (begin_loop entered))))
    ≡ emit (0x0200 ∷ uc_jz 5 ∷ 0x0100 ∷ uc_jump 1 ∷ []) entered
while_repeat_example = while_repeat entered (0x0200 ∷ []) (0x0100 ∷ []) (omega arith)

counted_loops_example :
    (end_again (emit (0x0280 ∷ []) (counted_loop uc_jnz_dec entered))
      ≡ emit (uc_to_r ∷ uc_jump 4 ∷ 0x0280 ∷ uc_jnz_dec 3 ∷ []) entered)
    × (end_again (emit (0x0280 ∷ []) (counted_loop uc_jnz_inc entered))
        ≡ emit (uc_to_r ∷ uc_jump 4 ∷ 0x0280 ∷ uc_jnz_inc 3 ∷ []) entered)
counted_loops_example = counted_loops entered (0x0280 ∷ []) (omega arith)

abbrev quiet : Devices (Unit {0})
quiet = record { present = λ _. false; read = λ _ _ w. (some 0, w); write = λ _ _ _ w. w }

-- The simulator at the `IF` of the compiled text.
abbrev at_if : Machine (Unit {0})
at_if = record (make_machine (get_elem? source_prog) tt) { pc = 1 }

jumps_obeyed_example : step quiet at_if ≡ (none, count_instr (obeyed if_zero 5 at_if))
unfolding make_machine uc_jz
jumps_obeyed_example = jumps_obeyed quiet at_if if_zero 5 refl
