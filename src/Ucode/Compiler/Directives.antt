-- ===== src/Ucode/Compiler/Directives.antt =====
-- fpga/ucode/ucode.js: the compiler functions of the table.
use u_fork.Prelude.{
  ℕ, ◌+◌, ◌-◌, List, ◌∷◌, length, get_or, if◌then◌else◌, none, some, bit_and, bit_or,
}
use u_fork.Ufork.Raw.{bit_not}
use u_fork.Ucode.Compiler.Streams.{Lexed, next_token}
use u_fork.Ucode.Compiler.Codes.{
  addr_mask, uc_jump, uc_jz, uc_jnz_inc, uc_jnz_dec, uc_call, uc_is_auto, uc_fixup, uc_const,
  uc_to_r, uc_r_fetch, uc_exit,
}
use u_fork.Ucode.Compiler.Entries.{put}
use u_fork.Ucode.Compiler.Table.{code, word_of}
use u_fork.Ucode.Compiler.Table.{Directive}
use u_fork.Ucode.Compiler.States.{
  redefined_word, unused_word, invalid_data_allocation, invalid_constant, no_index_at,
  exit_from_loop, error, Tail, tail_none, tail_eval, tail_call, State, Outcome, done, failed,
  if_data, top, popped, some_auto, store_at, push, without_end,
}

-- `next_token()` in the body of a compiler function.
abbrev pub read_past : State → Lexed → State
read_past s lexed = record s { stream = lexed.stream }

-- A new word unless there is one of its name already.
abbrev pub unless_defined : List ℕ → State → Outcome State → Outcome State
unless_defined name s next = elim (word_of name s.words) [
  | some word ↦ failed (error s.stream (redefined_word name))
  | none ↦ next
]

-- `:`
unfoldable pub define_entry : State → Outcome State
define_entry s =
    let word = uc_call (length s.prog) in
    let lexed = next_token s.stream in
    let name = lexed.token in
    unless_defined name (read_past s lexed) (
      done (record (read_past s lexed) {
        words = put name (code word) s.words;
        prog = store_at 0 word s.prog;
        unused = put name (error lexed.stream (unused_word name)) s.unused;
      }))

-- `,`
unfoldable pub allocate_data : State → Outcome State
allocate_data s =
    let addr = length s.prog - 2 in
    let copied = store_at addr (get_or s.prog (addr + 1) 0) s.prog in
    if_data s.tail_ctx (done (record s { prog = without_end copied; tail_ctx = tail_none }))
      (failed (error s.stream invalid_data_allocation))

-- `CONSTANT`
unfoldable pub define_constant : State → Outcome State
define_constant s =
    let lexed = next_token s.stream in
    let name = lexed.token in
    let addr = length s.prog - 2 in
    unless_defined name (read_past s lexed) (
      if_data s.tail_ctx
        (done (record (read_past s lexed) {
          prog = store_at addr uc_const s.prog;
          words = put name (code (uc_call addr)) s.words;
          tail_ctx = tail_none;
        }))
        (failed (error lexed.stream (invalid_constant name))))

-- `VARIABLE`
unfoldable pub define_variable : State → Outcome State
define_variable s =
    let word = uc_call (length s.prog) in
    let lexed = next_token s.stream in
    let name = lexed.token in
    let allocated = push uc_const s.prog in
    unless_defined name (read_past s lexed) (
      done (record (read_past s lexed) {
        prog = push 0 (push (length allocated + 1) allocated);
        words = put name (code word) s.words;
      }))

unfoldable pub skip_if_zero : State → State
skip_if_zero s = record s { prog = push (uc_jz (length s.prog + 2)) s.prog }

unfoldable pub begin_loop : State → State
begin_loop s = record s { ctrl_ctx = uc_jump (length s.prog) ∷ s.ctrl_ctx }

unfoldable pub end_until : State → State
end_until s = record s {
  ctrl_ctx = popped s.ctrl_ctx;
  prog = push (uc_jz (bit_and (top s.ctrl_ctx) addr_mask)) s.prog;
}

unfoldable pub while_test : State → State
while_test s = record s {
  ctrl_ctx = uc_jz (length s.prog) ∷ popped s.ctrl_ctx;
  prog = push (uc_jz (bit_and (top s.ctrl_ctx) addr_mask)) s.prog;
}

-- A word that is read where the program has none yet is `undefined`, which `&` reads as 0.
unfoldable pub end_repeat : State → State
end_repeat s =
    let addr = bit_and (top s.ctrl_ctx) addr_mask in
    let pushed = push (uc_jump (get_or s.prog addr 0)) s.prog in
    record s { ctrl_ctx = popped s.ctrl_ctx; prog = store_at addr (uc_jz (length pushed)) pushed }

-- `?LOOP-` and `?LOOP+`, which differ in the jump.
unfoldable pub counted_loop : (ℕ → ℕ) → State → State
counted_loop jump s =
    let pushed = push uc_to_r s.prog in
    let word = jump (length pushed) in
    record s { ctrl_ctx = word ∷ s.ctrl_ctx; prog = push word pushed }

-- `I`
unfoldable pub loop_index : State → Outcome State
loop_index s =
    if uc_is_auto (top s.ctrl_ctx)
    then done (record s { prog = push uc_r_fetch s.prog })
    else failed (error s.stream (no_index_at (length s.ctrl_ctx)))

unfoldable pub end_again : State → State
end_again s =
    let word = top s.ctrl_ctx in
    let addr = bit_and word addr_mask in
    if uc_is_auto word
    then record s {
      ctrl_ctx = popped s.ctrl_ctx;
      prog = push (uc_fixup word (addr + 1)) (store_at addr (uc_jump (length s.prog)) s.prog);
    }
    else record s { ctrl_ctx = popped s.ctrl_ctx; prog = push (uc_jump addr) s.prog }

unfoldable pub begin_if : State → State
begin_if s =
    let word = uc_jz (length s.prog) in
    record s { ctrl_ctx = word ∷ s.ctrl_ctx; prog = push word s.prog }

-- The jump is placed behind the patch, which can be an append.
unfoldable pub begin_else : State → State
begin_else s =
    let addr = bit_and (top s.ctrl_ctx) addr_mask in
    let patched = store_at addr (uc_jz (length s.prog + 1)) s.prog in
    let word = uc_jump (length patched) in
    record s { ctrl_ctx = word ∷ popped s.ctrl_ctx; prog = push word patched }

unfoldable pub end_then : State → State
end_then s =
    let word = top s.ctrl_ctx in
    let addr = bit_and word addr_mask in
    record s {
      ctrl_ctx = popped s.ctrl_ctx;
      prog = store_at addr (uc_fixup word (length s.prog)) s.prog;
    }

-- What `;` does to the program: a free EXIT, a call that becomes a jump, or an EXIT.
unfoldable pub with_exit : Tail → List ℕ → List ℕ
with_exit tail prog =
    let end = length prog - 1 in
    let last = get_or prog end 0 in
    elim tail [
      | tail_eval ↦ store_at end (bit_or last uc_exit) prog
      | tail_call ↦ store_at end (bit_and last (bit_not 0x4000)) prog
      | _ ↦ push uc_exit prog
    ]

-- `;`
unfoldable pub end_procedure : State → Outcome State
end_procedure s =
    if some_auto s.ctrl_ctx
    then failed (error s.stream (exit_from_loop (length s.ctrl_ctx)))
    else done (record s { prog = with_exit s.tail_ctx s.prog; tail_ctx = tail_none })

unfoldable pub invoke : Directive → State → Outcome State
invoke Directive.colon s = define_entry s
invoke Directive.comma s = allocate_data s
invoke Directive.constant s = define_constant s
invoke Directive.variable s = define_variable s
invoke Directive.skz s = done (skip_if_zero s)
invoke Directive.begin s = done (begin_loop s)
invoke Directive.until s = done (end_until s)
invoke Directive.while s = done (while_test s)
invoke Directive.repeat s = done (end_repeat s)
invoke Directive.loop_down s = done (counted_loop uc_jnz_dec s)
invoke Directive.loop_up s = done (counted_loop uc_jnz_inc s)
invoke Directive.index s = loop_index s
invoke Directive.again s = done (end_again s)
invoke Directive.if_zero s = done (begin_if s)
invoke Directive.else_part s = done (begin_else s)
invoke Directive.then_end s = done (end_then s)
invoke Directive.semicolon s = end_procedure s
