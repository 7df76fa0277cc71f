-- ===== src/Tests/Ucode.antt =====
-- fpga/ucode/ucode_sim.js on a program of six words: two constants are pushed and added, and a call
-- comes back from its return instruction.
use u_fork.Prelude.{
  ℕ, ◌+◌, ◌-◌, ◌*◌, ◌%◌, ◌^◌, ◌≡◌, refl, false, none, some, [], ◌∷◌, take, length, arith,
}
use u_fork.Prelude.Int.{pos}
use u_fork.Ucode.Stack.{Cell, Stack, make_stack, perform, tos, nos}
use u_fork.Ucode.Stack.Refinement.{Holds, perform_refines}
use u_fork.Ucode.Alu.{
  alu_result, op_add, op_sub, op_mul, op_rol, op_2rol, op_4rol, op_8rol, op_asr, op_2asr, op_4asr,
}
use u_fork.Ucode.Alu.Laws.{rotate_left, signed16, floor_shift, alu_explained}
use u_fork.Ucode.Machine.{Machine, Devices, illegal_instruction, make_machine, update}
use u_fork.Ucode.Machine.Step.{
  decode, step, run_loop, step_instr, step_compute, step_control, step_access, step_stacks,
  count_instr,
}
use u_fork.Ucode.Machine.Words.{IsWord}
use u_fork.Ucode.Machine.Sound.{ReadWords, update_all}
use u_fork.Ucode.Machine.Invariant.{IsReady, step-IsReady, run_loop-IsReady, make_machine-IsReady}
use u_fork.Ucode.Machine.Faults.{ExplainsResult, step_explained}
use u_fork.Ucode.Compiler.Entries.{put, held_at, from_entries}
use u_fork.Ucode.Compiler.Table.{word_of, initial_words}
use u_fork.Ucode.Compiler.Meanings
use u_fork.Ucode.Compiler.WordsObeyed.{IsStackOf, words_obeyed}
use u_fork.Ucode.Machine.Calls.{call, exit, call_returns, undefined_read_is_lost}

abbrev no_devices : Devices (Unit {0})
no_devices = record { present = λ _. false; read = λ _ _ w. (some 0, w); write = λ _ _ _ w. w }

no_devices-ReadWords : ReadWords no_devices
no_devices-ReadWords id reg w = omega arith

-- Push 1, push 1, add them, call address 5, fail; and the return instruction at address 5.
abbrev prog : ℕ → Cell
prog =
    update
      (update
        (update
          (update (update (update (λ _. none) 0 (some 0x02D1)) 1 (some 0x02D1)) 2 (some 0x0741)) 3
          (some (call 5)))
        4 (some 0x000E))
      5 (some exit)

abbrev start : Machine (Unit {0})
start = make_machine prog tt

run_stops : (run_loop no_devices 9 start).0 ≡ some (illegal_instruction 0x000E)
unfolding run_loop step step_instr step_compute step_control step_access step_stacks count_instr
    decode perform tos nos make_machine alu_result
run_stops = refl

run_adds : take 1 (run_loop no_devices 9 start).1.dstack.cells ≡ some 2 ∷ []
unfolding run_loop step step_instr step_compute step_control step_access step_stacks count_instr
    decode perform tos nos make_machine alu_result
run_adds = refl

start-IsReady : IsReady start
start-IsReady =
    make_machine-IsReady prog tt
      (update_all IsWord _ 5 _
        (update_all IsWord _ 4 _
          (update_all IsWord _ 3 _
            (update_all IsWord _ 2 _
              (update_all IsWord _ 1 _ (update_all IsWord (λ _. none) 0 _ (λ _. tt) (omega arith))
                (omega arith))
              (omega arith))
            (omega arith))
          (omega arith))
        (omega arith))
      (λ i h. ground arith)

make_machine-IsReady_example : IsReady (make_machine (λ _. none) tt)
make_machine-IsReady_example = make_machine-IsReady (λ _. none) tt (λ _. tt) (λ _ _. refl)

step-IsReady_example : IsReady (step no_devices start).1
step-IsReady_example = step-IsReady no_devices no_devices-ReadWords start start-IsReady

run_loop-IsReady_example : IsReady (run_loop no_devices 9 start).1
run_loop-IsReady_example = run_loop-IsReady no_devices no_devices-ReadWords 9 start start-IsReady

step_explained_example : ExplainsResult no_devices 0 (some 0x02D1) (step no_devices start).0
unfolding make_machine
step_explained_example = step_explained no_devices start

-- The machine that is about to call.
abbrev at_call : Machine (Unit {0})
at_call = record start { pc = 3 }

call_returns_example :
    let m₁ = (step no_devices at_call).1 in
    let m₂ = (step no_devices m₁).1 in
    ((step no_devices at_call).0 ≡ none)
    × ((step no_devices m₁).0 ≡ none)
    × (m₂.pc ≡ 4)
    × (m₂.dstack ≡ at_call.dstack)
    × (m₂.prog ≡ at_call.prog)
    × (m₂.qram ≡ at_call.qram)
    × (m₂.qrom ≡ at_call.qrom)
    × (take 11 m₂.rstack.cells ≡ take 11 at_call.rstack.cells)
unfolding make_machine
call_returns_example = call_returns no_devices at_call 5 (omega arith) refl refl refl

abbrev two_items : Stack
two_items = record {
  cells =
      some 7 ∷ some 5 ∷ none ∷ none ∷ none ∷ none ∷ none ∷ none ∷ none ∷ none ∷ none ∷ none ∷ [];
  min = pos 0;
  cnt = pos 2;
  max = pos 2;
}

perform_refines_example :
    Holds (perform 4 0 two_items).cells (5 ∷ 7 ∷ [])
    × ((perform 4 0 two_items).cnt ≡ pos 2)
    × (length (perform 4 0 two_items).cells ≡ 12)
perform_refines_example =
    perform_refines 4 0 two_items (7 ∷ 5 ∷ []) (5 ∷ 7 ∷ []) (omega arith) (omega arith)
      (refl, (refl, tt)) refl refl (omega arith)

-- The machine that is about to subtract the top item from the one below it.
abbrev at_minus : Machine (Unit {0})
at_minus = record start { prog = update prog 0 (some 0x0742); dstack = two_items }

words_obeyed_example :
    let m' = (step no_devices at_minus).1 in
    ((step no_devices at_minus).0 ≡ none)
    × IsStackOf (0xFFFE ∷ []) m'.dstack
    × IsStackOf [] m'.rstack
    × (m'.pc ≡ 1)
    × (m'.prog ≡ at_minus.prog)
    × (m'.qram ≡ at_minus.qram)
    × (m'.qrom ≡ at_minus.qrom)
unfolding make_machine make_stack word_of initial_words from_entries held_at put
words_obeyed_example =
    words_obeyed no_devices at_minus "-" 0x0742 (7 ∷ 5 ∷ []) [] (0xFFFE ∷ []) [] refl refl
      (record { depth = refl; items = (refl, (refl, tt)); count = refl })
      (record { depth = refl; items = tt; count = refl }) (omega arith, (omega arith, tt)) tt
      (Meanings.joins Meanings.minus) (omega arith) (omega arith)

-- The machine reads the uCode address 99, which its program does not reach.
abbrev at_read : Machine (Unit {0})
at_read = record start {
  prog = update prog 0 (some 0x030F);
  dstack = record {
    cells =
        some 99 ∷ none ∷ none ∷ none ∷ none ∷ none ∷ none ∷ none ∷ none ∷ none ∷ none ∷ none ∷ [];
    min = pos 0;
    cnt = pos 1;
    max = pos 1;
  };
}

undefined_read_is_lost_example : step no_devices at_read ≡ (none, record at_read { pc = 1 })
unfolding make_machine decode tos
undefined_read_is_lost_example =
    undefined_read_is_lost no_devices at_read 0x030F refl
      (record { not_reset = refl; ctrl = refl; memory = refl; read = refl; range = refl }) refl

alu_explained_example :
    (alu_result op_add (some 0xFFF0) (some 2) ≡ (0xFFF0 + 2) % 2 ^ 16)
    × (alu_result op_sub (some 0xFFF0) (some 2) ≡ (0xFFF0 + 2 ^ 16 - 2) % 2 ^ 16)
    × (alu_result op_mul (some 0xFFF0) (some 2) ≡ 0xFFF0 * 2 % 2 ^ 16)
    × (alu_result op_rol (some 0xFFF0) (some 2) ≡ rotate_left 1 0xFFF0)
    × (alu_result op_2rol (some 0xFFF0) (some 2) ≡ rotate_left 2 0xFFF0)
    × (alu_result op_4rol (some 0xFFF0) (some 2) ≡ rotate_left 4 0xFFF0)
    × (alu_result op_8rol (some 0xFFF0) (some 2) ≡ rotate_left 8 0xFFF0)
    × (signed16 (alu_result op_asr (some 0xFFF0) (some 2)) ≡ floor_shift 1 (signed16 0xFFF0))
    × (signed16 (alu_result op_2asr (some 0xFFF0) (some 2)) ≡ floor_shift 2 (signed16 0xFFF0))
    × (signed16 (alu_result op_4asr (some 0xFFF0) (some 2)) ≡ floor_shift 4 (signed16 0xFFF0))
alu_explained_example = alu_explained 0xFFF0 2 (omega arith) (omega arith)
