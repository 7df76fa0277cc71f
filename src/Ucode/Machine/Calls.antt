-- ===== src/Ucode/Machine/Calls.antt =====
-- fpga/ucode/ucode_sim.js: a call and its return, and a read of memory that was never
-- written.
use u_fork.Prelude.{
  ℕ, zero, suc, ◌+◌, ◌%◌, ◌/◌, ◌^◌, ◌<◌, ◌≡◌, refl, ap, ◌==◌, true, false, bit_and, none, some,
  List, [], ◌∷◌, ◌++◌, length, take, arith,
}
use u_fork.Prelude.Masks.{and_run, and_ones}
use u_fork.Ucode.Stack.{
  Cell, Stack, tos, perform, last_cell, all_but_last, effect_cells, effect_stats, se_push, se_drop,
}
use u_fork.Ucode.Alu.{int_of, alu_result}
use u_fork.Ucode.Machine.{Machine, Devices, mem_perform}
use u_fork.Ucode.Machine.Step.{
  decode, step_control, step_stacks, count_instr, step_access, step_compute, step_instr, step,
}

-- The instruction that calls the address `addr`, and the one that returns.
abbrev pub call : ℕ → ℕ
call addr = 0xC000 + addr

abbrev pub exit : ℕ
exit = 0x5000

decode-call :
    (addr : ℕ)
    → addr < 2 ^ 12
    → ((decode (call addr)).ctrl ≡ true)
      × ((decode (call addr)).r_pc ≡ true)
      × ((decode (call addr)).r_se ≡ 0)
      × (bit_and (call addr) 0x0FFF ≡ addr)
unfolding decode
decode-call addr h = (
  ground (arith, and_run 1 15 (call addr)),
  ground (arith, and_run 1 14 (call addr)),
  omega (arith, and_run 2 12 (call addr)),
  omega (arith, and_ones 12 (call addr)),
)

take-all_but_last :
    (n : ℕ) (cs ys : List Cell) → length cs ≡ suc n → take n (all_but_last cs ++ ys) ≡ take n cs
take-all_but_last zero cs ys h = refl
take-all_but_last (suc n) [] ys h = absurd (omega arith)
take-all_but_last (suc n) (c ∷ []) ys h = absurd (omega arith)
take-all_but_last (suc n) (c ∷ d ∷ cs) ys h =
    ap (λ (r : List Cell). c ∷ r) (take-all_but_last n (d ∷ cs) ys (omega arith))

not_reset : (addr : ℕ) → (call addr == 0x11F0) ≡ false
not_reset addr = ground arith

-- A read of the uCode memory: a memory instruction of range 0 without the write bit.
pub record IsUcRead (instr : ℕ) : Type 0 where
  pub not_reset : (instr == 0x11F0) ≡ false
  pub ctrl : (decode instr).ctrl ≡ false
  pub memory : (decode instr).alu_op ≡ 0xF
  pub read : bit_and instr 0x0080 ≡ 0
  pub range : bit_and instr 0x0070 / 2 ^ 4 ≡ 0

module _ {W : Type 0} (devices : Devices W) where
  abbrev called : ℕ → Machine W → Machine W
  called addr m = record m {
    pc = addr;
    instr_cnt = bit_and (m.instr_cnt + 1) 0xFFFF;
    rstack = perform se_push (m.pc + 1) m.rstack;
  }

  step-call :
      (m : Machine W) (addr : ℕ)
      → addr < 2 ^ 12
      → m.prog m.pc ≡ some (call addr)
      → step devices m ≡ (none, called addr m)
  unfolding step step_instr step_control count_instr
  step-call m addr h e =
      let (c, p, s, a) = decode-call addr h in rw e (rw (not_reset addr, c) (rw (p, s, a) refl))

  abbrev exited : Machine W → Machine W
  exited m = record m {
    pc = bit_and (int_of (tos m.rstack)) 0x0FFF;
    instr_cnt = bit_and (m.instr_cnt + 1) 0xFFFF;
    rstack = perform se_drop (alu_result 0 (tos m.dstack) (tos m.dstack)) m.rstack;
  }

  perform_none : (v : ℕ) (s : Stack) → perform 0 v s ≡ s
  unfolding perform effect_cells effect_stats
  perform_none v s = refl

  step-exit : (m : Machine W) → m.prog m.pc ≡ some exit → step devices m ≡ (none, exited m)
  unfolding step step_instr step_compute step_stacks count_instr decode
  step-exit m e = rw e (rw perform_none refl)

  -- What the stack returns to: a push and a drop keep all cells but the last one.
  push_drop_cells :
      (v w : ℕ) (s : Stack)
      → length s.cells ≡ 12
      → take 11 (perform se_drop w (perform se_push v s)).cells ≡ take 11 s.cells
  unfolding perform effect_cells
  push_drop_cells v w s h =
      take-all_but_last 11 s.cells (last_cell (some v ∷ all_but_last s.cells)) h

  tos-push : (v : ℕ) (s : Stack) → tos (perform se_push v s) ≡ some v
  unfolding tos perform effect_cells
  tos-push v s = refl

  -- A call of a 12-bit address that holds the return instruction comes back behind the call in two
  -- steps, modulo 2^12, which is to address 0 from the last one, if the return stack has its twelve
  -- cells: the data stack, the program and the quad memories are as before, and so are the upper eleven
  -- cells of the return stack, whose twelfth was pushed out.
  pub call_returns :
      (m : Machine W) (addr : ℕ)
      → addr < 2 ^ 12
      → length m.rstack.cells ≡ 12
      → m.prog m.pc ≡ some (call addr)
      → m.prog addr ≡ some exit
      → let m₁ = (step devices m).1 in
        let m₂ = (step devices m₁).1 in
        ((step devices m).0 ≡ none)
        × ((step devices m₁).0 ≡ none)
        × (m₂.pc ≡ (m.pc + 1) % 2 ^ 12)
        × (m₂.dstack ≡ m.dstack)
        × (m₂.prog ≡ m.prog)
        × (m₂.qram ≡ m.qram)
        × (m₂.qrom ≡ m.qrom)
        × (take 11 m₂.rstack.cells ≡ take 11 m.rstack.cells)
  call_returns m addr a d at_call at_exit = rw (step-call m addr a at_call) (
      rw (step-exit (called addr m) at_exit) (
        refl,
        refl,
        rw tos-push (and_ones 12 (m.pc + 1)),
        refl,
        refl,
        refl,
        refl,
        push_drop_cells (m.pc + 1) _ m.rstack d,
      ))

  -- A read of a uCode address that was never written is lost: the step reports no error, pushes
  -- nothing and counts no instruction, and the machine goes on behind it.
  pub undefined_read_is_lost :
      (m : Machine W) (instr : ℕ)
      → m.prog m.pc ≡ some instr
      → IsUcRead instr
      → m.prog (bit_and (int_of (tos m.dstack)) 0x0FFF) ≡ none
      → step devices m ≡ (none, record m { pc = m.pc + 1 })
  unfolding step step_instr step_compute step_access mem_perform
  undefined_read_is_lost m instr e h missing =
      rw e (rw (h.not_reset, h.ctrl) (rw h.memory (rw (h.read, h.range) (rw missing refl))))
