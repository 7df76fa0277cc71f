-- ===== src/Ucode/Machine/Step.antt =====
-- fpga/ucode/ucode_sim.js: step, one instruction of the uCode processor, and run_loop.
use u_fork.Prelude.{
  ℕ, zero, suc, ◌+◌, ◌-◌, ◌/◌, ◌^◌, ◌==◌, if◌then◌else◌, not, ◌&&◌, Bool, false, bit_and, Option,
  none, some,
}
use u_fork.Ucode.Stack.{Cell, tos, nos, perform, reset, se_drop, se_push, se_rplc}
use u_fork.Ucode.Alu.{int_of, op_fail, op_mem, alu_result}
use u_fork.Ucode.Machine.{
  Machine, Devices, Fault, program_address, illegal_control_instruction, illegal_instruction,
  Access, value, error, mem_perform, mem_pc,
}

-- The fields of an instruction word.
pub record Decoded : Type 0 where
  pub ctrl : Bool
  pub r_pc : Bool
  pub r_se : ℕ
  pub d_se : ℕ
  pub sel_a : ℕ
  pub sel_b : ℕ
  pub alu_op : ℕ

unfoldable pub decode : ℕ → Decoded
decode instr = record {
  ctrl = not (bit_and instr 0x8000 == 0);
  r_pc = not (bit_and instr 0x4000 == 0);
  r_se = bit_and instr 0x3000 / 2 ^ 12;
  d_se = bit_and instr 0x0700 / 2 ^ 8;
  sel_a = bit_and instr 0x00C0 / 2 ^ 6;
  sel_b = bit_and instr 0x0030 / 2 ^ 4;
  alu_op = bit_and instr 0x000F;
}

-- `c === 0`
abbrev pub is_zero : Cell → Bool
is_zero none = false
is_zero (some n) = n == 0

-- `(c - 1) & 0xFFFF` for a `c` that is not 0, and `(c + 1) & 0xFFFF`; NaN is read as 0.
abbrev pub counted_down : Cell → ℕ
counted_down none = 0
counted_down (some n) = bit_and (n - 1) 0xFFFF

abbrev pub counted_up : Cell → ℕ
counted_up none = 0
counted_up (some n) = bit_and (n + 1) 0xFFFF

abbrev pub select_a : ℕ → Cell → Cell → Cell → Cell
select_a sel tos nos tors =
    if sel == 0 then tos else if sel == 1 then nos else if sel == 2 then tors else some 0x0000

abbrev pub select_b : ℕ → Cell → Cell
select_b sel tos =
    if sel == 0
    then tos
    else if sel == 1
    then some 0x0001
    else if sel == 2
    then some 0x8000
    else some 0xFFFF

-- An instruction returns an error, or `undefined` early, or runs to its end.
pub data Ending : Type 0 where
  returns : Option Fault → Ending
  completes : Ending

module _ {W : Type 0} where
  -- A control instruction, behind the increment of `pc`; `tos` and `tors` were read before.
  unfoldable pub step_control : Decoded → ℕ → Cell → Cell → Machine W → Ending × Machine W
  step_control d addr tos tors m =
      let m = if d.r_pc then record m { rstack = perform se_push m.pc m.rstack } else m in
      if d.r_se == 0x0
      then (completes, record m { pc = addr })
      else if d.r_se == 0x1
      then (
        completes,
        record m { pc = if is_zero tos then addr else m.pc; dstack = perform se_drop 0 m.dstack },
      )
      else if not d.r_pc && not (bit_and d.r_se 0x2 == 0)
      then (
        completes,
        if is_zero tors then record m { rstack = perform se_drop 0 m.rstack } else record m {
          pc = addr;
          rstack =
              perform se_rplc
                (if bit_and d.r_se 0x1 == 0 then counted_up tors else counted_down tors) m.rstack;
        },
      )
      else (returns (some illegal_control_instruction), m)

  -- The stack operations at the end of any other instruction.
  unfoldable pub step_stacks : Decoded → Cell → ℕ → Machine W → Machine W
  step_stacks d tors result m = record m {
    pc = if d.r_pc then bit_and (int_of tors) 0x0FFF else m.pc;
    dstack = perform d.d_se result m.dstack;
    rstack = perform d.r_se result m.rstack;
  }

  unfoldable pub count_instr : Machine W → Machine W
  count_instr m = record m { instr_cnt = bit_and (m.instr_cnt + 1) 0xFFFF }

  module _ (devices : Devices W) where
    -- Behind a memory operation. A result that is no number is returned as it is.
    unfoldable pub step_access : Decoded → ℕ → Bool → Cell → Access → Machine W → Ending × Machine W
    step_access d range wr_en tors (error f) m = (returns (some f), m)
    step_access d range wr_en tors (value none) m = (returns none, m)
    step_access d range wr_en tors (value (some result)) m =
        let m = if range == mem_pc then record m { pc = m.pc + 1 } else m in
        let m = if wr_en then record m { dstack = perform se_drop 0 m.dstack } else m in
        (completes, step_stacks d tors result m)

    -- An instruction that is neither RESET nor a control instruction.
    unfoldable pub step_compute : ℕ → Decoded → Machine W → Ending × Machine W
    step_compute instr d m =
        let a = tos m.dstack in
        let b = nos m.dstack in
        let tors = tos m.rstack in
        if d.alu_op == op_fail
        then (returns (some (illegal_instruction instr)), m)
        else if d.alu_op == op_mem
        then (let wr_en = not (bit_and instr 0x0080 == 0) in
            let range = bit_and instr 0x0070 / 2 ^ 4 in
            let (access, m') = mem_perform devices range wr_en a b m in
            step_access d range wr_en tors access m')
        else (
          completes,
          step_stacks d tors (alu_result d.alu_op (select_a d.sel_a a b tors) (select_b d.sel_b a))
              m,
        )

    -- An instruction behind its fetch and the increment of `pc`.
    unfoldable pub step_instr : ℕ → Machine W → Ending × Machine W
    step_instr instr m =
        let d = decode instr in
        if instr == 0x11F0
        then (completes, record m { dstack = reset 12 m.dstack; rstack = reset 12 m.rstack })
        else if d.ctrl
        then step_control d (bit_and instr 0x0FFF) (tos m.dstack) (tos m.rstack) m
        else step_compute instr d m

    -- The value of `step()`, with `none` for `undefined`, and the machine after it.
    abbrev pub step_ending : Ending × Machine W → Option Fault × Machine W
    step_ending (returns result, m) = (result, m)
    step_ending (completes, m) = (none, count_instr m)

    abbrev pub step_fetched : Cell → Machine W → Option Fault × Machine W
    step_fetched none m = (some (program_address m.pc), m)
    step_fetched (some instr) m = step_ending (step_instr instr (record m { pc = m.pc + 1 }))

    unfoldable pub step : Machine W → Option Fault × Machine W
    step m = step_fetched (m.prog m.pc) m

    -- `run_loop` on fuel: `none` if the machine was still running.
    unfoldable pub run_loop : ℕ → Machine W → Option Fault × Machine W
    run_loop zero m = (none, m)
    run_loop (suc fuel) m =
        let (result, m') = step m in
        elim result [ none ↦ run_loop fuel m' | some fault ↦ (some fault, m') ]
