-- ===== src/Ucode/Machine/Faults.antt =====
-- fpga/ucode/ucode_sim.js: what stops a run of the machine, and what should but does not.
use u_fork.Prelude.{
  if_both, if_cases, ℕ, ◌+◌, ◌/◌, ◌^◌, ◌≤◌, ◌<◌, ◌≡◌, refl, ◌==◌, not, ◌&&◌, ◌||◌, Bool, true,
  false, bit_and, Option, none, some, Bool-cases, inl, inr, arith,
}
use u_fork.Prelude.Masks.{and_run}
use u_fork.Ucode.Stack.{Cell, tos, nos}
use u_fork.Ucode.Machine.{
  Machine, Devices, Fault, unknown_device, illegal_memory_operation, program_address,
  illegal_control_instruction, illegal_instruction, Access, value, error, mem_device, mem_quad,
  mem_perform, Bank,
}
use u_fork.Ucode.Machine.Step.{
  Decoded, decode, step_control, Ending, step_access, step_compute, step_instr, step_ending,
  step_fetched, step,
}

module _ {W : Type 0} (devices : Devices W) where
  -- The faults that a memory operation on a range of three bits can give.
  abbrev DeviceOnly : Access → Type 0
  DeviceOnly (error (illegal_memory_operation r a)) = ⊥
  DeviceOnly (error (program_address a)) = ⊥
  DeviceOnly (error illegal_control_instruction) = ⊥
  DeviceOnly (error (illegal_instruction i)) = ⊥
  DeviceOnly (error (unknown_device id reg)) = (id == 0xE || devices.present id) ≡ false
  DeviceOnly (value v) = Unit {0}

  range_bits : (instr : ℕ) → bit_and instr 0x70 / 2 ^ 4 < 8
  range_bits instr = omega (arith, and_run 3 4 instr)

  quad_range : (range : ℕ) → range < 8 → 4 ≤ range → bit_and range 4 ≡ 4
  quad_range range h k = omega (arith, and_run 1 2 range)

  mem_quad-DeviceOnly :
      (bank : Bank) (wr_en : Bool) (field : ℕ) (v : Cell) (m : Machine W)
      → DeviceOnly (mem_quad devices bank wr_en field v m).0
  unfolding mem_quad
  mem_quad-DeviceOnly (Bank.ram i) wr_en field v m = tt
  mem_quad-DeviceOnly (Bank.rom i) wr_en field v m = tt
  mem_quad-DeviceOnly Bank.nowhere wr_en field v m = tt

  mem_device-DeviceOnly :
      (wr_en : Bool) (id reg : ℕ) (v : Cell) (m : Machine W)
      → DeviceOnly (mem_device devices wr_en id reg v m).0
  unfolding mem_device
  mem_device-DeviceOnly wr_en id reg v m = elim (Bool-cases (id == 0xE || devices.present id)) [
    | inl here ↦ rw here (if_both (λ (r : Access × Machine W). DeviceOnly r.0) wr_en tt tt)
    | inr missing ↦ rw missing missing
  ]

  mem_perform-DeviceOnly :
      (range : ℕ) (wr_en : Bool) (a v : Cell) (m : Machine W)
      → range < 8
      → DeviceOnly (mem_perform devices range wr_en a v m).0
  unfolding mem_perform
  mem_perform-DeviceOnly range wr_en a v m h =
      let P = λ (r : Access × Machine W). DeviceOnly r.0 in
      if_cases P (range == 0) (λ _. tt)
        (λ not0.
          if_cases P (range == 1) (λ _. tt)
            (λ not1.
              if_cases P (range == 2) (λ _. tt)
                (λ not2.
                  if_cases P (range == 3) (λ _. mem_device-DeviceOnly wr_en _ _ v m)
                    (λ not3.
                      if_cases P (not (bit_and range 4 == 0))
                        (λ _. mem_quad-DeviceOnly _ wr_en _ v m)
                        (λ low. absurd (ground (arith, quad_range range h)))))))

  -- Why a step at the fetched cell returns a fault.
  abbrev pub Explains : ℕ → Cell → Fault → Type 0
  Explains pc fetch (program_address a) = (a ≡ pc) × (fetch ≡ none)
  Explains pc fetch (illegal_instruction i) =
      (fetch ≡ some i) × ((decode i).ctrl ≡ false) × ((decode i).alu_op ≡ 0xE)
  Explains pc fetch illegal_control_instruction =
      (i : ℕ) × (fetch ≡ some i)
      × ((decode i).ctrl ≡ true)
      × ((decode i).r_pc ≡ true)
      × (2 ≤ (decode i).r_se)
  Explains pc fetch (unknown_device id reg) =
      (i : ℕ) × (fetch ≡ some i)
      × ((decode i).alu_op ≡ 0xF)
      × ((id == 0xE || devices.present id) ≡ false)
  Explains pc fetch (illegal_memory_operation range a) = ⊥

  abbrev pub ExplainsResult : ℕ → Cell → Option Fault → Type 0
  ExplainsResult pc fetch none = Unit {0}
  ExplainsResult pc fetch (some f) = Explains pc fetch f

  abbrev ExplainsEnding : ℕ → ℕ → Ending → Type 0
  ExplainsEnding pc instr (Ending.returns r) = ExplainsResult pc (some instr) r
  ExplainsEnding pc instr Ending.completes = Unit {0}

  control_bits : (r_se : ℕ) → r_se < 4 → 2 ≤ r_se → bit_and r_se 2 ≡ 2
  control_bits r_se h k = omega (arith, and_run 1 1 r_se)

  r_se-lt : (instr : ℕ) → (decode instr).r_se < 4
  unfolding decode
  r_se-lt instr = omega (arith, and_run 2 12 instr)

  step_control_explained :
      (pc instr : ℕ) (addr : ℕ) (a tors : Cell) (m : Machine W)
      → (decode instr).ctrl ≡ true
      → ExplainsEnding pc instr (step_control (decode instr) addr a tors m).0
  unfolding step_control
  step_control_explained pc instr addr a tors m c =
      let d = decode instr in
      let P = λ (r : Ending × Machine W). ExplainsEnding pc instr r.0 in
      if_cases P (d.r_se == 0) (λ _. tt)
        (λ not0.
          if_cases P (d.r_se == 1) (λ _. tt)
            (λ not1.
              if_cases P (not d.r_pc && not (bit_and d.r_se 2 == 0)) (λ _. tt)
                (λ bad. (
                  instr,
                  refl,
                  c,
                  ground (arith, control_bits d.r_se, r_se-lt instr),
                  ground arith,
                ))))

  step_access_explained :
      (pc instr : ℕ) (d : Decoded) (range : ℕ) (wr_en : Bool) (tors : Cell) (access : Access)
      (m : Machine W)
      → (decode instr).alu_op ≡ 0xF
      → DeviceOnly access
      → ExplainsEnding pc instr (step_access devices d range wr_en tors access m).0
  unfolding step_access
  step_access_explained pc instr d range wr_en tors (value none) m o h = tt
  step_access_explained pc instr d range wr_en tors (value (some v)) m o h = tt
  step_access_explained pc instr d range wr_en tors (error (unknown_device id reg)) m o h =
      (instr, refl, o, h)
  step_access_explained pc instr d range wr_en tors (error (illegal_memory_operation r a)) m o h = h
  step_access_explained pc instr d range wr_en tors (error (program_address a)) m o h = absurd h
  step_access_explained pc instr d range wr_en tors (error illegal_control_instruction) m o h =
      absurd h
  step_access_explained pc instr d range wr_en tors (error (illegal_instruction i)) m o h = absurd h

  step_compute_explained :
      (pc instr : ℕ) (m : Machine W)
      → (decode instr).ctrl ≡ false
      → ExplainsEnding pc instr (step_compute devices instr (decode instr) m).0
  unfolding step_compute
  step_compute_explained pc instr m c =
      let d = decode instr in
      let P = λ (r : Ending × Machine W). ExplainsEnding pc instr r.0 in
      if_cases P (d.alu_op == 0xE) (λ fail. (refl, c, ground arith))
        (λ _.
          if_cases P (d.alu_op == 0xF)
            (λ memory.
              step_access_explained pc instr d (bit_and instr 0x70 / 2 ^ 4)
                (not (bit_and instr 0x80 == 0)) (tos m.rstack) _
                (mem_perform devices (bit_and instr 0x70 / 2 ^ 4) (not (bit_and instr 0x80 == 0))
                  (tos m.dstack) (nos m.dstack) m).1
                (ground arith)
                (mem_perform-DeviceOnly _ _ (tos m.dstack) (nos m.dstack) m (range_bits instr)))
            (λ _. tt))

  step_instr_explained :
      (pc instr : ℕ) (m : Machine W) → ExplainsEnding pc instr (step_instr devices instr m).0
  unfolding step_instr
  step_instr_explained pc instr m =
      let P = λ (r : Ending × Machine W). ExplainsEnding pc instr r.0 in
      if_cases P (instr == 0x11F0) (λ _. tt)
        (λ _.
          if_cases P (decode instr).ctrl
            (λ c. step_control_explained pc instr _ (tos m.dstack) (tos m.rstack) m c)
            (λ c. step_compute_explained pc instr m c))

  step_ending_explained :
      (pc instr : ℕ) (r : Ending × Machine W)
      → ExplainsEnding pc instr r.0
      → ExplainsResult pc (some instr) (step_ending devices r).0
  step_ending_explained pc instr (Ending.returns f, m) h = h
  step_ending_explained pc instr (Ending.completes, m) h = tt

  step_fetched_explained :
      (fetch : Cell) (m : Machine W) → ExplainsResult m.pc fetch (step_fetched devices fetch m).0
  step_fetched_explained none m = (refl, refl)
  step_fetched_explained (some instr) m =
      step_ending_explained m.pc instr _
        (step_instr_explained m.pc instr (record m { pc = m.pc + 1 }))

  -- A step returns a fault only for its reason: no instruction at `pc`, the illegal ALU operation,
  -- a control instruction that calls and counts, or a device that is neither the performance device
  -- nor supplied. The error for an illegal memory operation never occurs.
  pub step_explained : (m : Machine W) → ExplainsResult m.pc (m.prog m.pc) (step devices m).0
  unfolding step
  step_explained m = step_fetched_explained (m.prog m.pc) m
