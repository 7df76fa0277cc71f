-- ===== src/Ucode/Machine/Invariant.antt =====
-- fpga/ucode/ucode_sim.js: every step keeps the machine's words to 16 bits, its stacks to twelve
-- cells, its program to 12-bit addresses, and its program counter at most two beyond them.
use u_fork.Prelude.{
  if_both, ℕ, zero, suc, ◌+◌, ◌-◌, ◌/◌, ◌^◌, ◌≤◌, ◌<◌, ◌≡◌, refl, ◌==◌, if◌then◌else◌, not, ◌&&◌,
  Bool, true, false, bit_and, Option, none, some, ltb, Bool-cases, inl, inr, arith,
}
use u_fork.Ucode.Stack.{Cell, tos, nos, perform, se_drop, se_push, se_rplc}
use u_fork.Ucode.Alu.{int_of}
use u_fork.Ucode.Alu.Laws.{alu_result-lt}
use u_fork.Ucode.Machine.{Machine, Devices, Fault, Access, value, error, make_machine}
use u_fork.Ucode.Machine.Step.{
  Decoded, decode, counted_up, counted_down, is_zero, step_control, step_stacks, count_instr,
  Ending, step_access, step_compute, step_instr, step_ending, step_fetched, step, run_loop,
}
use u_fork.Ucode.Machine.Words.{
  IsWord, perform-IsWordStack, nos-IsWord, reset-IsWordStack, make_stack-IsWordStack, low_bits-lt,
  address-lt,
}
use u_fork.Ucode.Machine.Sound.{
  IsWordQuad, IsSound, ReadWords, with_instr_cnt, with_dstack, with_rstack, with_pc,
}
use u_fork.Ucode.Machine.Memory.{IsWordAccess, mem_perform-IsSound}

-- A sound machine whose program counter is at most two beyond the program memory.
pub record IsReady {W : Type 0} (m : Machine W) : Type 0 where
  pub sound : IsSound m
  pub pc : m.pc ≤ 2 ^ 12 + 1

counted_up-lt : (c : Cell) → counted_up c < 2 ^ 16
counted_up-lt none = omega arith
counted_up-lt (some n) = low_bits-lt (n + 1)

counted_down-lt : (c : Cell) → counted_down c < 2 ^ 16
counted_down-lt none = omega arith
counted_down-lt (some n) = low_bits-lt (n - 1)

module _ {W : Type 0} where
  -- A call saves `pc`.
  saved :
      (m : Machine W)
      → IsReady m
      → (r_pc : Bool)
      → IsReady (if r_pc then record m { rstack = perform se_push m.pc m.rstack } else m)
  saved m ok true = record {
    sound =
        with_rstack m ok.sound _
          (perform-IsWordStack m.rstack ok.sound.rstack se_push m.pc (omega (arith, ok.pc)));
    pc = ok.pc;
  }
  saved m ok false = ok

  module _ (m : Machine W) (ok : IsReady m) where
    moved : (n : ℕ) → n ≤ 2 ^ 12 + 1 → IsReady (record m { pc = n })
    moved n h = record { sound = with_pc m ok.sound n; pc = h }

    dropped : (v : ℕ) → v < 2 ^ 16 → IsReady (record m { dstack = perform se_drop v m.dstack })
    dropped v h = record {
      sound = with_dstack m ok.sound _ (perform-IsWordStack m.dstack ok.sound.dstack se_drop v h);
      pc = ok.pc;
    }

    returned : (se v : ℕ) → v < 2 ^ 16 → IsReady (record m { rstack = perform se v m.rstack })
    returned se v h = record {
      sound = with_rstack m ok.sound _ (perform-IsWordStack m.rstack ok.sound.rstack se v h);
      pc = ok.pc;
    }

    step_stacks-IsReady :
        (d : Decoded) (tors : Cell) (result : ℕ)
        → result < 2 ^ 16
        → IsReady (step_stacks d tors result m)
    unfolding step_stacks
    step_stacks-IsReady d tors result h = record {
      sound =
          with_pc _
            (with_rstack _
              (with_dstack m ok.sound _
                (perform-IsWordStack m.dstack ok.sound.dstack d.d_se result h))
              _ (perform-IsWordStack m.rstack ok.sound.rstack d.r_se result h))
            _;
      pc = if_both (λ n. n ≤ 2 ^ 12 + 1) d.r_pc (omega (arith, address-lt (int_of tors))) ok.pc;
    }

    count_instr-IsReady : IsReady (count_instr m)
    unfolding count_instr
    count_instr-IsReady = record {
      sound = with_instr_cnt m ok.sound _ (low_bits-lt (m.instr_cnt + 1));
      pc = ok.pc;
    }

  step_control-IsReady :
      (d : Decoded) (addr : ℕ) (tos tors : Cell) (m : Machine W)
      → addr < 2 ^ 12
      → IsReady m
      → IsReady (step_control d addr tos tors m).1
  unfolding step_control
  step_control-IsReady d addr tos tors m a ok =
      let m' = if d.r_pc then record m { rstack = perform se_push m.pc m.rstack } else m in
      let ok' : IsReady m' = saved m ok d.r_pc in
      let P = λ (r : Ending × Machine W). IsReady r.1 in
      if_both P (d.r_se == 0) (moved m' ok' addr (omega arith)) (
        if_both P (d.r_se == 1)
          (moved _ (dropped m' ok' 0 (omega arith)) _
            (if_both (λ n. n ≤ 2 ^ 12 + 1) (is_zero tos) (omega arith) ok'.pc))
          (if_both P (not d.r_pc && not (bit_and d.r_se 2 == 0))
            (if_both IsReady (is_zero tors) (returned m' ok' se_drop 0 (omega arith)) (
              moved _
                (returned m' ok' se_rplc _ (
                  if_both (λ n. n < 2 ^ 16) (bit_and d.r_se 1 == 0) (counted_up-lt tors)
                    (counted_down-lt tors)))
                addr (omega arith)))
            ok'))

  module _ (devices : Devices W) (words : ReadWords devices) where
    step_access-IsReady :
        (d : Decoded) (range : ℕ) (wr_en : Bool) (tors : Cell) (access : Access) (m : Machine W)
        → IsWordAccess access
        → IsSound m
        → m.pc ≤ 2 ^ 12
        → IsReady (step_access devices d range wr_en tors access m).1
    unfolding step_access
    step_access-IsReady d range wr_en tors (error f) m w ok p = record {
      sound = ok;
      pc = omega arith;
    }
    step_access-IsReady d range wr_en tors (value none) m w ok p = record {
      sound = ok;
      pc = omega arith;
    }
    step_access-IsReady d range wr_en tors (value (some result)) m w ok p =
        step_stacks-IsReady _ (if_both IsReady wr_en (dropped _ fetched 0 (omega arith)) fetched) d
          tors result w
      where
        fetched : IsReady (if range == 1 then record m { pc = m.pc + 1 } else m)
        fetched =
            if_both IsReady (range == 1)
              (record { sound = with_pc m ok (m.pc + 1); pc = omega arith })
              (record { sound = ok; pc = omega arith })

    step_compute-IsReady :
        (instr : ℕ) (d : Decoded) (m : Machine W)
        → IsSound m
        → m.pc ≤ 2 ^ 12
        → IsReady (step_compute devices instr d m).1
    unfolding step_compute
    step_compute-IsReady instr d m ok p =
        let P = λ (r : Ending × Machine W). IsReady r.1 in
        let wr_en = not (bit_and instr 0x80 == 0) in
        let range = bit_and instr 0x70 / 2 ^ 4 in
        let safe =
          mem_perform-IsSound m ok devices words range wr_en (tos m.dstack) (nos m.dstack)
            (nos-IsWord m.dstack ok.dstack) in
        let ready : IsReady m = record { sound = ok; pc = omega arith } in
        if_both P (d.alu_op == 0xE) ready (
          if_both P (d.alu_op == 0xF)
            (step_access-IsReady d range wr_en (tos m.rstack) _ _ safe.word safe.sound
              (rw safe.same_pc p))
            (step_stacks-IsReady m ready d (tos m.rstack) _ (alu_result-lt d.alu_op _ _)))

    step_instr-IsReady :
        (instr : ℕ) (m : Machine W)
        → IsSound m
        → m.pc ≤ 2 ^ 12
        → IsReady (step_instr devices instr m).1
    unfolding step_instr
    step_instr-IsReady instr m ok p =
        let P = λ (r : Ending × Machine W). IsReady r.1 in
        let ready : IsReady m = record { sound = ok; pc = omega arith } in
        if_both P (instr == 0x11F0)
          (record {
            sound =
                with_rstack _ (with_dstack m ok _ (reset-IsWordStack m.dstack)) _
                  (reset-IsWordStack m.rstack);
            pc = omega arith;
          })
          (if_both P (decode instr).ctrl
            (step_control-IsReady (decode instr) _ (tos m.dstack) (tos m.rstack) m
              (address-lt instr) ready)
            (step_compute-IsReady instr (decode instr) m ok p))

    step_ending-IsReady : (r : Ending × Machine W) → IsReady r.1 → IsReady (step_ending devices r).1
    step_ending-IsReady (Ending.returns f, m) ok = ok
    step_ending-IsReady (Ending.completes, m) ok = count_instr-IsReady m ok

    -- An instruction that is fetched stands in the program memory.
    fetched-lt :
        (m : Machine W) → IsSound m → (instr : ℕ) → m.prog m.pc ≡ some instr → m.pc < 2 ^ 12
    fetched-lt m ok instr e = elim (Bool-cases (ltb m.pc (2 ^ 12))) [
      | inl inside ↦ ground arith
      | inr outside ↦ absurd (ground (arith, ok.prog_end m.pc (ground arith)))
    ]

    step_fetched-IsReady :
        (fetch : Cell) (m : Machine W)
        → m.prog m.pc ≡ fetch
        → IsReady m
        → IsReady (step_fetched devices fetch m).1
    step_fetched-IsReady none m e ok = ok
    step_fetched-IsReady (some instr) m e ok = step_ending-IsReady _ (
        step_instr-IsReady instr _ (with_pc m ok.sound (m.pc + 1))
          (omega (arith, fetched-lt m ok.sound instr e)))

    -- Every step of a ready machine leaves it ready, whatever instruction it meets and whether it
    -- stops or not: words of 16 bits, stacks of twelve cells, a program of 12-bit addresses, and a
    -- program counter of at most 2^12 + 1; the devices must be read as words.
    pub step-IsReady : (m : Machine W) → IsReady m → IsReady (step devices m).1
    unfolding step
    step-IsReady m ok = step_fetched-IsReady (m.prog m.pc) m refl ok

    -- So does a run of any length.
    pub run_loop-IsReady :
        (fuel : ℕ) (m : Machine W) → IsReady m → IsReady (run_loop devices fuel m).1
    unfolding run_loop
    run_loop-IsReady zero m ok = ok
    run_loop-IsReady (suc fuel) m ok =
        let ready = step-IsReady m ok in
        elim (step devices m).0 as (λ r. IsReady (ended r).1) [
          | none ↦ run_loop-IsReady fuel (step devices m).1 ready
          | some fault ↦ ready
        ]
      where
        ended : Option Fault → Option Fault × Machine W
        ended r = elim r [
          | none ↦ run_loop devices fuel (step devices m).1
          | some fault ↦ (some fault, (step devices m).1)
        ]

  -- The machine that `make_machine` returns is ready, for a program of 12-bit addresses and words.
  pub make_machine-IsReady :
      (prog : ℕ → Cell) (world : W)
      → ((i : ℕ) → IsWord (prog i))
      → ((i : ℕ) → 2 ^ 12 ≤ i → prog i ≡ none)
      → IsReady (make_machine prog world)
  unfolding make_machine
  make_machine-IsReady prog world h k = record {
    sound = record {
      instr_cnt = omega arith;
      dstack = make_stack-IsWordStack;
      rstack = make_stack-IsWordStack;
      gcc = λ i. if_both IsWord (ltb i (2 ^ 12)) (omega arith) tt;
      qram = λ i. if_both IsWordQuad (ltb i (2 ^ 12)) dead no_quad;
      qrom = λ i. if_both IsWordQuad (ltb i (2 ^ 13)) dead no_quad;
      prog = h;
      prog_end = k;
    };
    pc = omega arith;
  }
    where
      dead :
          IsWordQuad (record { t = some 0xDEAD; x = some 0xDEAD; y = some 0xDEAD; z = some 0xDEAD })
      dead = omega arith

      no_quad : IsWordQuad (record { t = none; x = none; y = none; z = none })
      no_quad = record { t = tt; x = tt; y = tt; z = tt }
