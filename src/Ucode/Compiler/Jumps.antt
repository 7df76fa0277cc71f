-- ===== src/Ucode/Compiler/Jumps.antt =====
-- fpga/ucode/ucode.js and fpga/ucode/ucode_sim.js: what the simulator does at the words that the
-- compiler makes of jumps and calls.
use u_fork.Prelude.{
  ℕ, ◌+◌, ◌%◌, ◌/◌, ◌*◌, ◌^◌, ◌<◌, ◌≤◌, ◌≡◌, refl, ap, ◌∙◌, true, false, ◌==◌, if◌then◌else◌,
  bit_and, none, some, arith,
}
use u_fork.Prelude.Masks.{and_run, and_ones}
use u_fork.Ucode.Stack.{Cell, tos, perform, se_push, se_drop, se_rplc}
use u_fork.Ucode.Machine.{Machine, Devices}
use u_fork.Ucode.Machine.Step.{
  decode, is_zero, counted_up, counted_down, step_control, count_instr, step_instr, step,
}
use u_fork.Ucode.Compiler.Codes.{uc_jump, uc_jz, uc_jnz_inc, uc_jnz_dec, uc_call}
use u_fork.Ucode.Compiler.Fields.{
  uc_jump_lem, uc_jz_lem, uc_jnz_inc_lem, uc_jnz_dec_lem, uc_call_lem,
}

pub data Jump : Type 0 where
  always : Jump
  if_zero : Jump
  counting_up : Jump
  counting_down : Jump
  calling : Jump

-- The word that the compiler makes.
abbrev pub word_for : Jump → ℕ → ℕ
word_for always addr = uc_jump addr
word_for if_zero addr = uc_jz addr
word_for counting_up addr = uc_jnz_inc addr
word_for counting_down addr = uc_jnz_dec addr
word_for calling addr = uc_call addr

-- The upper four bits of that word.
abbrev field : Jump → ℕ
field always = 8
field if_zero = 9
field counting_up = 10
field counting_down = 11
field calling = 12

word_for_lem : (jump : Jump) (addr : ℕ) → word_for jump addr ≡ field jump * 4096 + addr % 4096
word_for_lem always addr = uc_jump_lem addr
word_for_lem if_zero addr = uc_jz_lem addr
word_for_lem counting_up addr = uc_jnz_inc_lem addr
word_for_lem counting_down addr = uc_jnz_dec_lem addr
word_for_lem calling addr = uc_call_lem addr

decoded :
    (h a : ℕ)
    → 8 ≤ h
    → h < 16
    → a < 4096
    → ((h * 4096 + a == 0x11F0) ≡ false)
      × ((decode (h * 4096 + a)).ctrl ≡ true)
      × ((decode (h * 4096 + a)).r_se ≡ h % 4)
      × (bit_and (h * 4096 + a) 0x0FFF ≡ a)
unfolding decode
decoded h a low high small = (
  ground arith,
  ground (arith, and_run 1 15 (h * 4096 + a)),
  omega (arith, and_run 2 12 (h * 4096 + a)),
  omega (arith, and_ones 12 (h * 4096 + a)),
)

returning : (h a : ℕ) → h / 4 ≡ 2 → a < 4096 → (decode (h * 4096 + a)).r_pc ≡ false
unfolding decode
returning h a e small = ground (arith, and_run 1 14 (h * 4096 + a))

pushing : (h a : ℕ) → h / 4 ≡ 3 → a < 4096 → (decode (h * 4096 + a)).r_pc ≡ true
unfolding decode
pushing h a e small = ground (arith, and_run 1 14 (h * 4096 + a))

module _ {W : Type 0} where
  -- A counted jump: the count is dropped if it is 0, and else replaced.
  abbrev counted : (Cell → ℕ) → ℕ → Machine W → Machine W
  counted count addr m =
      if is_zero (tos m.rstack)
      then record m { pc = m.pc + 1; rstack = perform se_drop 0 m.rstack }
      else record m { pc = addr; rstack = perform se_rplc (count (tos m.rstack)) m.rstack }

  -- What a jump or a call means to a machine.
  abbrev pub obeyed : Jump → ℕ → Machine W → Machine W
  obeyed always addr m = record m { pc = addr }
  obeyed if_zero addr m = record m {
    pc = if is_zero (tos m.dstack) then addr else m.pc + 1;
    dstack = perform se_drop 0 m.dstack;
  }
  obeyed counting_up addr m = counted counted_up addr m
  obeyed counting_down addr m = counted counted_down addr m
  obeyed calling addr m = record m { pc = addr; rstack = perform se_push (m.pc + 1) m.rstack }

  module _ (devices : Devices W) where
    obeys :
        (m : Machine W) (jump : Jump) (a : ℕ)
        → a < 4096
        → m.prog m.pc ≡ some (field jump * 4096 + a)
        → step devices m ≡ (none, count_instr (obeyed jump a m))
    unfolding step step_instr step_control count_instr
    obeys m always a h e =
        let (r, c, s, b) = decoded 8 a (omega arith) (omega arith) h in
        rw e (rw (r, c) (rw (returning 8 a refl h, s, b) refl))
    obeys m if_zero a h e =
        let (r, c, s, b) = decoded 9 a (omega arith) (omega arith) h in
        rw e (rw (r, c) (rw (returning 9 a refl h, s, b) refl))
    obeys m counting_up a h e =
        let (r, c, s, b) = decoded 10 a (omega arith) (omega arith) h in
        rw e (rw (r, c) (rw (returning 10 a refl h, s, b) refl))
    obeys m counting_down a h e =
        let (r, c, s, b) = decoded 11 a (omega arith) (omega arith) h in
        rw e (rw (r, c) (rw (returning 11 a refl h, s, b) refl))
    obeys m calling a h e =
        let (r, c, s, b) = decoded 12 a (omega arith) (omega arith) h in
        rw e (rw (r, c) (rw (pushing 12 a refl h, s, b) refl))

    -- A machine that is at a word the compiler made of a jump or a call does this jump or call, to the
    -- address's lower 12 bits, without an error.
    pub jumps_obeyed :
        (m : Machine W) (jump : Jump) (addr : ℕ)
        → m.prog m.pc ≡ some (word_for jump addr)
        → step devices m ≡ (none, count_instr (obeyed jump (addr % 2 ^ 12) m))
    jumps_obeyed m jump addr e =
        obeys m jump (addr % 4096) (omega arith) (e ∙ ap some (word_for_lem jump addr))
