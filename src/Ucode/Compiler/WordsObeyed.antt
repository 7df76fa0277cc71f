-- ===== src/Ucode/Compiler/WordsObeyed.antt =====
-- fpga/ucode/ucode.js and fpga/ucode/ucode_sim.js: the simulator does at the code of a word what
-- the word is meant to do.
use Prim.Native.String.{String}
use u_fork.Prelude.{
  ℕ, ◌+◌, ◌<◌, ◌≤◌, ◌≡◌, refl, sym, ap, ◌∙◌, Bool, true, false, ◌==◌, ==_iff, not, ◌&&◌, none, some,
  List, length, bit_and, arith,
}
use u_fork.Prelude.Int.{pos}
use u_fork.Ucode.Stack.{Stack, tos, nos, perform}
use u_fork.Ucode.Stack.Refinement.{Holds, effect, perform_refines}
use u_fork.Ucode.Machine.{Machine, Devices}
use u_fork.Ucode.Machine.Step.{decode, step_stacks, step_compute, count_instr, step_instr, step}
use u_fork.Ucode.Compiler.Streams.{codes}
use u_fork.Ucode.Compiler.Table.{code, directive, inherited, word_of, initial_words}
use u_fork.Ucode.Compiler.Meanings
use u_fork.Ucode.Compiler.MeaningValues.{evaluates, value_of}
use u_fork.Ucode.Compiler.MeaningEffects.{AreWords, tos-Top, nos-Next, Does-Effects}

-- A stack of the machine that holds these words, the top first.
pub record IsStackOf (xs : List ℕ) (s : Stack) : Type 0 where
  pub depth : length s.cells ≡ 12
  pub items : Holds s.cells xs
  pub count : s.cnt ≡ pos (length xs)

both : (a b : Bool) → (a && b) ≡ true → (a ≡ true) × (b ≡ true)
both true b h = (refl, h)
both false b h = cc

not-true : (b : Bool) → not b ≡ true → b ≡ false
not-true true h = cc
not-true false h = refl

some_code_injective : {i j : ℕ} → some (code i) ≡ some (code j) → i ≡ j
some_code_injective {i} e =
    ap
      (λ o. elim o [
        | some (code k) ↦ k
        | some (directive _) ↦ i
        | some (inherited _) ↦ i
        | none ↦ i
      ])
      e

perform-IsStackOf :
    (se v : ℕ) (xs ys : List ℕ) (s : Stack)
    → se < 8
    → IsStackOf xs s
    → effect se v xs ≡ some ys
    → length ys ≤ 12
    → IsStackOf ys (perform se v s)
perform-IsStackOf se v xs ys s n held eff fits =
    let depth = held.depth in
    let (items, count, kept) =
      perform_refines se v s xs ys n (omega (arith, depth)) held.items held.count eff
        (omega (arith, depth)) in
    record { depth = kept ∙ depth; items = items; count = count }

module _ {W : Type 0} (devices : Devices W) where
  -- A step at an instruction that evaluates, with its effects.
  step-evaluates :
      (m : Machine W) (instr d r : ℕ)
      → m.prog m.pc ≡ some instr
      → evaluates instr d r ≡ true
      → let v = value_of instr (tos m.dstack) (nos m.dstack) (tos m.rstack) in
        step devices m ≡ (
          none,
          record m {
            pc = m.pc + 1;
            instr_cnt = bit_and (m.instr_cnt + 1) 0xFFFF;
            dstack = perform d v m.dstack;
            rstack = perform r v m.rstack;
          },
        )
  unfolding step step_instr step_compute step_stacks count_instr
  step-evaluates m instr d r e h =
      let (h6, h7) = both _ ((decode instr).r_se == r) h in
      let (h5, d_se) = both _ ((decode instr).d_se == d) h6 in
      let (h4, no_mem) = both _ (not ((decode instr).alu_op == 0xF)) h5 in
      let (h3, no_fail) = both _ (not ((decode instr).alu_op == 0xE)) h4 in
      let (h2, no_pc) = both _ (not (decode instr).r_pc) h3 in
      let (no_reset, no_ctrl) = both (not (instr == 0x11F0)) (not (decode instr).ctrl) h2 in
      rw e (
        rw (not-true _ no_reset, not-true _ no_ctrl)
          (rw (not-true _ no_fail, not-true _ no_mem)
            (rw (not-true _ no_pc, (==_iff _ d).0 d_se, (==_iff _ r).0 h7) refl)))

  -- At the code that the compiler's table has for a word, a step of the simulator does to both
  -- stacks what the word is meant to do, if their items are words of 16 bits and there is room for
  -- the result; it reports no error, goes on to the next address, and leaves the program and the
  -- quad memories as they are. The words are those of the constants, the stacks, the arithmetic and
  -- the bits.
  pub words_obeyed :
      (m : Machine W) (name : String) (instr : ℕ) (ds rs ds' rs' : List ℕ)
      → word_of (codes name) initial_words ≡ some (code instr)
      → m.prog m.pc ≡ some instr
      → IsStackOf ds m.dstack
      → IsStackOf rs m.rstack
      → AreWords ds
      → AreWords rs
      → Meanings.Does rs name ds ds' rs'
      → length ds' ≤ 12
      → length rs' ≤ 12
      → let m' = (step devices m).1 in
        ((step devices m).0 ≡ none)
        × IsStackOf ds' m'.dstack
        × IsStackOf rs' m'.rstack
        × (m'.pc ≡ m.pc + 1)
        × (m'.prog ≡ m.prog)
        × (m'.qram ≡ m.qram)
        × (m'.qrom ≡ m.qrom)
  words_obeyed m name instr ds rs ds' rs' coded at_instr held_d held_r words_d words_r does fit_d
        fit_r =
      let (i, d, r, (in_table, evaluated), d_lt, r_lt, effects) =
        Does-Effects words_d words_r does in
      let same = some_code_injective (sym in_table ∙ coded) in
      let (eff_d, eff_r) =
        effects (tos m.dstack) (nos m.dstack) (tos m.rstack) (tos-Top ds m.dstack held_d.items)
          (nos-Next ds m.dstack held_d.items) (tos-Top rs m.rstack held_r.items) in
      rw (step-evaluates m i d r (at_instr ∙ ap some (sym same)) evaluated) (
        refl,
        perform-IsStackOf d _ ds ds' m.dstack d_lt held_d eff_d fit_d,
        perform-IsStackOf r _ rs rs' m.rstack r_lt held_r eff_r fit_r,
        refl,
        refl,
        refl,
        refl,
      )
