-- ===== src/Ucode/Compiler/MeaningValues.antt =====
-- fpga/ucode/ucode.js and fpga/ucode/ucode_sim.js: the values that the words of the table compute.
use Prim.Native.String.{String}
use u_fork.Prelude.{
  ℕ, ◌%◌, ◌^◌, ◌<◌, ◌≡◌, refl, sym, ◌∙◌, Bool, true, ◌==◌, not, ◌&&◌, some, bit_and, bit_or,
  bit_xor, arith,
}
use u_fork.Prelude.Masks.{and_ones, and_run, or_bit, bit_and-le, bit_or-lt, bit_xor-lt, xor_ones}
use u_fork.Ufork.Raw.{to_uint32}
use u_fork.Ucode.Stack.{Cell}
use u_fork.Ucode.Alu.{alu_result, alu_perform, low_word}
use u_fork.Ucode.Alu.Laws.{signed16, alu_result-lt, alu_explained}
use u_fork.Ucode.Machine.Step.{decode, select_a, select_b}
use u_fork.Ucode.Compiler.Streams.{codes}
use u_fork.Ucode.Compiler.Entries.{put, held_at, from_entries}
use u_fork.Ucode.Compiler.Table.{code, word_of, initial_words}
use u_fork.Ucode.Compiler.Meanings

-- An instruction that evaluates, neither RESET nor a memory instruction nor the illegal one, and
-- has these effects.
abbrev pub evaluates : ℕ → ℕ → ℕ → Bool
evaluates instr d r =
    not (instr == 0x11F0)
    && not (decode instr).ctrl
    && not (decode instr).r_pc
    && not ((decode instr).alu_op == 0xE)
    && not ((decode instr).alu_op == 0xF)
    && (decode instr).d_se == d
    && (decode instr).r_se == r

-- The code of a word in the table, with its effects on the two stacks.
abbrev pub Coded : String → ℕ → ℕ → ℕ → Type 0
Coded name instr d r =
    (word_of (codes name) initial_words ≡ some (code instr)) × (evaluates instr d r ≡ true)

-- What an instruction computes from the top of the data stack, the item below it, and the top of
-- the return stack.
abbrev pub value_of : ℕ → Cell → Cell → Cell → ℕ
value_of instr a b tors =
    let d = decode instr in alu_result d.alu_op (select_a d.sel_a a b tors) (select_b d.sel_b a)

pub Pushes-Coded :
    {name : String} {v : ℕ}
    → Meanings.Pushes name v
    → (instr : ℕ) × Coded name instr 2 0 × ((a b tors : Cell) → value_of instr a b tors ≡ v)
unfolding decode alu_result alu_perform low_word to_uint32 word_of initial_words from_entries
    held_at put
Pushes-Coded Meanings.zero_word = (0x02C0, (refl, refl), λ a b tors. refl)
Pushes-Coded Meanings.one_word = (0x02D6, (refl, refl), λ a b tors. refl)
Pushes-Coded Meanings.minus_one_word = (0x02F6, (refl, refl), λ a b tors. refl)
Pushes-Coded Meanings.true_word = (0x02F6, (refl, refl), λ a b tors. refl)
Pushes-Coded Meanings.false_word = (0x02C0, (refl, refl), λ a b tors. refl)
Pushes-Coded Meanings.lsb = (0x02D6, (refl, refl), λ a b tors. refl)
Pushes-Coded Meanings.msb = (0x02E6, (refl, refl), λ a b tors. refl)
Pushes-Coded Meanings.undef_word = (0x02C0, (refl, refl), λ a b tors. refl)
Pushes-Coded Meanings.nil_word = (0x02D6, (refl, refl), λ a b tors. refl)
Pushes-Coded Meanings.fix_zero = (0x02E6, (refl, refl), λ a b tors. refl)
Pushes-Coded Meanings.fix_minus_one = (0x02F6, (refl, refl), λ a b tors. refl)

-- The operations on one bit of a word, and with all of them.
pub pass_lem : (a : ℕ) (b : Cell) → a < 2 ^ 16 → alu_result 0 (some a) b ≡ a
unfolding alu_result alu_perform low_word to_uint32
pass_lem a b h = omega (arith, and_ones 16 (a % 2 ^ 32))

and_lem : (a b : ℕ) → a < 2 ^ 16 → alu_result 4 (some a) (some b) ≡ bit_and a b
unfolding alu_result alu_perform low_word to_uint32
and_lem a b h = omega (arith, and_ones 16 (bit_and a b % 2 ^ 32), bit_and-le a b)

or_lem : (a b : ℕ) → a < 2 ^ 16 → b < 2 ^ 16 → alu_result 6 (some a) (some b) ≡ bit_or a b
unfolding alu_result alu_perform low_word to_uint32
or_lem a b h k = omega (arith, and_ones 16 (bit_or a b % 2 ^ 32), bit_or-lt 16 a b h k)

xor_lem : (a b : ℕ) → a < 2 ^ 16 → b < 2 ^ 16 → alu_result 5 (some a) (some b) ≡ bit_xor a b
unfolding alu_result alu_perform low_word to_uint32
xor_lem a b h k = omega (arith, and_ones 16 (bit_xor a b % 2 ^ 32), bit_xor-lt 16 a b h k)

signed16_injective : (v w : ℕ) → v < 2 ^ 16 → w < 2 ^ 16 → signed16 v ≡ signed16 w → v ≡ w
signed16_injective v w hv hw e = ground arith

-- A shift is the word that stands for the signed number.
shifted :
    (op a y : ℕ)
    → y < 2 ^ 16
    → signed16 (alu_result op (some a) (some a)) ≡ signed16 y
    → alu_result op (some a) (some a) ≡ y
shifted op a y k e =
    signed16_injective (alu_result op (some a) (some a)) y (alu_result-lt op (some a) (some a)) k e

pub Maps-Coded :
    {name : String} {a y : ℕ}
    → a < 2 ^ 16
    → Meanings.Maps a name y
    → (instr : ℕ) × Coded name instr 3 0 × ((b tors : Cell) → value_of instr (some a) b tors ≡ y)
unfolding decode word_of initial_words from_entries held_at put
Maps-Coded {a = a} h Meanings.lsb_and =
    (0x0314, (refl, refl), λ b tors. and_lem a 1 h ∙ and_ones 1 a)
Maps-Coded {a = a} h Meanings.msb_and =
    (0x0324, (refl, refl), λ b tors. and_lem a 0x8000 h ∙ omega (arith, and_run 1 15 a))
Maps-Coded {a = a} h Meanings.lsb_or =
    (0x0316, (refl, refl), λ b tors. or_lem a 1 h (omega arith) ∙ omega (arith, or_bit 0 a))
Maps-Coded {a = a} h Meanings.msb_or =
    (0x0326, (refl, refl), λ b tors. or_lem a 0x8000 h (omega arith) ∙ omega (arith, or_bit 15 a))
Maps-Coded {a = a} h Meanings.invert =
    (0x0335, (refl, refl), λ b tors. xor_lem a 0xFFFF h (omega arith) ∙ xor_ones 16 a h)
Maps-Coded {a = a} h Meanings.negate =
    (0x03C2, (refl, refl), λ b tors. (alu_explained 0 a (omega arith) h).1)
Maps-Coded {a = a} h Meanings.increment =
    (0x0311, (refl, refl), λ b tors. (alu_explained a 1 h (omega arith)).0)
Maps-Coded {a = a} h Meanings.decrement =
    (0x0312, (refl, refl), λ b tors. (alu_explained a 1 h (omega arith)).1)
Maps-Coded {a = a} h Meanings.double =
    (0x0301, (refl, refl), λ b tors. (alu_explained a a h h).0 ∙ omega arith)
Maps-Coded {a = a} h Meanings.rol = (0x0307, (refl, refl), λ b tors. (alu_explained a a h h).3)
Maps-Coded {a = a} h Meanings.rol2 = (0x0308, (refl, refl), λ b tors. (alu_explained a a h h).4)
Maps-Coded {a = a} h Meanings.rol4 = (0x0309, (refl, refl), λ b tors. (alu_explained a a h h).5)
Maps-Coded {a = a} h Meanings.rol8 = (0x030A, (refl, refl), λ b tors. (alu_explained a a h h).6)
Maps-Coded {a = a} h (Meanings.asr {y} k e) =
    (0x030B, (refl, refl), λ b tors. shifted 0xB a y k ((alu_explained a a h h).7 ∙ sym e))
Maps-Coded {a = a} h (Meanings.asr2 {y} k e) =
    (0x030C, (refl, refl), λ b tors. shifted 0xC a y k ((alu_explained a a h h).8 ∙ sym e))
Maps-Coded {a = a} h (Meanings.asr4 {y} k e) =
    (0x030D, (refl, refl), λ b tors. shifted 0xD a y k ((alu_explained a a h h).9 ∙ sym e))
Maps-Coded {a = a} h (Meanings.halve {y} k e) =
    (0x030B, (refl, refl), λ b tors. shifted 0xB a y k ((alu_explained a a h h).7 ∙ sym e))
Maps-Coded {a = a} h Meanings.is_fix_word =
    (0x0324, (refl, refl), λ b tors. and_lem a 0x8000 h ∙ omega (arith, and_run 1 15 a))
Maps-Coded {a = a} h Meanings.int2fix =
    (0x0326, (refl, refl), λ b tors. or_lem a 0x8000 h (omega arith) ∙ omega (arith, or_bit 15 a))

pub Joins-Coded :
    {name : String} {a b y : ℕ}
    → a < 2 ^ 16
    → b < 2 ^ 16
    → Meanings.Joins a b name y
    → (instr : ℕ) × Coded name instr 7 0
      × ((tors : Cell) → value_of instr (some b) (some a) tors ≡ y)
unfolding decode word_of initial_words from_entries held_at put
Joins-Coded {a = a} {b = b} h k Meanings.plus =
    (0x0741, (refl, refl), λ tors. (alu_explained a b h k).0)
Joins-Coded {a = a} {b = b} h k Meanings.minus =
    (0x0742, (refl, refl), λ tors. (alu_explained a b h k).1)
Joins-Coded {a = a} {b = b} h k Meanings.times =
    (0x0743, (refl, refl), λ tors. (alu_explained a b h k).2)
Joins-Coded {a = a} {b = b} h k Meanings.and_words = (0x0744, (refl, refl), λ tors. and_lem a b h)
Joins-Coded {a = a} {b = b} h k Meanings.xor_words = (0x0745, (refl, refl), λ tors. xor_lem a b h k)
Joins-Coded {a = a} {b = b} h k Meanings.or_words = (0x0746, (refl, refl), λ tors. or_lem a b h k)
