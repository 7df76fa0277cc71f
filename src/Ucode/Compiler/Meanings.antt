-- ===== src/Ucode/Compiler/Meanings.antt =====
-- fpga/ucode/ucode.js: what the words of the compiler's table are meant to do, from the stack
-- comments beside them. The stacks are lists of words of 16 bits, the top first.
use Prim.Native.String.{String}
use u_fork.Prelude.{ℕ, ◌+◌, ◌-◌, ◌*◌, ◌/◌, ◌%◌, ◌^◌, ◌<◌, ◌≡◌, List, ◌∷◌, bit_and, bit_or, bit_xor}
use u_fork.Ucode.Alu.Laws.{rotate_left, signed16, floor_shift}

-- `( -- v )`
pub data Pushes : String → ℕ → Type 0 where
  zero_word : Pushes "0" 0
  one_word : Pushes "1" 1
  minus_one_word : Pushes "-1" 0xFFFF
  true_word : Pushes "TRUE" 0xFFFF
  false_word : Pushes "FALSE" 0
  lsb : Pushes "LSB" 1
  msb : Pushes "MSB" 0x8000
  undef_word : Pushes "#?" 0
  nil_word : Pushes "#nil" 1
  fix_zero : Pushes "#0" 0x8000
  fix_minus_one : Pushes "#-1" 0xFFFF

-- `( a -- y )`. The shifts to the right divide a signed number, rounded down.
pub data Maps (a : ℕ) : String → ℕ → Type 0 where
  lsb_and : Maps a "LSB&" (a % 2)
  msb_and : Maps a "MSB&" (a / 2 ^ 15 * 2 ^ 15)
  lsb_or : Maps a "LSB|" (a / 2 * 2 + 1)
  msb_or : Maps a "MSB|" (2 ^ 15 + a % 2 ^ 15)
  invert : Maps a "INVERT" (2 ^ 16 - 1 - a)
  negate : Maps a "NEGATE" ((2 ^ 16 - a) % 2 ^ 16)
  increment : Maps a "1+" ((a + 1) % 2 ^ 16)
  decrement : Maps a "1-" ((a + 2 ^ 16 - 1) % 2 ^ 16)
  double : Maps a "2*" (a * 2 % 2 ^ 16)
  rol : Maps a "ROL" (rotate_left 1 a)
  rol2 : Maps a "2ROL" (rotate_left 2 a)
  rol4 : Maps a "4ROL" (rotate_left 4 a)
  rol8 : Maps a "8ROL" (rotate_left 8 a)
  asr : {y : ℕ} → y < 2 ^ 16 → signed16 y ≡ floor_shift 1 (signed16 a) → Maps a "ASR" y
  asr2 : {y : ℕ} → y < 2 ^ 16 → signed16 y ≡ floor_shift 2 (signed16 a) → Maps a "2ASR" y
  asr4 : {y : ℕ} → y < 2 ^ 16 → signed16 y ≡ floor_shift 4 (signed16 a) → Maps a "4ASR" y
  halve : {y : ℕ} → y < 2 ^ 16 → signed16 y ≡ floor_shift 1 (signed16 a) → Maps a "2/" y
  is_fix_word : Maps a "is_fix" (a / 2 ^ 15 * 2 ^ 15)
  int2fix : Maps a "int2fix" (2 ^ 15 + a % 2 ^ 15)

-- `( a b -- y )`
pub data Joins (a b : ℕ) : String → ℕ → Type 0 where
  plus : Joins a b "+" ((a + b) % 2 ^ 16)
  minus : Joins a b "-" ((a + 2 ^ 16 - b) % 2 ^ 16)
  times : Joins a b "*" (a * b % 2 ^ 16)
  and_words : Joins a b "AND" (bit_and a b)
  xor_words : Joins a b "XOR" (bit_xor a b)
  or_words : Joins a b "OR" (bit_or a b)

-- What a word does to the data stack `ds` and to the return stack `rs`.
pub data Does (rs : List ℕ) : String → List ℕ → List ℕ → List ℕ → Type 0 where
  nop : {ds : List ℕ} → Does rs "NOP" ds ds rs
  debug : {ds : List ℕ} → Does rs "DEBUG" ds ds rs
  drop_word : {a : ℕ} {ds : List ℕ} → Does rs "DROP" (a ∷ ds) ds rs
  dup : {a : ℕ} {ds : List ℕ} → Does rs "DUP" (a ∷ ds) (a ∷ a ∷ ds) rs
  swap : {a b : ℕ} {ds : List ℕ} → Does rs "SWAP" (b ∷ a ∷ ds) (a ∷ b ∷ ds) rs
  over : {a b : ℕ} {ds : List ℕ} → Does rs "OVER" (b ∷ a ∷ ds) (a ∷ b ∷ a ∷ ds) rs
  rot : {a b c : ℕ} {ds : List ℕ} → Does rs "ROT" (c ∷ b ∷ a ∷ ds) (a ∷ c ∷ b ∷ ds) rs
  minus_rot : {a b c : ℕ} {ds : List ℕ} → Does rs "-ROT" (c ∷ b ∷ a ∷ ds) (b ∷ a ∷ c ∷ ds) rs
  to_r : {a : ℕ} {ds : List ℕ} → Does rs ">R" (a ∷ ds) ds (a ∷ rs)
  pushes : {name : String} {v : ℕ} {ds : List ℕ} → Pushes name v → Does rs name ds (v ∷ ds) rs
  maps : {name : String} {a y : ℕ} {ds : List ℕ} → Maps a name y → Does rs name (a ∷ ds) (y ∷ ds) rs
  joins :
      {name : String} {a b y : ℕ} {ds : List ℕ}
      → Joins a b name y
      → Does rs name (b ∷ a ∷ ds) (y ∷ ds) rs
  r_fetch :
      {a : ℕ} {ds rest : List ℕ} → ◌≡◌ {A = List ℕ} rs (a ∷ rest) → Does rs "R@" ds (a ∷ ds) rs
  r_from :
      {a : ℕ} {ds rest : List ℕ} → ◌≡◌ {A = List ℕ} rs (a ∷ rest) → Does rs "R>" ds (a ∷ ds) rest
  r_drop : {a : ℕ} {ds rest : List ℕ} → ◌≡◌ {A = List ℕ} rs (a ∷ rest) → Does rs "RDROP" ds ds rest
