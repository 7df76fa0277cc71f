-- ===== src/Ucode/Compiler/Table.antt =====
-- fpga/ucode/ucode.js: the words that the compiler starts with, and the properties that the object
-- `words` inherits.
use Prim.Native.String.{String}
use u_fork.Prelude.{ℕ, List, [], ◌∷◌, Option, none, some}
use u_fork.Ucode.Compiler.Streams.{codes}
use u_fork.Ucode.Compiler.Entries.{held_at, from_entries}

-- The compiler functions of the table, by their words.
pub data Directive : Type 0 where
  colon : Directive
  comma : Directive
  constant : Directive
  variable : Directive
  skz : Directive
  begin : Directive
  until : Directive
  while : Directive
  repeat : Directive
  loop_down : Directive
  loop_up : Directive
  index : Directive
  again : Directive
  if_zero : Directive
  else_part : Directive
  then_end : Directive
  semicolon : Directive

-- What a property that `words` inherits from Object.prototype does when it is called with no
-- arguments and no receiver: it returns a true value without an `error`, returns `false`, or throws;
-- `__proto__` is an object.
pub data Inherited : Type 0 where
  truthy : Inherited
  falsy : Inherited
  throws : Inherited
  object : Inherited

pub data Word : Type 0 where
  code : ℕ → Word
  directive : Directive → Word
  inherited : Inherited → Word

abbrev named : {A : Type 0} → List (String × A) → List (List ℕ × A)
named [] = []
named ((name, value) ∷ rest) = (codes name, value) ∷ named rest

abbrev pub object_prototype : List (List ℕ × Inherited)
object_prototype = named (
    ("constructor", truthy)
    ∷ ("toString", truthy)
    ∷ ("isPrototypeOf", falsy)
    ∷ ("__proto__", object)
    ∷ ("valueOf", throws)
    ∷ ("toLocaleString", throws)
    ∷ ("hasOwnProperty", throws)
    ∷ ("propertyIsEnumerable", throws)
    ∷ ("__defineGetter__", throws)
    ∷ ("__defineSetter__", throws)
    ∷ ("__lookupGetter__", throws)
    ∷ ("__lookupSetter__", throws)
    ∷ [])

-- The table in the order of the source.
abbrev table : List (List ℕ × Word)
table = named (
    ("NOP", code 0x0000)
    ∷ ("DEBUG", code 0x00F0)
    ∷ ("RESET", code 0x11F0)
    ∷ ("DROP", code 0x0100)
    ∷ ("DUP", code 0x0200)
    ∷ ("SWAP", code 0x0400)
    ∷ ("OVER", code 0x0240)
    ∷ ("ROT", code 0x0500)
    ∷ ("-ROT", code 0x0600)
    ∷ ("0", code 0x02C0)
    ∷ ("1", code 0x02D6)
    ∷ ("-1", code 0x02F6)
    ∷ ("TRUE", code 0x02F6)
    ∷ ("FALSE", code 0x02C0)
    ∷ ("LSB", code 0x02D6)
    ∷ ("MSB", code 0x02E6)
    ∷ ("LSB&", code 0x0314)
    ∷ ("MSB&", code 0x0324)
    ∷ ("LSB|", code 0x0316)
    ∷ ("MSB|", code 0x0326)
    ∷ ("INVERT", code 0x0335)
    ∷ ("NEGATE", code 0x03C2)
    ∷ ("+", code 0x0741)
    ∷ ("-", code 0x0742)
    ∷ ("*", code 0x0743)
    ∷ ("AND", code 0x0744)
    ∷ ("XOR", code 0x0745)
    ∷ ("OR", code 0x0746)
    ∷ ("ROL", code 0x0307)
    ∷ ("2ROL", code 0x0308)
    ∷ ("4ROL", code 0x0309)
    ∷ ("8ROL", code 0x030A)
    ∷ ("ASR", code 0x030B)
    ∷ ("2ASR", code 0x030C)
    ∷ ("4ASR", code 0x030D)
    ∷ ("1+", code 0x0311)
    ∷ ("1-", code 0x0312)
    ∷ ("2*", code 0x0301)
    ∷ ("2/", code 0x030B)
    ∷ ("@", code 0x030F)
    ∷ ("!", code 0x098F)
    ∷ ("IO@", code 0x033F)
    ∷ ("IO!", code 0x09BF)
    ∷ ("QT@", code 0x034F)
    ∷ ("QT!", code 0x09CF)
    ∷ ("QX@", code 0x035F)
    ∷ ("QX!", code 0x09DF)
    ∷ ("QY@", code 0x036F)
    ∷ ("QY!", code 0x09EF)
    ∷ ("QZ@", code 0x037F)
    ∷ ("QZ!", code 0x09FF)
    ∷ ("GCC@", code 0x032F)
    ∷ ("GCC!", code 0x09AF)
    ∷ (">R", code 0x2100)
    ∷ ("R>", code 0x1280)
    ∷ ("R@", code 0x0280)
    ∷ ("RDROP", code 0x1000)
    ∷ ("FAIL", code 0x000E)
    ∷ ("#?", code 0x02C0)
    ∷ ("#nil", code 0x02D6)
    ∷ ("#0", code 0x02E6)
    ∷ ("#-1", code 0x02F6)
    ∷ ("is_fix", code 0x0324)
    ∷ ("int2fix", code 0x0326)
    ∷ (":", directive colon)
    ∷ (",", directive comma)
    ∷ ("CONSTANT", directive constant)
    ∷ ("VARIABLE", directive variable)
    ∷ ("SKZ", directive skz)
    ∷ ("BEGIN", directive begin)
    ∷ ("UNTIL", directive until)
    ∷ ("WHILE", directive while)
    ∷ ("REPEAT", directive repeat)
    ∷ ("?LOOP-", directive loop_down)
    ∷ ("?LOOP+", directive loop_up)
    ∷ ("I", directive index)
    ∷ ("AGAIN", directive again)
    ∷ ("IF", directive if_zero)
    ∷ ("ELSE", directive else_part)
    ∷ ("THEN", directive then_end)
    ∷ (";", directive semicolon)
    ∷ ("EXIT", code 0x5000)
    ∷ [])

unfoldable pub initial_words : List (List ℕ × Word)
initial_words = from_entries table []

-- `words[token]`
unfoldable pub word_of : List ℕ → List (List ℕ × Word) → Option Word
word_of token words = elim (held_at token words) [
  | some word ↦ some word
  | none ↦ elim (held_at token object_prototype) [
    | none ↦ none
    | some property ↦ some (inherited property)
  ]
]
