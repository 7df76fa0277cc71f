-- ===== src/Ucode/Compiler/Printer.antt =====
-- fpga/ucode/ucode.js: fast_disasm, invert_words, disasm and print_memh. The entries of `words` come
-- in the order of `Object.entries`.
use Prim.Native.Nat.{◌-◌}
use u_fork.Prelude.{
  ℕ, suc, ◌+◌, Bool, true, false, ◌==◌, ◌||◌, ◌&&◌, leb, not, if◌then◌else◌, List, [], ◌∷◌, ◌++◌,
  replicate, Option, none, some, bit_and, bit_or,
}
use u_fork.Hex.{from, is_terminator, is_space}
use u_fork.Ucode.Compiler.Codes.{addr_mask, uc_call}
use u_fork.Ucode.Compiler.Streams.{codes}
use u_fork.Ucode.Compiler.Table.{Word, code, directive, inherited}

-- `invert_words`: the names of a word, the first entry's first; of none there is no array. The keys
-- of the compiler functions are their source texts, which are never looked up.
unfoldable pub names_by_word : List (List ℕ × Word) → ℕ → List (List ℕ)
names_by_word [] word = []
names_by_word ((name, code n) ∷ entries) word =
    let rest = names_by_word entries word in if n == word then name ∷ rest else rest
names_by_word ((name, directive function) ∷ entries) word = names_by_word entries word
names_by_word ((name, inherited property) ∷ entries) word = names_by_word entries word

abbrev pub lit_text : List ℕ
lit_text = codes "(LIT)"

-- The name of a jump or call, by its bits.
unfoldable pub jump_text : ℕ → List ℕ
jump_text word =
    (if not (bit_and word 0x4000 == 0) then codes "call" else codes "jump")
    ++ (if not (bit_and word 0x3000 == 0)
        then if not (bit_and word 0x2000 == 0)
          then if not (bit_and word 0x1000 == 0) then codes "_ifnz_dec" else codes "_ifnz_inc"
          else codes "_ifzero"
        else [])

abbrev pub label_text : List (List ℕ) → List ℕ → List ℕ
label_text [] otherwise = otherwise
label_text (label ∷ labels) otherwise = label

module _ (names : ℕ → List (List ℕ)) where
  -- A word behind the test for an EXIT, with the text of one.
  unfoldable pub disasm_word : ℕ → List ℕ → List ℕ
  disasm_word word suffix =
      if not (bit_and word 0x8000 == 0)
      then jump_text word
        ++ (codes "("
            ++ (label_text (names (uc_call (bit_and word addr_mask)))
                  (codes "0x" ++ from (bit_and word addr_mask) 12)
                ++ codes ")"))
      else elim (names word) [ [] ↦ codes "0x" ++ from word 16 | name ∷ _ ↦ name ++ suffix ]

  unfoldable pub fast_disasm : ℕ → List ℕ
  fast_disasm word =
      if word == 0x021F
      then lit_text
      else if word == 0x521F
      then codes "(CONST)"
      else if bit_and word 0xF000 == 0x5000
      then disasm_word (bit_and word 0x0FFF) (codes " EXIT")
      else disasm_word word []

unfoldable pub disasm : ℕ → List (List ℕ × Word) → List ℕ
disasm word words = fast_disasm (names_by_word words) word

-- The length in UTF-16 code units.
abbrev pub nr_units : List ℕ → ℕ
nr_units [] = 0
nr_units (cp ∷ cps) = (if leb cp 0xFFFF then 1 else 2) + nr_units cps

unfoldable pub pad_end : ℕ → List ℕ → List ℕ
pad_end width text = text ++ replicate (width - nr_units text) 32

abbrev pub join : List ℕ → List (List ℕ) → List ℕ
join glue [] = []
join glue (text ∷ []) = text
join glue (text ∷ next ∷ texts) = text ++ (glue ++ join glue (next ∷ texts))

abbrev pub is_empty : List ℕ → Bool
is_empty [] = true
is_empty (c ∷ cs) = false

unfoldable pub is_white : ℕ → Bool
is_white unit = is_terminator unit || is_space unit

unfoldable pub trim_end : List ℕ → List ℕ
trim_end [] = []
trim_end (c ∷ cs) = let rest = trim_end cs in if is_white c && is_empty rest then [] else c ∷ rest

abbrev pub is_marked : Option ℕ → ℕ → Bool
is_marked none address = false
is_marked (some mark) address = address == mark

unfoldable pub line_comment : List (List ℕ × Word) → ℕ → ℕ → List ℕ
line_comment words word address =
    codes " "
    ++ (from address 12
        ++ (codes ": "
            ++ (pad_end 24 (fast_disasm (names_by_word words) word)
                ++ join (codes " ") (names_by_word words (bit_or 0xC000 address)))))

module _ (words : List (List ℕ × Word)) (mark_address : Option ℕ) where
  unfoldable pub format_line : ℕ → ℕ → List ℕ
  format_line word address = trim_end (
      (if is_marked mark_address address then codes ">>> " else codes "    ")
      ++ (from word 16 ++ (codes " //" ++ line_comment words word address)))

  -- `prog.map(format_line)`
  unfoldable pub format_lines : ℕ → List ℕ → List (List ℕ)
  format_lines address [] = []
  format_lines address (word ∷ prog) = format_line word address ∷ format_lines (suc address) prog

  unfoldable pub print_memh : List ℕ → List ℕ
  print_memh prog =
      join (codes "\n") (
        codes "/*  CODE    ADR  DISASM                  NAMES                     */"
        ∷ format_lines 0 prog)
      ++ codes "\n"
