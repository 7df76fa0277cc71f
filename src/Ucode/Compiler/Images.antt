-- ===== src/Ucode/Compiler/Images.antt =====
-- fpga/ucode/ucode.js: parse_memh reads back the program that print_memh wrote.
use u_fork.Prelude.{
  ℕ, zero, suc, ◌^◌, ◌≤◌, ◌<◌, ◌≡◌, refl, sym, ap, ◌∙◌, Bool, true, false, ◌&&◌, if_both, List, [],
  ◌∷◌, ◌++◌, map, length, length-append, append_assoc, arith, if◌then◌else◌, Option, some,
}
use mathlib.Core.Option.{map as map_option}
use u_fork.Prelude.Int.{pos}
use u_fork.Ufork.Raw.{to_int32}
use u_fork.Hex.{from, is_terminator, is_space}
use u_fork.Ucode.Compiler.Streams.{codes}
use u_fork.Ucode.Compiler.Table.{Word}
use u_fork.Ucode.Compiler.Printer.{
  join, is_empty, is_white, trim_end, line_comment, is_marked, format_line, format_lines,
  print_memh,
}
use u_fork.Ucode.Compiler.Reader.{
  seeking, in_line, next_mode, is_hex_digit, skip, start_number, parse_hex, read_on, parse_all,
  parse_memh,
}
use u_fork.Ucode.Compiler.Lines.{IsLine, uncons, HaveLines, trim_end-IsLine, line_comment-IsLine}
use u_fork.Ucode.Compiler.Numbers.{number_read}

line_skipped :
    (text more : List ℕ) → IsLine text → skip in_line (text ++ (10 ∷ more)) ≡ skip seeking more
unfolding skip next_mode
line_skipped [] more h = refl
line_skipped (c ∷ cs) more h =
    let (head, rest) = uncons c cs h in
    ap (λ b. skip (if b then seeking else in_line) (cs ++ (10 ∷ more))) head
    ∙ line_skipped cs more rest

-- A line is not trimmed beyond a character that is no space.
trim_end-append :
    (xs : List ℕ) (c : ℕ) (cs : List ℕ)
    → is_white c ≡ false
    → trim_end (xs ++ (c ∷ cs)) ≡ xs ++ (c ∷ trim_end cs)
unfolding trim_end
trim_end-append [] c cs h = ap (λ b. if b && is_empty (trim_end cs) then [] else c ∷ trim_end cs) h
trim_end-append (x ∷ xs) c cs h =
    ap (λ t. if is_white x && is_empty t then [] else x ∷ t) (trim_end-append xs c cs h)
    ∙ kept xs (is_white x)
  where
    kept :
        (ys : List ℕ) (b : Bool)
        → (if b && is_empty (ys ++ (c ∷ trim_end cs)) then [] else x ∷ ys ++ (c ∷ trim_end cs))
          ≡ x ∷ ys ++ (c ∷ trim_end cs)
    kept [] true = refl
    kept [] false = refl
    kept (y ∷ ys) true = refl
    kept (y ∷ ys) false = refl

-- Every word has 16 bits.
abbrev pub AllFit : List ℕ → Type 0
AllFit [] = Unit {0}
AllFit (word ∷ prog) = (word < 2 ^ 16) × AllFit prog

-- Lines with the line feeds behind them.
abbrev ended_lines : List (List ℕ) → List ℕ
ended_lines [] = []
ended_lines (line ∷ lines) = line ++ (10 ∷ ended_lines lines)

join_lines :
    (line : List ℕ) (lines : List (List ℕ))
    → join (codes "\n") (line ∷ lines) ++ codes "\n" ≡ line ++ (10 ∷ ended_lines lines)
join_lines line [] = refl
join_lines line (next ∷ lines) =
    append_assoc line _ (10 ∷ []) ∙ ap (λ t. line ++ (10 ∷ t)) (join_lines next lines)

not_negative : (word : ℕ) → word < 2 ^ 16 → to_int32 word ≡ pos word
unfolding to_int32
not_negative word h = ground arith

same_number :
    (fuel : ℕ) (xs ys : List ℕ)
    → parse_hex xs ≡ parse_hex ys
    → parse_all fuel xs ≡ parse_all fuel ys
unfolding parse_all
same_number zero xs ys e = refl
same_number (suc fuel) xs ys e = ap (λ o. read_on o (parse_all fuel)) e

module _ (words : List (List ℕ × Word)) (lines : HaveLines words) (mark_address : Option ℕ) where
  mark : ℕ → List ℕ
  mark address = if is_marked mark_address address then codes ">>> " else codes "    "

  comment : ℕ → ℕ → List ℕ
  comment word address = trim_end (line_comment words word address)

  line_shown :
      (word address : ℕ)
      → format_line words mark_address word address
        ≡ mark address ++ (from word 16 ++ (32 ∷ 47 ∷ 47 ∷ comment word address))
  unfolding format_line mark comment is_white is_terminator is_space
  line_shown word address =
      let shown = line_comment words word address in
      let start = mark address ++ (from word 16 ++ (32 ∷ 47 ∷ [])) in
      let split : (cs : List ℕ)
          → mark address ++ (from word 16 ++ (32 ∷ 47 ∷ 47 ∷ cs)) ≡ start ++ (47 ∷ cs) =
        λ cs.
          ap (λ t. mark address ++ t) (sym (append_assoc (from word 16) (32 ∷ 47 ∷ []) (47 ∷ cs)))
          ∙ sym (append_assoc (mark address) (from word 16 ++ (32 ∷ 47 ∷ [])) (47 ∷ cs)) in
      ap trim_end (split shown) ∙ trim_end-append start 47 shown refl ∙ sym (split (trim_end shown))

  -- What is left behind the word and the space of a line.
  left : ℕ → ℕ → List ℕ → List ℕ
  left word address more = 47 ∷ 47 ∷ comment word address ++ (10 ∷ more)

  mark_skipped : (address : ℕ) (text : List ℕ) → parse_hex (mark address ++ text) ≡ parse_hex text
  unfolding mark parse_hex skip next_mode is_hex_digit
  mark_skipped address text =
      if_both (λ m. parse_hex (m ++ text) ≡ parse_hex text) (is_marked mark_address address) refl
        refl

  line_read :
      (word address : ℕ) (more : List ℕ)
      → word < 2 ^ 16
      → parse_hex (format_line words mark_address word address ++ (10 ∷ more))
        ≡ some (word, left word address more)
  unfolding left
  line_read word address more small =
      let tail = 32 ∷ 47 ∷ 47 ∷ comment word address in
      ap (λ t. parse_hex (t ++ (10 ∷ more))) (line_shown word address)
      ∙ ap parse_hex (
          append_assoc (mark address) (from word 16 ++ tail) (10 ∷ more)
          ∙ ap (λ t. mark address ++ t) (append_assoc (from word 16) tail (10 ∷ more)))
      ∙ mark_skipped address (from word 16 ++ (32 ∷ left word address more))
      ∙ number_read word (left word address more) small

  left_skipped :
      (word address : ℕ) (more : List ℕ) → parse_hex (left word address more) ≡ parse_hex more
  unfolding left comment parse_hex skip next_mode is_hex_digit
  left_skipped word address more = ap start_number (
      line_skipped (comment word address) more
        (trim_end-IsLine _ (line_comment-IsLine words lines word address)))

  lines_read :
      (prog : List ℕ) (address fuel : ℕ)
      → AllFit prog
      → length prog < fuel
      → parse_all fuel (ended_lines (format_lines words mark_address address prog))
        ≡ some (map pos prog)
  unfolding parse_all read_on format_lines parse_hex start_number skip
  lines_read [] address zero fit enough = absurd (omega arith)
  lines_read [] address (suc fuel) fit enough = refl
  lines_read (word ∷ prog) address zero fit enough = absurd (omega arith)
  lines_read (word ∷ prog) address (suc fuel) (small, fit) enough =
      let more = ended_lines (format_lines words mark_address (suc address) prog) in
      ap (λ o. read_on o (parse_all fuel)) (line_read word address more small)
      ∙ ap (map_option (λ p. to_int32 word ∷ p)) (
          same_number fuel (left word address more) more (left_skipped word address more)
          ∙ lines_read prog (suc address) fuel fit (omega arith))
      ∙ ap (λ n. some (n ∷ map pos prog)) (not_negative word small)

  lines_counted :
      (prog : List ℕ) (address : ℕ)
      → length prog ≤ length (ended_lines (format_lines words mark_address address prog))
  unfolding format_lines
  lines_counted [] address = omega arith
  lines_counted (word ∷ prog) address =
      let line = format_line words mark_address word address in
      let more = ended_lines (format_lines words mark_address (suc address) prog) in
      omega (arith, length-append line (10 ∷ more), lines_counted prog (suc address))

  header_skipped :
      (text : List ℕ)
      → parse_hex (
          codes "/*  CODE    ADR  DISASM                  NAMES                     */"
          ++ (10 ∷ text))
        ≡ parse_hex text
  unfolding parse_hex skip next_mode is_hex_digit
  header_skipped text = refl

  -- The printed image of a program of 16-bit words is read back as the program, if no name has a
  -- line feed in it, whatever address is marked.
  pub parse_memh-print_memh :
      (prog : List ℕ)
      → AllFit prog
      → parse_memh (print_memh words mark_address prog) ≡ some (map pos prog)
  unfolding parse_memh print_memh
  parse_memh-print_memh prog fit =
      let header = codes "/*  CODE    ADR  DISASM                  NAMES                     */" in
      let shown = format_lines words mark_address 0 prog in
      let text = header ++ (10 ∷ ended_lines shown) in
      ap (λ t. parse_all (suc (length t)) t) (join_lines header shown)
      ∙ same_number (suc (length text)) text (ended_lines shown)
          (header_skipped (ended_lines shown))
      ∙ lines_read prog 0 (suc (length text)) fit
          (omega (arith, length-append header (10 ∷ ended_lines shown), lines_counted prog 0))
