-- ===== src/Ucode/Compiler/Lines.antt =====
-- fpga/ucode/ucode.js: what print_memh writes behind a word has no line break in it.
use u_fork.Prelude.{
  ℕ, zero, suc, ◌/◌, ◌%◌, ◌<◌, ◌≡◌, refl, ap, ◌∙◌, Bool, true, false, ◌==◌, ◌&&◌, not, if_both,
  List, [], ◌∷◌, ◌++◌, replicate, bit_and, bit_or, arith, if◌then◌else◌,
}
use native.Mathlib.Nat.{mod-lt}
use u_fork.Hex.{digit, to_string16, pad_start, from}
use u_fork.Ucode.Compiler.Streams.{codes}
use u_fork.Ucode.Compiler.Codes.{addr_mask, uc_call}
use u_fork.Ucode.Compiler.Table.{Word, code, directive, inherited}
use u_fork.Ucode.Compiler.Printer.{
  names_by_word, jump_text, label_text, disasm_word, fast_disasm, pad_end, join, is_empty, is_white,
  trim_end, line_comment,
}

-- A text without a line feed.
abbrev pub is_line : List ℕ → Bool
is_line [] = true
is_line (c ∷ cs) = not (c == 10) && is_line cs

pub record IsLine (text : List ℕ) : Type 0 where
  pub whole : is_line text ≡ true

-- A literal, by its test.
pub literal : {text : List ℕ} → is_line text ≡ true → IsLine text
literal h = record { whole = h }

abbrev pub AllLines : List (List ℕ) → Type 0
AllLines [] = Unit {0}
AllLines (text ∷ texts) = IsLine text × AllLines texts

-- Names without a line feed, as all names that a source text can define.
abbrev pub HaveLines : List (List ℕ × Word) → Type 0
HaveLines [] = Unit {0}
HaveLines ((name, word) ∷ entries) = IsLine name × HaveLines entries

both : (a b : Bool) → (a && b) ≡ true → (a ≡ true) × (b ≡ true)
both true b h = (refl, h)
both false b h = absurd (cc)

pub IsLine-cons : (c : ℕ) (cs : List ℕ) → (c == 10) ≡ false → IsLine cs → IsLine (c ∷ cs)
IsLine-cons c cs e h = literal (ap (λ b. not b && is_line cs) e ∙ h.whole)

-- The head and the rest of a text.
pub uncons : (c : ℕ) (cs : List ℕ) → IsLine (c ∷ cs) → ((c == 10) ≡ false) × IsLine cs
uncons c cs h =
    let (head, rest) = both (not (c == 10)) (is_line cs) h.whole in
    (flipped (c == 10) head, literal rest)
  where
    flipped : (b : Bool) → not b ≡ true → b ≡ false
    flipped false h = refl
    flipped true h = absurd (cc)

pub IsLine-append : (xs ys : List ℕ) → IsLine xs → IsLine ys → IsLine (xs ++ ys)
IsLine-append [] ys h k = k
IsLine-append (x ∷ xs) ys h k =
    let (head, rest) = uncons x xs h in IsLine-cons x (xs ++ ys) head (IsLine-append xs ys rest k)

IsLine-replicate : (n c : ℕ) → (c == 10) ≡ false → IsLine (replicate n c)
IsLine-replicate zero c e = literal refl
IsLine-replicate (suc n) c e = IsLine-cons c (replicate n c) e (IsLine-replicate n c e)

digit_shown : (d : ℕ) → d < 16 → (digit d == 10) ≡ false
unfolding digit
digit_shown d h = ground arith

to_string16-IsLine : (fuel n : ℕ) → IsLine (to_string16 fuel n)
unfolding to_string16
to_string16-IsLine zero n = literal refl
to_string16-IsLine (suc fuel) n =
    IsLine-append _ (digit (n % 16) ∷ [])
      (if_both IsLine (n / 16 == 0) (literal refl) (to_string16-IsLine fuel (n / 16)))
      (IsLine-cons (digit (n % 16)) [] (digit_shown (n % 16) (mod-lt n (omega arith)))
        (literal refl))

from-IsLine : (n bits : ℕ) → IsLine (from n bits)
unfolding from pad_start
from-IsLine n bits =
    IsLine-append _ (to_string16 14 n) (IsLine-replicate _ 48 refl) (to_string16-IsLine 14 n)

jump_text-IsLine : (word : ℕ) → IsLine (jump_text word)
unfolding jump_text
jump_text-IsLine word =
    IsLine-append (if not (bit_and word 0x4000 == 0) then codes "call" else codes "jump") _
      (if_both IsLine (not (bit_and word 0x4000 == 0)) (literal refl) (literal refl))
      (if_both IsLine (not (bit_and word 0x3000 == 0))
        (if_both IsLine (not (bit_and word 0x2000 == 0))
          (if_both IsLine (not (bit_and word 0x1000 == 0)) (literal refl) (literal refl))
          (literal refl))
        (literal refl))

names_by_word-AllLines :
    (words : List (List ℕ × Word)) (n : ℕ) → HaveLines words → AllLines (names_by_word words n)
unfolding names_by_word
names_by_word-AllLines [] n h = tt
names_by_word-AllLines ((name, code m) ∷ entries) n (h, k) =
    let rest = names_by_word-AllLines entries n k in if_both AllLines (m == n) (h, rest) rest
names_by_word-AllLines ((name, directive function) ∷ entries) n (_, k) =
    names_by_word-AllLines entries n k
names_by_word-AllLines ((name, inherited property) ∷ entries) n (_, k) =
    names_by_word-AllLines entries n k

join-IsLine :
    (glue : List ℕ) (texts : List (List ℕ))
    → IsLine glue
    → AllLines texts
    → IsLine (join glue texts)
join-IsLine glue [] g h = literal refl
join-IsLine glue (text ∷ []) g (h, _) = h
join-IsLine glue (text ∷ next ∷ texts) g (h, k) =
    IsLine-append text _ h (IsLine-append glue _ g (join-IsLine glue (next ∷ texts) g k))

pub trim_end-IsLine : (text : List ℕ) → IsLine text → IsLine (trim_end text)
unfolding trim_end
trim_end-IsLine [] h = h
trim_end-IsLine (c ∷ cs) h =
    let (head, rest) = uncons c cs h in
    if_both IsLine (is_white c && is_empty (trim_end cs)) (literal refl)
      (IsLine-cons c (trim_end cs) head (trim_end-IsLine cs rest))

module _ (words : List (List ℕ × Word)) (lines : HaveLines words) where
  label-IsLine :
      (n addr : ℕ) → IsLine (label_text (names_by_word words n) (codes "0x" ++ from addr 12))
  label-IsLine n addr = shown (names_by_word words n) (names_by_word-AllLines words n lines)
    where
      shown :
          (names : List (List ℕ))
          → AllLines names
          → IsLine (label_text names (codes "0x" ++ from addr 12))
      shown [] h = IsLine-append (codes "0x") _ (literal refl) (from-IsLine addr 12)
      shown (name ∷ names) (h, _) = h

  disasm_word-IsLine :
      (n : ℕ) (suffix : List ℕ)
      → IsLine suffix
      → IsLine (disasm_word (names_by_word words) n suffix)
  unfolding disasm_word
  disasm_word-IsLine n suffix s =
      if_both IsLine (not (bit_and n 0x8000 == 0))
        (IsLine-append (jump_text n) _ (jump_text-IsLine n) (
          IsLine-append (codes "(") _ (literal refl) (
            IsLine-append
              (label_text (names_by_word words (uc_call (bit_and n addr_mask)))
                (codes "0x" ++ from (bit_and n addr_mask) 12))
              (codes ")") (label-IsLine (uc_call (bit_and n addr_mask)) (bit_and n addr_mask))
              (literal refl))))
        (shown (names_by_word words n) (names_by_word-AllLines words n lines))
    where
      shown :
          (names : List (List ℕ))
          → AllLines names
          → IsLine (elim names [ [] ↦ codes "0x" ++ from n 16 | name ∷ _ ↦ name ++ suffix ])
      shown [] h = IsLine-append (codes "0x") _ (literal refl) (from-IsLine n 16)
      shown (name ∷ names) (h, _) = IsLine-append name suffix h s

  fast_disasm-IsLine : (n : ℕ) → IsLine (fast_disasm (names_by_word words) n)
  unfolding fast_disasm
  fast_disasm-IsLine n = if_both IsLine (n == 0x021F) (literal refl) (
      if_both IsLine (n == 0x521F) (literal refl) (
        if_both IsLine (bit_and n 0xF000 == 0x5000)
          (disasm_word-IsLine (bit_and n 0x0FFF) (codes " EXIT") (literal refl))
          (disasm_word-IsLine n [] (literal refl))))

  pub line_comment-IsLine : (n address : ℕ) → IsLine (line_comment words n address)
  unfolding line_comment pad_end
  line_comment-IsLine n address =
      let shown =
        IsLine-append (pad_end 24 (fast_disasm (names_by_word words) n)) _
          (IsLine-append (fast_disasm (names_by_word words) n) _ (fast_disasm-IsLine n)
            (IsLine-replicate _ 32 refl))
          (join-IsLine (codes " ") _ (literal refl)
            (names_by_word-AllLines words (bit_or 0xC000 address) lines)) in
      IsLine-append (codes " ") _ (literal refl) (
        IsLine-append (from address 12) _ (from-IsLine address 12)
          (IsLine-append (codes ": ") _ (literal refl) shown))
