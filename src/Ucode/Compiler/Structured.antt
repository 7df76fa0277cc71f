-- ===== src/Ucode/Compiler/Structured.antt =====
-- fpga/ucode/ucode.js: the words of control flow, which leave a placeholder and patch it later, and
-- the code that a whole construct amounts to.
use u_fork.Prelude.{
  ℕ, suc, ◌+◌, ◌%◌, ◌^◌, ◌<◌, ◌≡◌, refl, ap, ◌∙◌, List, [], ◌∷◌, ◌++◌, length, get_or,
  length-append, append_assoc, bit_and, arith,
}
use u_fork.Ucode.Compiler.Codes.{addr_mask, uc_jump, uc_jz, uc_fixup}
use u_fork.Ucode.Compiler.Fields.{masked, uc_jump_lem, uc_jz_lem, uc_fixup_lem}
use u_fork.Ucode.Compiler.States.{State, store_at, push}
use u_fork.Ucode.Compiler.Directives.{begin_if, begin_else, end_then}

-- Words that are appended to the program, such as those of a construct's body.
abbrev pub emit : List ℕ → State → State
emit body s = record s { prog = s.prog ++ body }

pub store_at-append :
    (xs : List ℕ) (v y : ℕ) (ys : List ℕ) → store_at (length xs) v (xs ++ y ∷ ys) ≡ xs ++ v ∷ ys
unfolding store_at
store_at-append [] v y ys = refl
store_at-append (x ∷ xs) v y ys = ap (λ r. x ∷ r) (store_at-append xs v y ys)

pub get_or-append : (xs : List ℕ) (y : ℕ) (ys : List ℕ) → get_or (xs ++ y ∷ ys) (length xs) 0 ≡ y
get_or-append [] y ys = refl
get_or-append (x ∷ xs) y ys = get_or-append xs y ys

-- The placeholder behind the program `xs`, whatever came behind it.
pub store_behind :
    (xs body : List ℕ) (addr v y : ℕ)
    → addr ≡ length xs
    → store_at addr v ((xs ++ y ∷ []) ++ body) ≡ xs ++ v ∷ body
store_behind xs body addr v y h =
    ap (λ a. store_at a v ((xs ++ y ∷ []) ++ body)) h
    ∙ ap (store_at (length xs) v) (append_assoc xs (y ∷ []) body)
    ∙ store_at-append xs v y body

-- What `ELSE` leaves behind the patched jump.
unfoldable begin_jump : State → State
begin_jump s =
    let word = uc_jump (length s.prog) in
    record s { ctrl_ctx = word ∷ s.ctrl_ctx; prog = push word s.prog }

pub address_of_jz : (a : ℕ) → a < 4096 → bit_and (uc_jz a) addr_mask ≡ a
address_of_jz a h =
    ap (λ w. bit_and w addr_mask) (uc_jz_lem a) ∙ masked (0x9000 + a % 4096) ∙ omega arith

pub address_of_jump : (a : ℕ) → a < 4096 → bit_and (uc_jump a) addr_mask ≡ a
address_of_jump a h =
    ap (λ w. bit_and w addr_mask) (uc_jump_lem a) ∙ masked (0x8000 + a % 4096) ∙ omega arith

uc_fixup-uc_jz : (a b : ℕ) → uc_fixup (uc_jz a) b ≡ uc_jz b
uc_fixup-uc_jz a b =
    uc_fixup_lem (uc_jz a) b (omega (arith, uc_jz_lem a)) ∙ omega (arith, uc_jz_lem a, uc_jz_lem b)

uc_fixup-uc_jump : (a b : ℕ) → uc_fixup (uc_jump a) b ≡ uc_jump b
uc_fixup-uc_jump a b =
    uc_fixup_lem (uc_jump a) b (omega (arith, uc_jump_lem a))
    ∙ omega (arith, uc_jump_lem a, uc_jump_lem b)

pub uc_jump-uc_jz : (a : ℕ) → uc_jump (uc_jz a) ≡ uc_jump a
uc_jump-uc_jz a = omega (arith, uc_jump_lem (uc_jz a), uc_jz_lem a, uc_jump_lem a)

pub behind :
    (xs : List ℕ) (y : ℕ) (ys : List ℕ)
    → length ((xs ++ y ∷ []) ++ ys) ≡ length xs + suc (length ys)
behind xs y ys = ap length (append_assoc xs (y ∷ []) ys) ∙ length-append xs (y ∷ ys)

-- A placeholder that is patched by `THEN` or `ELSE`.
pub patched :
    (xs body : List ℕ) (addr v w y : ℕ)
    → addr ≡ length xs
    → v ≡ w
    → store_at addr v ((xs ++ y ∷ []) ++ body) ≡ xs ++ w ∷ body
patched xs body addr v w y h e =
    ap (λ k. store_at addr k ((xs ++ y ∷ []) ++ body)) e ∙ store_behind xs body addr w y h

pub with_prog : (s : State) {p q : List ℕ} → p ≡ q → record s { prog = p } ≡ record s { prog = q }
with_prog s e = ap (λ r. record s { prog = r }) e

module _ (s : State) where
  -- `IF body THEN`: a jump behind the body, if the item is zero.
  pub if_then :
      (body : List ℕ)
      → length s.prog < 2 ^ 12
      → end_then (emit body (begin_if s))
        ≡ emit (uc_jz (length s.prog + suc (length body)) ∷ body) s
  unfolding end_then begin_if push
  if_then body h =
      let word = uc_jz (length s.prog) in
      with_prog s (
        patched s.prog body (bit_and word addr_mask) _ _ word (address_of_jz (length s.prog) h) (
          uc_fixup-uc_jz (length s.prog) (length ((s.prog ++ word ∷ []) ++ body))
          ∙ ap uc_jz (behind s.prog word body)))

  -- `IF first ELSE`: the placeholder of `ELSE` behind the words of the first branch.
  else_patches :
      (first : List ℕ)
      → length s.prog < 2 ^ 12
      → begin_else (emit first (begin_if s))
        ≡ begin_jump (emit (uc_jz (length s.prog + suc (length first) + 1) ∷ first) s)
  unfolding begin_else begin_if begin_jump push
  else_patches first h =
      let word = uc_jz (length s.prog) in
      ap (λ p. begin_jump (record s { prog = p }))
        (patched s.prog first (bit_and word addr_mask) _ _ word (address_of_jz (length s.prog) h)
          (ap (λ n. uc_jz (n + 1)) (behind s.prog word first)))

  then_patches :
      (second : List ℕ)
      → length s.prog < 2 ^ 12
      → end_then (emit second (begin_jump s))
        ≡ emit (uc_jump (length s.prog + suc (length second)) ∷ second) s
  unfolding end_then begin_jump push
  then_patches second h =
      let word = uc_jump (length s.prog) in
      with_prog s (
        patched s.prog second (bit_and word addr_mask) _ _ word (address_of_jump (length s.prog) h)
          (uc_fixup-uc_jump (length s.prog) (length ((s.prog ++ word ∷ []) ++ second))
            ∙ ap uc_jump (behind s.prog word second)))

  emit-emit : (xs ys : List ℕ) → emit ys (emit xs s) ≡ emit (xs ++ ys) s
  emit-emit xs ys = with_prog s (append_assoc s.prog xs ys)

-- `IF first ELSE second THEN` amounts to the words of both branches, with a jump to the second if the
-- item is zero, and a jump behind it from the end of the first, if the `ELSE` lies below 2^12.
pub if_else_then :
    (s : State) (first second : List ℕ)
    → length s.prog + suc (length first) < 2 ^ 12
    → end_then (emit second (begin_else (emit first (begin_if s))))
      ≡ emit
          (uc_jz (length s.prog + suc (length first) + 1) ∷ first
            ++ (uc_jump (length s.prog + suc (length first) + suc (length second)) ∷ second))
          s
if_else_then s first second h =
    let jz = uc_jz (length s.prog + suc (length first) + 1) in
    let size : length (s.prog ++ (jz ∷ first)) ≡ length s.prog + suc (length first) =
      length-append s.prog (jz ∷ first) in
    ap (λ t. end_then (emit second t)) (else_patches s first (omega arith))
    ∙ then_patches (emit (jz ∷ first) s) second (omega (arith, size))
    ∙ ap (λ n. emit (uc_jump (n + suc (length second)) ∷ second) (emit (jz ∷ first) s)) size
    ∙ emit-emit s (jz ∷ first) _
