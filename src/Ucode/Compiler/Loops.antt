-- ===== src/Ucode/Compiler/Loops.antt =====
-- fpga/ucode/ucode.js: the words of loops, and the code that a whole loop amounts to.
use u_fork.Prelude.{
  ℕ, suc, ◌+◌, ◌*◌, ◌/◌, ◌%◌, ◌^◌, ◌<◌, ◌≡◌, refl, ap, ◌∙◌, true, ◌==◌, if◌then◌else◌, List, [],
  ◌∷◌, ◌++◌, length, get_or, length-append, append_assoc, bit_and, arith,
}
use u_fork.Ucode.Compiler.Codes.{
  addr_mask, uc_jump, uc_jz, uc_jnz_inc, uc_jnz_dec, uc_is_auto, uc_fixup, uc_to_r,
}
use u_fork.Ucode.Compiler.Fields.{
  masked, uc_jnz_inc_lem, uc_jnz_dec_lem, uc_fixup_lem, uc_is_auto_lem,
}
use u_fork.Ucode.Compiler.States.{State, store_at, push}
use u_fork.Ucode.Compiler.Directives.{
  begin_loop, end_until, while_test, end_repeat, counted_loop, end_again,
}
use u_fork.Ucode.Compiler.Structured.{
  emit, with_prog, patched, behind, address_of_jz, address_of_jump, uc_jump-uc_jz, get_or-append,
}

-- `BEGIN body UNTIL`: a jump back to the start, if the item is zero.
pub begin_until :
    (s : State) (body : List ℕ)
    → length s.prog < 2 ^ 12
    → end_until (emit body (begin_loop s)) ≡ emit (body ++ (uc_jz (length s.prog) ∷ [])) s
unfolding end_until begin_loop push
begin_until s body h = with_prog s (
    ap (λ a. (s.prog ++ body) ++ uc_jz a ∷ []) (address_of_jump (length s.prog) h)
    ∙ append_assoc s.prog body (uc_jz (length s.prog) ∷ []))

-- `BEGIN test WHILE body REPEAT` amounts to the words of the test and the body, with a jump behind the
-- loop, if the test's item is zero, and a jump back to the test, if the `WHILE` lies below 2^12.
pub while_repeat :
    (s : State) (test body : List ℕ)
    → length s.prog + length test < 2 ^ 12
    → end_repeat (emit body (while_test (emit test (begin_loop s))))
      ≡ emit
          (test
            ++ (uc_jz (length s.prog + length test + suc (length body + 1)) ∷ body
                ++ (uc_jump (length s.prog) ∷ [])))
          s
unfolding end_repeat while_test begin_loop push
while_repeat s test body h =
    let here = length s.prog in
    let xs = s.prog ++ test in
    let size : length xs ≡ here + length test = length-append s.prog test in
    let back = bit_and (uc_jump here) addr_mask in
    let addr = bit_and (uc_jz (length xs)) addr_mask in
    let found : addr ≡ length xs = address_of_jz (length xs) (omega (arith, size)) in
    let code = (xs ++ uc_jz back ∷ []) ++ body in
    let jump : uc_jump (get_or code addr 0) ≡ uc_jump here =
      ap (λ a. uc_jump (get_or code a 0)) found
      ∙ ap uc_jump (
          ap (λ c. get_or c (length xs) 0) (append_assoc xs (uc_jz back ∷ []) body)
          ∙ get_or-append xs (uc_jz back) body)
      ∙ uc_jump-uc_jz back
      ∙ ap uc_jump (address_of_jump here (omega arith)) in
    let pushed : code ++ uc_jump (get_or code addr 0) ∷ []
        ≡ (xs ++ uc_jz back ∷ []) ++ (body ++ (uc_jump here ∷ [])) =
      ap (λ w. code ++ w ∷ []) jump
      ∙ append_assoc (xs ++ uc_jz back ∷ []) body (uc_jump here ∷ []) in
    with_prog s (
      ap (λ p. store_at addr (uc_jz (length p)) p) pushed
      ∙ patched xs (body ++ (uc_jump here ∷ [])) addr _ _ (uc_jz back) found (
          ap uc_jz (
            behind xs (uc_jz back) (body ++ (uc_jump here ∷ []))
            ∙ omega (arith, size, length-append body (uc_jump here ∷ []))))
      ∙ append_assoc s.prog test _)

-- A jump that counts: its address is read back, and `AGAIN` fixes it.
record IsCounting (jump : ℕ → ℕ) : Type 0 where
  auto : (a : ℕ) → uc_is_auto (jump a) ≡ true
  address : (a : ℕ) → a < 2 ^ 12 → bit_and (jump a) addr_mask ≡ a
  fixup : (a b : ℕ) → uc_fixup (jump a) b ≡ jump b

-- The upper field `h` of a jump that counts is 10 or 11.
counting :
    (h : ℕ)
    → h < 16
    → h / 2 ≡ 5
    → (jump : ℕ → ℕ) → ((a : ℕ) → jump a ≡ h * 4096 + a % 4096)
    → IsCounting jump
unfolding uc_is_auto
counting h small upper jump lem = record { auto = auto; address = address; fixup = fixup }
  where
    auto : (a : ℕ) → uc_is_auto (jump a) ≡ true
    auto a =
        let field : bit_and (jump a) 0xE000 ≡ 0xA000 =
          uc_is_auto_lem (jump a) ∙ omega (arith, lem a) in
        ap (λ w. w == 0xA000) field

    address : (a : ℕ) → a < 2 ^ 12 → bit_and (jump a) addr_mask ≡ a
    address a below = masked (jump a) ∙ omega (arith, lem a)

    fixup : (a b : ℕ) → uc_fixup (jump a) b ≡ jump b
    fixup a b = uc_fixup_lem (jump a) b (omega (arith, lem a)) ∙ omega (arith, lem a, lem b)

uc_jnz_dec-IsCounting : IsCounting uc_jnz_dec
uc_jnz_dec-IsCounting = counting 11 (omega arith) refl uc_jnz_dec uc_jnz_dec_lem

uc_jnz_inc-IsCounting : IsCounting uc_jnz_inc
uc_jnz_inc-IsCounting = counting 10 (omega arith) refl uc_jnz_inc uc_jnz_inc_lem

counted_again :
    (jump : ℕ → ℕ)
    → IsCounting jump
    → (s : State) (body : List ℕ) → length s.prog + 1 < 2 ^ 12
    → end_again (emit body (counted_loop jump s))
      ≡ emit
          (uc_to_r ∷ uc_jump (length s.prog + 1 + suc (length body)) ∷ body
            ++ (jump (length s.prog + 2) ∷ []))
          s
unfolding end_again counted_loop push
counted_again jump counts s body h =
    let xs = s.prog ++ uc_to_r ∷ [] in
    let size : length xs ≡ length s.prog + 1 = length-append s.prog (uc_to_r ∷ []) in
    let word = jump (length xs) in
    let found : bit_and word addr_mask ≡ length xs =
      counts.address (length xs) (omega (arith, size)) in
    let code = (xs ++ word ∷ []) ++ body in
    let end = uc_jump (length s.prog + 1 + suc (length body)) in
    let back : uc_fixup word (bit_and word addr_mask + 1) ≡ jump (length s.prog + 2) =
      counts.fixup (length xs) _ ∙ ap jump (omega (arith, found, size)) in
    ap
      (λ auto.
        if auto
        then record s {
          prog =
              store_at (bit_and word addr_mask) (uc_jump (length code)) code
              ++ uc_fixup word (bit_and word addr_mask + 1) ∷ [];
        }
        else record s { prog = code ++ uc_jump (bit_and word addr_mask) ∷ [] })
      (counts.auto (length xs))
    ∙ with_prog s (
        ap (λ w. store_at (bit_and word addr_mask) (uc_jump (length code)) code ++ w ∷ []) back
        ∙ ap (λ p. p ++ jump (length s.prog + 2) ∷ [])
            (patched xs body (bit_and word addr_mask) _ end word found
              (ap uc_jump (behind xs word body ∙ omega (arith, size))))
        ∙ append_assoc xs (end ∷ body) (jump (length s.prog + 2) ∷ [])
        ∙ append_assoc s.prog (uc_to_r ∷ []) (end ∷ body ++ (jump (length s.prog + 2) ∷ [])))

-- `?LOOP- body AGAIN` and `?LOOP+ body AGAIN` amount to the words of the body, before which the count
-- is moved to the R-stack and the start jumps to the end, and behind which the end counts and jumps
-- back behind the start, if the start lies below 2^12.
pub counted_loops :
    (s : State) (body : List ℕ)
    → length s.prog + 1 < 2 ^ 12
    → (end_again (emit body (counted_loop uc_jnz_dec s))
        ≡ emit
            (uc_to_r ∷ uc_jump (length s.prog + 1 + suc (length body)) ∷ body
              ++ (uc_jnz_dec (length s.prog + 2) ∷ []))
            s)
      × (end_again (emit body (counted_loop uc_jnz_inc s))
          ≡ emit
              (uc_to_r ∷ uc_jump (length s.prog + 1 + suc (length body)) ∷ body
                ++ (uc_jnz_inc (length s.prog + 2) ∷ []))
              s)
counted_loops s body h = (
  counted_again uc_jnz_dec uc_jnz_dec-IsCounting s body h,
  counted_again uc_jnz_inc uc_jnz_inc-IsCounting s body h,
)
