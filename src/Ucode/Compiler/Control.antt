-- ===== src/Ucode/Compiler/Control.antt =====
-- fpga/ucode/ucode.js: the compiler functions of control flow keep the state of `compile` sound.
use u_fork.Prelude.{ℕ, ◌+◌, ◌%◌, ◌^◌, ◌≤◌, ◌<◌, if_both, ◌∷◌, length, get_or, arith, bit_and}
use u_fork.Ucode.Compiler.Codes.{
  addr_mask, uc_jump, uc_jz, uc_is_auto, uc_fixup, uc_to_r, uc_r_fetch,
}
use u_fork.Ucode.Compiler.Fields.{uc_jump_lem, uc_jz_lem}
use u_fork.Ucode.Compiler.States.{State, store_at, push, top, popped, done}
use u_fork.Ucode.Compiler.Directives.{
  skip_if_zero, begin_loop, end_until, while_test, end_repeat, counted_loop, loop_index, end_again,
  begin_if, begin_else, end_then,
}
use u_fork.Ucode.Compiler.Sound.{
  IsSound, AllFits-push, AllFits-store_at, length-push, store_at_longer, top-lt, uc_fixup-lt,
}
use u_fork.Ucode.Compiler.Kept.{IsKept, Keeps, kept, fits, placed, rest, pushed, here}

module _ (s : State) (ok : IsSound s) where
  pub skip_if_zero-Keeps : Keeps (done (skip_if_zero s))
  unfolding skip_if_zero
  skip_if_zero-Keeps =
      pushed s ok (uc_jz (length s.prog + 2)) s.ctrl_ctx
        (omega (arith, uc_jz_lem (length s.prog + 2))) (placed s ok (length s.prog) (omega arith))

  pub begin_loop-Keeps : Keeps (done (begin_loop s))
  unfolding begin_loop
  begin_loop-Keeps =
      kept (length s.prog) _ (omega arith) (fits s ok (length s.prog) (omega arith))
        (
          omega (arith, uc_jump_lem (length s.prog)),
          omega (arith, uc_jump_lem (length s.prog)),
          placed s ok (length s.prog) (omega arith),
        )
        ok.words

  pub end_until-Keeps : Keeps (done (end_until s))
  unfolding end_until
  end_until-Keeps =
      let addr = bit_and (top s.ctrl_ctx) addr_mask in
      pushed s ok (uc_jz addr) (popped s.ctrl_ctx) (omega (arith, uc_jz_lem addr))
        (rest s ok (length s.prog) (omega arith))

  pub while_test-Keeps : Keeps (done (while_test s))
  unfolding while_test
  while_test-Keeps =
      let addr = bit_and (top s.ctrl_ctx) addr_mask in
      pushed s ok (uc_jz addr) (uc_jz (length s.prog) ∷ popped s.ctrl_ctx)
        (omega (arith, uc_jz_lem addr))
        (here s ok (uc_jz (length s.prog)) (omega (arith, uc_jz_lem (length s.prog)))
          (omega (arith, uc_jz_lem (length s.prog))))

  pub end_repeat-Keeps : Keeps (done (end_repeat s))
  unfolding end_repeat
  end_repeat-Keeps =
      let n = length s.prog in
      let addr = bit_and (top s.ctrl_ctx) addr_mask in
      let back = get_or s.prog addr 0 in
      let grown = push (uc_jump back) s.prog in
      kept n _
        (omega (
          arith,
          length-push (uc_jump back) s.prog,
          store_at_longer addr (uc_jz (length grown)) grown,
        ))
        (AllFits-store_at n addr (uc_jz (length grown)) grown
          (AllFits-push n s.prog (uc_jump back) (fits s ok n (omega arith))
            (omega (arith, uc_jump_lem back)))
          (omega (arith, uc_jz_lem (length grown))))
        (rest s ok n (omega arith)) ok.words

  pub counted_loop-Keeps :
      (jump : ℕ → ℕ)
      → ((a : ℕ) → (jump a < 2 ^ 16) × (jump a % 2 ^ 12 ≤ a))
      → Keeps (done (counted_loop jump s))
  unfolding counted_loop
  counted_loop-Keeps jump h =
      let one = push uc_to_r s.prog in
      let n = length one in
      let (small, low) = h n in
      let longer : length s.prog ≤ n = omega (arith, length-push uc_to_r s.prog) in
      kept n _ (omega (arith, length-push (jump n) one))
        (AllFits-push n one (jump n)
          (AllFits-push n s.prog uc_to_r (fits s ok n longer) (omega arith)) (omega (arith, small)))
        (low, small, placed s ok n longer) ok.words

  pub loop_index-Keeps : Keeps (loop_index s)
  unfolding loop_index
  loop_index-Keeps =
      if_both Keeps (uc_is_auto (top s.ctrl_ctx))
        (pushed s ok uc_r_fetch s.ctrl_ctx (omega arith)
          (placed s ok (length s.prog) (omega arith)))
        tt

  pub end_again-Keeps : Keeps (done (end_again s))
  unfolding end_again
  end_again-Keeps =
      let n = length s.prog in
      let word = top s.ctrl_ctx in
      let addr = bit_and word addr_mask in
      let small : word < 2 ^ 16 = top-lt n s.ctrl_ctx (placed s ok n (omega arith)) in
      let patched = store_at addr (uc_jump n) s.prog in
      if_both IsKept (uc_is_auto word)
        (kept n _
          (omega (
            arith,
            store_at_longer addr (uc_jump n) s.prog,
            length-push (uc_fixup word (addr + 1)) patched,
          ))
          (AllFits-push n patched _
            (AllFits-store_at n addr (uc_jump n) s.prog (fits s ok n (omega arith))
              (omega (arith, uc_jump_lem n)))
            (omega (arith, uc_fixup-lt word (addr + 1) small)))
          (rest s ok n (omega arith)) ok.words)
        (pushed s ok (uc_jump addr) (popped s.ctrl_ctx) (omega (arith, uc_jump_lem addr))
          (rest s ok n (omega arith)))

  pub begin_if-Keeps : Keeps (done (begin_if s))
  unfolding begin_if
  begin_if-Keeps =
      let n = length s.prog in
      let small : uc_jz n < 2 ^ 16 = omega (arith, uc_jz_lem n) in
      pushed s ok (uc_jz n) (uc_jz n ∷ s.ctrl_ctx) small
        (omega (arith, uc_jz_lem n), small, placed s ok n (omega arith))

  pub begin_else-Keeps : Keeps (done (begin_else s))
  unfolding begin_else
  begin_else-Keeps =
      let addr = bit_and (top s.ctrl_ctx) addr_mask in
      let jz = uc_jz (length s.prog + 1) in
      let patched = store_at addr jz s.prog in
      let n = length patched in
      let longer : length s.prog ≤ n = store_at_longer addr jz s.prog in
      let small : uc_jump n < 2 ^ 16 = omega (arith, uc_jump_lem n) in
      kept n _ (omega (arith, length-push (uc_jump n) patched))
        (AllFits-push n patched (uc_jump n)
          (AllFits-store_at n addr jz s.prog (fits s ok n longer)
            (omega (arith, uc_jz_lem (length s.prog + 1))))
          (omega (arith, small)))
        (omega (arith, uc_jump_lem n), small, rest s ok n longer) ok.words

  pub end_then-Keeps : Keeps (done (end_then s))
  unfolding end_then
  end_then-Keeps =
      let n = length s.prog in
      let word = top s.ctrl_ctx in
      let addr = bit_and word addr_mask in
      let small : word < 2 ^ 16 = top-lt n s.ctrl_ctx (placed s ok n (omega arith)) in
      kept n _ (store_at_longer addr (uc_fixup word n) s.prog)
        (AllFits-store_at n addr (uc_fixup word n) s.prog (fits s ok n (omega arith))
          (omega (arith, uc_fixup-lt word n small)))
        (rest s ok n (omega arith)) ok.words
