-- ===== src/Loader/Populate/KeptInstr.antt =====
-- vm/js/loader.js: what populate writes for each operation of an instruction is recorded.
use Prim.Native.String.{String}
use mathlib.Core.Option.{none-ne-some}
use u_fork.Prelude.{
  ℕ, ◌≢◌, sym, subst, Option, Bool, if◌then◌else◌, if_both, List, none, some, inl, inr,
}
use u_fork.Prelude.Int.{pos, negsuc}
use u_fork.Ufork.Constants.{vm_typeq}
use u_fork.Ufork.Labels.{
  op_labels, dict_labels, deque_labels, alu_labels, cmp_labels, actor_labels, end_labels,
  sponsor_labels,
}
use u_fork.Loader.Nodes.{Imm}
use u_fork.Loader.Actions.{RomOps, TypeCheck, Load, ◌>>=◌}
use u_fork.Loader.Populate.{
  label_of, imm_label_of, instruction, write_ptr, instr_fields, checked_type, populate_imm,
  populate_instr,
}
use u_fork.Loader.Populate.Linked
use u_fork.Loader.Populate.Kept.{
  Writes, IsSafe, OperandChecked, checked_type-Keeps, label_of-Keeps, instr-Recorded,
  instruction-Keeps, fail-IsSafe, imm_label_of-IsSafe, imm_fix-IsSafe,
}
use u_fork.Loader.Populate.KeptQuads.{write_ptr-Keeps}
use u_fork.Loader.Populate.Operands.{
  only, IsPlain, plain_operand, label_if, label_typeq, if_typeq_differ, is_text,
}

module _ {S : Type 0} where
  -- Whichever action a test takes.
  either :
      (b : Bool) (m n : Load (Writes S) ℕ) → IsSafe S m → IsSafe S n → IsSafe S (if b then m else n)
  either b m n m_safe n_safe = if_both (IsSafe S) b m_safe n_safe

  module _ (ops : RomOps S) (ptr : ℕ) where
    -- The operand is as the operation asks, once it is there.
    populate_imm-IsSafe :
        {Q : ℕ → List TypeCheck → Type 0} (x : ℕ) (imm k : Load (Writes S) ℕ)
        → ((s : Linked.Log S) → Linked.IsRecorded s → Linked.Keeps Q s (imm s))
        → ((y : ℕ) (checks checks' : List TypeCheck)
            → Linked.Grows checks checks'
            → Q y checks
            → OperandChecked x (some y) checks')
        → IsSafe S k
        → IsSafe S (populate_imm (Linked.logged ops) ptr x imm k)
    unfolding populate_imm
    populate_imm-IsSafe x imm k imm_keeps operand k_safe s recorded =
        Linked.bind-Keeps imm _ s (imm_keeps s recorded) (λ y s' recorded' _ q.
          Linked.bind-Keeps (instruction k) _ s' (instruction-Keeps k k_safe s' recorded')
            (λ z s'' recorded'' grows has.
              write_ptr-Keeps ops ptr (instr_fields x (some y) (some z)) s'' recorded'' (
                instr-Recorded s''.type_checks x (some y) (some z)
                  (operand y s'.type_checks s''.type_checks grows q) (only has))))

    continues-IsSafe :
        (x : ℕ) (k : Load (Writes S) ℕ)
        → IsSafe S k
        → IsSafe S (
            instruction k >>= λ z. write_ptr (Linked.logged ops) ptr (instr_fields x none (some z)))
    continues-IsSafe x k k_safe s recorded =
        Linked.bind-Keeps (instruction k) _ s (instruction-Keeps k k_safe s recorded)
          (λ z s' recorded' _ has.
            write_ptr-Keeps ops ptr (instr_fields x none (some z)) s' recorded' (
              instr-Recorded s'.type_checks x none (some z) (λ raw e. absurd (none-ne-some raw e))
                (only has)))

    -- Both continuations are checked.
    branches-IsSafe :
        (x : ℕ) (t f : Load (Writes S) ℕ)
        → x ≢ vm_typeq
        → IsSafe S t
        → IsSafe S f
        → IsSafe S (
            instruction t >>= λ y. instruction f >>= λ z.
            write_ptr (Linked.logged ops) ptr (instr_fields x (some y) (some z)))
    branches-IsSafe x t f not_typeq t_safe f_safe s recorded =
        Linked.bind-Keeps (instruction t) _ s (instruction-Keeps t t_safe s recorded)
          (λ y s' recorded' _ has_y.
            Linked.bind-Keeps (instruction f) _ s' (instruction-Keeps f f_safe s' recorded')
              (λ z s'' recorded'' grows has.
                write_ptr-Keeps ops ptr (instr_fields x (some y) (some z)) s'' recorded'' (
                  instr-Recorded s''.type_checks x (some y) (some z)
                    (λ raw e. (
                      λ _. only (Linked.HasCheck-Grows grows has_y) raw e,
                      λ is_typeq. absurd (not_typeq is_typeq),
                    ))
                    (only has))))

    -- An instruction without a continuation.
    ends-Keeps :
        (x : ℕ) (y : Option ℕ) (s : Linked.Log S)
        → Linked.IsRecorded s
        → IsPlain x
        → Linked.Keeps Linked.Any s (write_ptr (Linked.logged ops) ptr (instr_fields x y none) s)
    ends-Keeps x y s recorded plain = write_ptr-Keeps ops ptr (instr_fields x y none) s recorded (
        instr-Recorded s.type_checks x y none (plain_operand x y s.type_checks plain)
          (λ raw e. absurd (none-ne-some raw e)))

    -- The operations other than `if` and `typeq`.
    plain-IsSafe :
        (op : String) (imm : Imm) (imm_val k t f : Load (Writes S) ℕ)
        → op ≢ "if"
        → op ≢ "typeq"
        → IsSafe S imm_val
        → IsSafe S k
        → IsSafe S t
        → IsSafe S f
        → IsSafe S (populate_instr (Linked.logged ops) ptr op imm imm_val k t f)
    unfolding populate_instr
    plain-IsSafe op imm imm_val k t f not_if not_typeq imm_safe k_safe t_safe f_safe s recorded =
        Linked.bind-Keeps (label_of op op_labels (pos 0)) _ s
          (label_of-Keeps op op_labels (pos 0) s recorded)
          (λ x s' recorded' _ named.
            let plain : IsPlain x =
              (λ e. not_if (label_if op x named e), λ e. not_typeq (label_typeq op x named e)) in
            (either _ _ _ (typed x plain) (
                either _ _ _ (with_imm x plain (imm_fix-IsSafe imm)) (
                  either _ _ _ (with_imm x plain imm_safe) (
                    either _ _ _ (continues-IsSafe x k k_safe) (
                      either _ _ _ (branches-IsSafe x t f plain.1 t_safe f_safe) (
                        with_labels x _ plain dict_labels (
                          with_labels x _ plain deque_labels (
                            with_labels x _ plain alu_labels (
                              with_labels x _ plain cmp_labels (
                                with_labels x _ plain actor_labels (
                                  either _ _ _ (stops x plain) (
                                    with_labels x _ plain sponsor_labels (
                                      either _ _ _
                                        (λ s2 recorded2. ends-Keeps x none s2 recorded2 plain)
                                        (fail-IsSafe _))))))))))))))
              s' recorded')
      where
        typed :
            (x : ℕ)
            → IsPlain x
            → IsSafe S (populate_imm (Linked.logged ops) ptr x (checked_type imm_val) k)
        typed x plain =
            populate_imm-IsSafe x (checked_type imm_val) k
              (λ s recorded. checked_type-Keeps imm_val imm_safe s recorded)
              (λ y _ checks' _ _. plain_operand x (some y) checks' plain) k_safe

        with_imm :
            (x : ℕ) {m : Load (Writes S) ℕ}
            → IsPlain x
            → IsSafe S m
            → IsSafe S (populate_imm (Linked.logged ops) ptr x m k)
        with_imm x {m} plain m_safe =
            populate_imm-IsSafe x m k m_safe
              (λ y _ checks' _ _. plain_operand x (some y) checks' plain) k_safe

        with_labels :
            (x : ℕ) (b : Bool) {rest : Load (Writes S) ℕ}
            → IsPlain x
            → (labels : List String) → IsSafe S rest
            → IsSafe S (
                if b
                then populate_imm (Linked.logged ops) ptr x (imm_label_of imm labels (pos 0)) k
                else rest)
        with_labels x b plain labels rest_safe =
            either _ _ _ (with_imm x plain (imm_label_of-IsSafe imm labels (pos 0))) rest_safe

        stops :
            (x : ℕ)
            → IsPlain x
            → IsSafe S (
                imm_label_of imm end_labels (negsuc 0) >>= λ y.
                write_ptr (Linked.logged ops) ptr (instr_fields x (some y) none))
        stops x plain s recorded =
            Linked.bind-Keeps (imm_label_of imm end_labels (negsuc 0)) _ s
              (imm_label_of-IsSafe imm end_labels (negsuc 0) s recorded)
              (λ y s' recorded' _ _. ends-Keeps x (some y) s' recorded' plain)

    pub populate_instr-IsSafe :
        (op : String) (imm : Imm) (imm_val k t f : Load (Writes S) ℕ)
        → IsSafe S imm_val
        → IsSafe S k
        → IsSafe S t
        → IsSafe S f
        → IsSafe S (populate_instr (Linked.logged ops) ptr op imm imm_val k t f)
    unfolding populate_instr
    populate_instr-IsSafe op imm imm_val k t f imm_safe k_safe t_safe f_safe =
        elim (is_text op "if") [
          | inl e ↦ subst populates (sym e) if_safe
          | inr not_if ↦ elim (is_text op "typeq") [
            | inl e ↦ subst populates (sym e) typeq_safe
            | inr not_typeq ↦
                plain-IsSafe op imm imm_val k t f not_if not_typeq imm_safe k_safe t_safe f_safe
          ]
        ]
      where
        populates : String → Type 0
        populates o = IsSafe S (populate_instr (Linked.logged ops) ptr o imm imm_val k t f)

        if_safe : populates "if"
        if_safe s recorded =
            Linked.bind-Keeps (label_of "if" op_labels (pos 0)) _ s
              (label_of-Keeps "if" op_labels (pos 0) s recorded)
              (λ x s' recorded' _ named.
                branches-IsSafe x t f (λ e. if_typeq_differ (label_typeq "if" x named e)) t_safe
                  f_safe s' recorded')

        typeq_safe : populates "typeq"
        typeq_safe s recorded =
            Linked.bind-Keeps (label_of "typeq" op_labels (pos 0)) _ s
              (label_of-Keeps "typeq" op_labels (pos 0) s recorded)
              (λ x s' recorded' _ named.
                populate_imm-IsSafe x (checked_type imm_val) k
                  (λ s2 recorded2. checked_type-Keeps imm_val imm_safe s2 recorded2)
                  (λ y checks checks' grows has raw e. (
                    λ is_if. absurd (if_typeq_differ (sym (label_if "typeq" x named is_if))),
                    λ _. only (Linked.HasCheck-Grows grows has) raw e,
                  ))
                  k_safe s' recorded')
