-- ===== src/Loader/Populate/Kept.antt =====
-- vm/js/loader.js: populate and value record what they write, for nodes with no custom quad in them.
use Prim.Native.String.{String}
use u_fork.Prelude.{
  ℕ, ◌≡◌, ◌≢◌, refl, sym, ap, subst, ◌∙◌, inl, inr, Bool, true, false, ◌&&◌, List, Option, none,
  some, ◌⊎◌, arith,
}
use u_fork.Prelude.Int.{ℤ}
use u_fork.Ufork.Constants.{nil_raw, type_t, instr_t, dict_t, vm_if, vm_typeq}
use u_fork.Ufork.Memory.{Fields}
use u_fork.Ufork.Labels.{label}
use u_fork.Loader.Nodes.{
  Node, Field, Imm, literal, fixnum_node, ref, type_node, pair, dict, quad, instr, unknown, absent,
  present, no_imm, imm_text, imm_node,
}
use u_fork.Loader.Actions.{
  Failure, TypeCheck, Load, pure, fail, or_fail, ◌>>◌, get, push_type_check, expected_instruction,
  expected_type, bad_label,
}
use u_fork.Loader.Populate.{
  Imports, definition_raw, lookup, exported, label_of, fix, imm_fix, imm_label_of, instruction,
  instr_fields, checked_type,
}
use u_fork.Loader.Populate.Linked

abbrev pub Writes : Type 0 → Type 0
Writes S = S × List (ℕ × Fields)

-- An action that keeps all writes recorded, from wherever they are.
abbrev pub IsSafe : (S : Type 0) {A : Type 0} → Load (Writes S) A → Type 0
IsSafe S m = (s : Linked.Log S) → Linked.IsRecorded s → Linked.Keeps Linked.Any s (m s)

some_injective : {A : Type 0} {a b : A} → some a ≡ some b → a ≡ b
some_injective {a} p = ap (λ o. elim o [ none ↦ a | some x ↦ x ]) p

-- The quads that are written. One that is neither an instruction nor a dictionary points to
-- nothing that must have a type.
pub other-Recorded :
    (checks : List TypeCheck) (t : ℕ) (x y z : Option ℕ)
    → t ≢ instr_t
    → t ≢ dict_t
    → Linked.Recorded checks (record { t = some t; x = x; y = y; z = z })
other-Recorded checks t x y z not_instr not_dict raw _ (Linked.continuation e _) =
    absurd (not_instr (some_injective e))
other-Recorded checks t x y z not_instr not_dict raw _ (Linked.if_true e _ _) =
    absurd (not_instr (some_injective e))
other-Recorded checks t x y z not_instr not_dict raw _ (Linked.type_asked e _ _) =
    absurd (not_instr (some_injective e))
other-Recorded checks t x y z not_instr not_dict raw _ (Linked.next_entry e _ _) =
    absurd (not_dict (some_injective e))

-- What the operand of an instruction must be: checked, if the operation is `if` or `typeq`.
abbrev pub OperandChecked : ℕ → Option ℕ → List TypeCheck → Type 0
OperandChecked x y checks =
    (raw : ℕ)
    → y ≡ some raw
    → (x ≡ vm_if → Linked.HasCheck raw instr_t checks)
      × (x ≡ vm_typeq → Linked.HasCheck raw type_t checks)

pub instr-Recorded :
    (checks : List TypeCheck) (x : ℕ) (y z : Option ℕ)
    → OperandChecked x y checks
    → ((raw : ℕ) → z ≡ some raw → Linked.HasCheck raw instr_t checks)
    → Linked.Recorded checks (instr_fields x y z)
instr-Recorded checks x y z operand next raw _ (Linked.continuation _ e) = next raw e
instr-Recorded checks x y z operand next raw _ (Linked.if_true _ op e) =
    (operand raw e).0 (some_injective op)
instr-Recorded checks x y z operand next raw _ (Linked.type_asked _ op e) =
    (operand raw e).1 (some_injective op)
instr-Recorded checks x y z operand next raw _ (Linked.next_entry e _ _) =
    absurd (differ (some_injective e))
  where
    differ : instr_t ≢ dict_t
    differ e = omega arith

pub dict-Recorded :
    (checks : List TypeCheck) (x y : Option ℕ) (z : ℕ)
    → (z ≡ nil_raw) ⊎ Linked.HasCheck z dict_t checks
    → Linked.Recorded checks (record { t = some dict_t; x = x; y = y; z = some z })
dict-Recorded checks x y z has raw _ link = linked link
  where
    differ : dict_t ≢ instr_t
    differ e = omega arith

    linked :
        {t : ℕ}
        → Linked.Links (record { t = some dict_t; x = x; y = y; z = some z }) raw t
        → Linked.HasCheck raw t checks
    linked (Linked.continuation e _) = absurd (differ (some_injective e))
    linked (Linked.if_true e _ _) = absurd (differ (some_injective e))
    linked (Linked.type_asked e _ _) = absurd (differ (some_injective e))
    linked (Linked.next_entry _ e not_nil) = elim has [
      | inl nil ↦ absurd (not_nil (sym (some_injective e) ∙ nil))
      | inr has ↦ subst (λ k. Linked.HasCheck k dict_t checks) (some_injective e) has
    ]

module _ {S : Type 0} where
  pub instruction-Keeps :
      (v : Load (Writes S) ℕ)
      → IsSafe S v
      → (s : Linked.Log S) → Linked.IsRecorded s
      → Linked.Keeps (λ raw checks. Linked.HasCheck raw instr_t checks) s (instruction v s)
  unfolding instruction ◌>>◌
  instruction-Keeps v safe s recorded =
      Linked.bind-Keeps v _ s (safe s recorded) (λ raw s' recorded' _ _.
        Linked.bind-Keeps
          (push_type_check (record { raw = raw; t = instr_t; msg = expected_instruction }))
          (λ _. pure raw) s' (Linked.push_type_check-Keeps _ s' recorded')
          (λ _ s'' recorded'' _ among. Linked.pure-Keeps raw s'' recorded'' (_, among, refl, refl)))

  pub checked_type-Keeps :
      (v : Load (Writes S) ℕ)
      → IsSafe S v
      → (s : Linked.Log S) → Linked.IsRecorded s
      → Linked.Keeps (λ raw checks. Linked.HasCheck raw type_t checks) s (checked_type v s)
  unfolding checked_type ◌>>◌
  checked_type-Keeps v safe s recorded =
      Linked.bind-Keeps v _ s (safe s recorded) (λ raw s' recorded' _ _.
        Linked.bind-Keeps (push_type_check (record { raw = raw; t = type_t; msg = expected_type }))
          (λ _. pure raw) s' (Linked.push_type_check-Keeps _ s' recorded')
          (λ _ s'' recorded'' _ among. Linked.pure-Keeps raw s'' recorded'' (_, among, refl, refl)))

  pub or_fail-IsSafe : {A : Type 0} (e : Failure) (o : Option A) → IsSafe S (or_fail e o)
  or_fail-IsSafe e o s recorded = Linked.or_fail-Keeps e o s recorded

  pub fail-IsSafe : {A : Type 0} (e : Failure) → IsSafe S (fail {A = A} e)
  fail-IsSafe e s recorded = Linked.fails

  -- The label that is found.
  pub label_of-Keeps :
      (name : String) (labels : List String) (offset : ℤ) (s : Linked.Log S)
      → Linked.IsRecorded s
      → Linked.Keeps
          (λ raw _. label name labels offset ≡ some raw)
          s
          (label_of name labels offset s)
  unfolding label_of
  label_of-Keeps name labels offset s recorded = found (label name labels offset) refl
    where
      found :
          (o : Option ℕ)
          → label name labels offset ≡ o
          → Linked.Keeps (λ raw _. label name labels offset ≡ some raw) s (or_fail bad_label o s)
      found none e = Linked.fails
      found (some raw) e = Linked.pure-Keeps raw s recorded e

  pub label_of-IsSafe :
      (name : String) (labels : List String) (offset : ℤ) → IsSafe S (label_of name labels offset)
  unfolding label_of
  label_of-IsSafe name labels offset = or_fail-IsSafe _ (label name labels offset)

  pub imm_label_of-IsSafe :
      (imm : Imm) (labels : List String) (offset : ℤ) → IsSafe S (imm_label_of imm labels offset)
  unfolding imm_label_of
  imm_label_of-IsSafe (imm_text name) labels offset = label_of-IsSafe name labels offset
  imm_label_of-IsSafe no_imm labels offset = fail-IsSafe _
  imm_label_of-IsSafe (imm_node _) labels offset = fail-IsSafe _

  fix-IsSafe : (node : Node) → IsSafe S (fix node)
  unfolding fix
  fix-IsSafe (fixnum_node i) = λ s recorded. Linked.pure-Keeps _ s recorded tt
  fix-IsSafe (literal _) = fail-IsSafe _
  fix-IsSafe (ref _ _) = fail-IsSafe _
  fix-IsSafe (type_node _ _) = fail-IsSafe _
  fix-IsSafe (pair _ _) = fail-IsSafe _
  fix-IsSafe (dict _ _ _) = fail-IsSafe _
  fix-IsSafe (quad _ _ _ _) = fail-IsSafe _
  fix-IsSafe (instr _ _ _ _ _) = fail-IsSafe _
  fix-IsSafe unknown = fail-IsSafe _

  pub imm_fix-IsSafe : (imm : Imm) → IsSafe S (imm_fix imm)
  unfolding imm_fix
  imm_fix-IsSafe no_imm = fail-IsSafe _
  imm_fix-IsSafe (imm_text _) = fail-IsSafe _
  imm_fix-IsSafe (imm_node node) = fix-IsSafe node

  pub lookup-IsSafe :
      (imports : Imports) (mod_name : Option String) (name : String)
      → IsSafe S (lookup imports mod_name name)
  unfolding lookup definition_raw
  lookup-IsSafe imports none name s recorded = or_fail-IsSafe _ (get name s.definitions) s recorded
  lookup-IsSafe imports (some mod_name) name s recorded =
      exported-IsSafe (get mod_name imports) s recorded
    where
      exported-IsSafe : (found : Option (List (String × ℕ))) → IsSafe S (exported name found)
      exported-IsSafe none = fail-IsSafe _
      exported-IsSafe (some exports) = or_fail-IsSafe _ (get name exports)

-- No quad in a node has a type of the module's choice, whose last field could be anything.
unfoldable mutual
  pub has_no_custom : Node → Bool
  has_no_custom (literal _) = true
  has_no_custom (fixnum_node _) = true
  has_no_custom (ref _ _) = true
  has_no_custom (type_node _ _) = true
  has_no_custom (pair head tail) = has_no_custom head && has_no_custom tail
  has_no_custom (dict key item next) = has_no_custom key && has_no_custom item && has_no_custom next
  has_no_custom (quad _ _ _ _) = false
  has_no_custom (instr _ imm k t f) =
      imm_has_no_custom imm
      && field_has_no_custom k
      && field_has_no_custom t
      && field_has_no_custom f
  has_no_custom unknown = true

  pub field_has_no_custom : Field → Bool
  field_has_no_custom absent = true
  field_has_no_custom (present node) = has_no_custom node

  pub imm_has_no_custom : Imm → Bool
  imm_has_no_custom no_imm = true
  imm_has_no_custom (imm_text _) = true
  imm_has_no_custom (imm_node node) = has_no_custom node
