-- ===== src/Loader/Populate/Operands.antt =====
-- vm/js/loader.js: the operations whose operand must point to a quad of a type.
use Prim.Native.String.{String}
use text.Mathlib.Text.{◌==◌ as str_eq}
use text.Mathlib.TextEquality.{eq_iff as str_eq_iff}
use mathlib.Core.Bool.{true≢false}
use u_fork.Prelude.{
  ℕ, ◌≡◌, ◌≢◌, refl, sym, ap, subst, ◌∙◌, Option, arith, Bool, true, false, List, none, some, ◌⊎◌,
  inl, inr,
}
use u_fork.Prelude.Int.{pos}
use u_fork.Ufork.Constants.{vm_if, vm_typeq}
use u_fork.Ufork.Raw.{fix_to_i32}
use u_fork.Ufork.Labels.{op_labels, label}
use u_fork.Ufork.Labels.RoundTrip.{label_eq}
use u_fork.Loader.Actions.{TypeCheck}
use u_fork.Loader.Populate.Linked
use u_fork.Loader.Populate.Kept.{OperandChecked}

-- A field with one raw in it.
pub only :
    {a t : ℕ} {checks : List TypeCheck}
    → Linked.HasCheck a t checks
    → (raw : ℕ) → some a ≡ some raw
    → Linked.HasCheck raw t checks
only {a} {t} {checks} has raw e =
    subst (λ k. Linked.HasCheck k t checks) (ap (λ o. elim o [ none ↦ a | some k ↦ k ]) e) has

-- The operations whose operand need not have a type.
abbrev pub IsPlain : ℕ → Type 0
IsPlain x = (x ≢ vm_if) × (x ≢ vm_typeq)

pub plain_operand :
    (x : ℕ) (y : Option ℕ) (checks : List TypeCheck) → IsPlain x → OperandChecked x y checks
plain_operand x y checks plain raw e =
    (λ is_if. absurd (plain.0 is_if), λ is_typeq. absurd (plain.1 is_typeq))

pub label_if : (op : String) (x : ℕ) → label op op_labels (pos 0) ≡ some x → x ≡ vm_if → op ≡ "if"
unfolding fix_to_i32
label_if op x named e = label_eq op "if" op_labels x 3 (omega arith) named (ap fix_to_i32 e) refl

pub label_typeq :
    (op : String) (x : ℕ) → label op op_labels (pos 0) ≡ some x → x ≡ vm_typeq → op ≡ "typeq"
unfolding fix_to_i32
label_typeq op x named e =
    label_eq op "typeq" op_labels x 5 (omega arith) named (ap fix_to_i32 e) refl

pub if_typeq_differ : ◌≢◌ {A = String} "if" "typeq"
if_typeq_differ e = true≢false (ap (λ o. str_eq "if" o) e)

pub is_text : (name other : String) → (name ≡ other) ⊎ (name ≢ other)
is_text name other = decided (str_eq name other) refl
  where
    decided : (b : Bool) → str_eq name other ≡ b → (name ≡ other) ⊎ (name ≢ other)
    decided true e = inl ((str_eq_iff name other).0 e)
    decided false e = inr (λ same. true≢false (sym ((str_eq_iff name other).1 same) ∙ e))
