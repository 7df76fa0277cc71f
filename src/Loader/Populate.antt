-- ===== src/Loader/Populate.antt =====
-- vm/js/loader.js: the values of nodes, and how the quads that they need are populated. The source's
-- `value` and `populate` call each other; here `value` is the recursion, and what `populate` does
-- with a kind of quad is a function of the values of its children, not evaluated yet.
pub mod Linked
pub mod Kept
pub mod KeptQuads
pub mod Operands
pub mod KeptInstr
pub mod Values
pub mod Bounded
pub mod BoundedNodes
use Prim.Native.String.{String}
use text.Mathlib.Text.{◌==◌ as str_eq}
use u_fork.Prelude.{
  ℕ, Bool, false, not, ◌||◌, ◌==◌, if◌then◌else◌, List, [], ◌∷◌, Option, none, some,
}
use u_fork.Prelude.Int.{ℤ, pos, negsuc}
use u_fork.Ufork.Constants.{
  nil_raw, type_t, instr_t, pair_t, dict_t, vm_dict, vm_deque, vm_alu, vm_cmp, vm_actor, vm_end,
  vm_sponsor,
}
use u_fork.Ufork.Raw.{fixnum}
use u_fork.Ufork.Memory.{Fields}
use u_fork.Ufork.Labels.{
  op_labels, dict_labels, deque_labels, alu_labels, cmp_labels, actor_labels, end_labels,
  sponsor_labels, crlf_literals, crlf_types, label,
}
use u_fork.Loader.Nodes.{
  Node, Field, Imm, literal, fixnum_node, ref, type_node, pair, dict, quad, instr, unknown, absent,
  present, no_imm, imm_text, imm_node, is_local_ref,
}
use u_fork.Loader.Actions.{
  RomOps, Loading, Load, pure, fail, or_fail, ◌>>=◌, ◌>>◌, get, alloc, write, push_type_check,
  push_cyclic_data_check, push_arity_check, link_y, link_z, not_defined, not_exported, not_imported,
  bad_label, not_a_literal, not_a_fixnum, not_a_value, not_an_op, not_a_quad, type_error,
  expected_instruction, expected_dict, expected_type, TypeCheck,
}

abbrev pub Imports : Type 0
Imports = List (String × List (String × ℕ))

-- The arity is the number of the last field that is there.
abbrev pub arity_of : Option ℕ → Option ℕ → Option ℕ → ℕ
arity_of x y (some _) = 3
arity_of x (some _) none = 2
arity_of (some _) none none = 1
arity_of none none none = 0

abbrev pub instr_fields : ℕ → Option ℕ → Option ℕ → Fields
instr_fields x y z = record { t = some instr_t; x = some x; y = y; z = z }

abbrev pub is_one_of : String → List String → Bool
is_one_of op [] = false
is_one_of op (name ∷ names) = str_eq op name || is_one_of op names

abbrev pub fixnum_ops : List String
fixnum_ops =
    "quad" ∷ "pair" ∷ "part" ∷ "nth" ∷ "drop" ∷ "pick" ∷ "dup" ∷ "roll" ∷ "msg" ∷ "state" ∷ []

abbrev pub value_ops : List String
value_ops = "eq" ∷ "push" ∷ "assert" ∷ []

module _ {S : Type 0} where
  unfoldable pub definition_raw : String → Load S ℕ
  definition_raw name s = or_fail not_defined (get name s.definitions) s

  abbrev pub exported : String → Option (List (String × ℕ)) → Load S ℕ
  exported name none = fail not_imported
  exported name (some exports) = or_fail not_exported (get name exports)

  -- The imported values are raws: they come from this loader.
  unfoldable pub lookup : Imports → Option String → String → Load S ℕ
  lookup imports none name = definition_raw name
  lookup imports (some mod_name) name = exported name (get mod_name imports)

  unfoldable pub label_of : String → List String → ℤ → Load S ℕ
  label_of name labels offset = or_fail bad_label (label name labels offset)

  unfoldable pub literal_raw : String → Load S ℕ
  literal_raw name = or_fail not_a_literal (get name crlf_literals)

  unfoldable pub fix : Node → Load S ℕ
  fix (fixnum_node integer) = pure (fixnum integer)
  fix _ = fail not_a_fixnum

  -- The kind of a missing node is a property of `undefined`; a text has no kind.
  unfoldable pub imm_fix : Imm → Load S ℕ
  imm_fix no_imm = fail type_error
  imm_fix (imm_text _) = fail not_a_fixnum
  imm_fix (imm_node node) = fix node

  unfoldable pub imm_label_of : Imm → List String → ℤ → Load S ℕ
  imm_label_of (imm_text name) labels offset = label_of name labels offset
  imm_label_of no_imm labels offset = fail bad_label
  imm_label_of (imm_node _) labels offset = fail bad_label

  -- `instruction(node)`, of the value of a node.
  unfoldable pub instruction : Load S ℕ → Load S ℕ
  instruction value = do
    raw ← value
    push_type_check (record { raw = raw; t = instr_t; msg = expected_instruction })
    pure raw

  unfoldable pub checked_type : Load S ℕ → Load S ℕ
  checked_type value = do
    raw ← value
    push_type_check (record { raw = raw; t = type_t; msg = expected_type })
    pure raw

  -- The raw of a type that has a name, or another.
  abbrev pub named_type : Option ℕ → Load S ℕ → Load S ℕ
  named_type none other = other
  named_type (some raw) other = pure raw

  -- Each definition below is a branch of `populate`.
  module _ (ops : RomOps S) (ptr : ℕ) where
    unfoldable pub write_ptr : Fields → Load S ℕ
    write_ptr fields = do write ops ptr fields; pure ptr

    unfoldable pub populate_type : ℤ → Load S ℕ
    populate_type arity =
        write_ptr (record { t = some type_t; x = some (fixnum arity); y = none; z = none })

    unfoldable pub populate_pair : Load S ℕ → Load S ℕ → Bool → Load S ℕ
    populate_pair head tail tail_is_local = do
      x ← head
      y ← tail
      (if tail_is_local
          then push_cyclic_data_check (record { raw = y; t = pair_t; k_field = link_y })
          else pure tt)
      write_ptr (record { t = some pair_t; x = some x; y = some y; z = none })

    unfoldable pub populate_dict : Load S ℕ → Load S ℕ → Load S ℕ → Bool → Load S ℕ
    populate_dict key value next next_is_local = do
      x ← key
      y ← value
      z ← next
      (if z == nil_raw
          then pure tt
          else push_type_check (record { raw = z; t = dict_t; msg = expected_dict }))
      (if next_is_local
          then push_cyclic_data_check (record { raw = z; t = dict_t; k_field = link_z })
          else pure tt)
      write_ptr (record { t = some dict_t; x = some x; y = some y; z = some z })

    unfoldable pub populate_quad :
        Load S ℕ → Load S (Option ℕ) → Load S (Option ℕ) → Load S (Option ℕ) → Load S ℕ
    populate_quad type x_field y_field z_field = do
      t ← type
      x ← x_field
      y ← y_field
      z ← z_field
      push_arity_check (record { type_raw = t; arity = arity_of x y z })
      write_ptr (record { t = some t; x = x; y = y; z = z })

    -- The immediate value of most instructions, and the continuation behind it.
    unfoldable pub populate_imm : ℕ → Load S ℕ → Load S ℕ → Load S ℕ
    populate_imm x imm k = do
      y ← imm
      z ← instruction k
      write_ptr (instr_fields x (some y) (some z))

    -- `value(node.imm)` and the values of the continuations are the last arguments.
    unfoldable pub populate_instr :
        String → Imm → Load S ℕ → Load S ℕ → Load S ℕ → Load S ℕ → Load S ℕ
    populate_instr op imm imm_value k t f = do
      x ← label_of op op_labels (pos 0)
      (if str_eq op "typeq"
          then populate_imm x (checked_type imm_value) k
          else if is_one_of op fixnum_ops
          then populate_imm x (imm_fix imm) k
          else if is_one_of op value_ops
          then populate_imm x imm_value k
          else if str_eq op "debug"
          then (do z ← instruction k; write_ptr (instr_fields x none (some z)))
          else if str_eq op "if"
          then (do
            y ← instruction t
            z ← instruction f
            write_ptr (instr_fields x (some y) (some z)))
          else if str_eq op "dict"
          then populate_imm x (imm_label_of imm dict_labels (pos 0)) k
          else if str_eq op "deque"
          then populate_imm x (imm_label_of imm deque_labels (pos 0)) k
          else if str_eq op "alu"
          then populate_imm x (imm_label_of imm alu_labels (pos 0)) k
          else if str_eq op "cmp"
          then populate_imm x (imm_label_of imm cmp_labels (pos 0)) k
          else if str_eq op "actor"
          then populate_imm x (imm_label_of imm actor_labels (pos 0)) k
          else if str_eq op "end"
          then (do
            y ← imm_label_of imm end_labels (negsuc 0)
            write_ptr (instr_fields x (some y) none))
          else if str_eq op "sponsor"
          then populate_imm x (imm_label_of imm sponsor_labels (pos 0)) k
          else if str_eq op "jump"
          then write_ptr (instr_fields x none none)
          else fail not_an_op)

module _ {S : Type 0} (ops : RomOps S) (imports : Imports) where
  abbrev pub type_value : String → Option ℤ → Load S ℕ
  type_value name none = lookup imports none name
  type_value name (some arity) = do ptr ← alloc ops; populate_type ops ptr arity

  unfoldable mutual
    pub value : Node → Load S ℕ
    value (literal name) = literal_raw name
    value (fixnum_node integer) = pure (fixnum integer)
    value (ref mod_name name) = lookup imports mod_name name
    value (type_node name arity) = named_type (get name crlf_types) (type_value name arity)
    value (pair head tail) =
        alloc ops >>= λ ptr. populate_pair ops ptr (value head) (value tail) (is_local_ref tail)
    value (dict key item next) = alloc ops >>= λ ptr.
        populate_dict ops ptr (value key) (value item) (value next) (is_local_ref next)
    value (quad t x y z) = alloc ops >>= λ ptr.
        populate_quad ops ptr (value t) (field_value x) (field_value y) (field_value z)
    value (instr op imm k t f) = alloc ops >>= λ ptr.
        populate_instr ops ptr op imm (imm_value imm) (needed k) (needed t) (needed f)
    value unknown = fail not_a_value

    pub field_value : Field → Load S (Option ℕ)
    field_value absent = pure none
    field_value (present node) = value node >>= λ raw. pure (some raw)

    -- A missing continuation has no kind.
    pub needed : Field → Load S ℕ
    needed absent = fail type_error
    needed (present node) = value node

    pub imm_value : Imm → Load S ℕ
    imm_value no_imm = fail type_error
    imm_value (imm_text _) = fail not_a_value
    imm_value (imm_node node) = value node

  -- `populate` of a definition's node at its placeholder.
  unfoldable pub populate : ℕ → Node → Load S ℕ
  populate ptr (pair head tail) =
      populate_pair ops ptr (value head) (value tail) (is_local_ref tail)
  populate ptr (dict key item next) =
      populate_dict ops ptr (value key) (value item) (value next) (is_local_ref next)
  populate ptr (quad t x y z) =
      populate_quad ops ptr (value t) (field_value x) (field_value y) (field_value z)
  populate ptr (instr op imm k t f) =
      populate_instr ops ptr op imm (imm_value imm) (needed k) (needed t) (needed f)
  populate ptr (type_node name (some arity)) = populate_type ops ptr arity
  populate ptr (type_node name none) = fail type_error
  populate ptr (literal _) = fail not_a_quad
  populate ptr (fixnum_node _) = fail not_a_quad
  populate ptr (ref _ _) = fail not_a_quad
  populate ptr unknown = fail not_a_quad
