-- ===== src/Loader/Populate/BoundedNodes.antt =====
-- vm/js/loader.js: the recursion on the nodes ends, for each kind of node.
use Prim.Native.String.{String}
use u_fork.Prelude.{ℕ, Option, none, some}
use u_fork.Prelude.Int.{ℤ}
use u_fork.Ufork.Labels.{crlf_literals, crlf_types}
use u_fork.Loader.Nodes.{
  Node, Field, Imm, literal, fixnum_node, ref, type_node, pair, dict, quad, instr, unknown, absent,
  present, no_imm, imm_text, imm_node, is_local_ref,
}
use u_fork.Loader.Actions.{RomOps, get, alloc}
use u_fork.Loader.Populate.{
  Imports, literal_raw, named_type, type_value, value, field_value, needed, imm_value, populate,
}
use u_fork.Loader.Populate.Bounded.{
  IsBounded, pure-IsBounded, bind-IsBounded, or_fail-IsBounded, fail-IsBounded, lookup-IsBounded,
  alloc-IsBounded, populate_type-IsBounded, populate_pair-IsBounded, populate_dict-IsBounded,
  populate_quad-IsBounded, populate_instr-IsBounded,
}

module _ {S : Type 0} (ops : RomOps S) (imports : Imports) where
  type_value-IsBounded :
      (name : String) (arity : Option ℤ) → IsBounded (type_value ops imports name arity)
  type_value-IsBounded name none = lookup-IsBounded imports none name
  type_value-IsBounded name (some arity) =
      bind-IsBounded (alloc ops) _ (alloc-IsBounded ops)
        (λ ptr. populate_type-IsBounded ops ptr arity)

  named_type-IsBounded :
      (named : Option ℕ) (name : String) (arity : Option ℤ)
      → IsBounded (named_type named (type_value ops imports name arity))
  named_type-IsBounded none name arity = type_value-IsBounded name arity
  named_type-IsBounded (some raw) name arity = pure-IsBounded raw

  mutual
    unfolding value field_value needed imm_value literal_raw

    pub value-IsBounded : (node : Node) → IsBounded (value ops imports node)
    value-IsBounded (literal name) =
        or_fail-IsBounded _ (get name crlf_literals) (λ h. absurd (cc h))
    value-IsBounded (fixnum_node i) = pure-IsBounded _
    value-IsBounded (ref mod_name name) = lookup-IsBounded imports mod_name name
    value-IsBounded (type_node name arity) = named_type-IsBounded (get name crlf_types) name arity
    value-IsBounded (pair head tail) = bind-IsBounded (alloc ops) _ (alloc-IsBounded ops) (λ ptr.
        populate_pair-IsBounded ops ptr _ _ (is_local_ref tail) (value-IsBounded head)
          (value-IsBounded tail))
    value-IsBounded (dict key item next) =
        bind-IsBounded (alloc ops) _ (alloc-IsBounded ops) (λ ptr.
          populate_dict-IsBounded ops ptr _ _ _ (is_local_ref next) (value-IsBounded key)
            (value-IsBounded item) (value-IsBounded next))
    value-IsBounded (quad t x y z) = bind-IsBounded (alloc ops) _ (alloc-IsBounded ops) (λ ptr.
        populate_quad-IsBounded ops ptr _ _ _ _ (value-IsBounded t) (field_value-IsBounded x)
          (field_value-IsBounded y) (field_value-IsBounded z))
    value-IsBounded (instr op imm k t f) =
        bind-IsBounded (alloc ops) _ (alloc-IsBounded ops) (λ ptr.
          populate_instr-IsBounded ops ptr op imm _ _ _ _ (imm_value-IsBounded imm)
            (needed-IsBounded k) (needed-IsBounded t) (needed-IsBounded f))
    value-IsBounded unknown = fail-IsBounded _ (λ h. absurd (cc h))

    field_value-IsBounded : (field : Field) → IsBounded (field_value ops imports field)
    field_value-IsBounded absent = pure-IsBounded none
    field_value-IsBounded (present node) =
        bind-IsBounded (value ops imports node) _ (value-IsBounded node)
          (λ raw. pure-IsBounded (some raw))

    needed-IsBounded : (field : Field) → IsBounded (needed ops imports field)
    needed-IsBounded absent = fail-IsBounded _ (λ h. absurd (cc h))
    needed-IsBounded (present node) = value-IsBounded node

    imm_value-IsBounded : (imm : Imm) → IsBounded (imm_value ops imports imm)
    imm_value-IsBounded no_imm = fail-IsBounded _ (λ h. absurd (cc h))
    imm_value-IsBounded (imm_text _) = fail-IsBounded _ (λ h. absurd (cc h))
    imm_value-IsBounded (imm_node node) = value-IsBounded node

  pub populate-IsBounded : (ptr : ℕ) (node : Node) → IsBounded (populate ops imports ptr node)
  unfolding populate
  populate-IsBounded ptr (pair head tail) =
      populate_pair-IsBounded ops ptr _ _ (is_local_ref tail) (value-IsBounded head)
        (value-IsBounded tail)
  populate-IsBounded ptr (dict key item next) =
      populate_dict-IsBounded ops ptr _ _ _ (is_local_ref next) (value-IsBounded key)
        (value-IsBounded item) (value-IsBounded next)
  populate-IsBounded ptr (quad t x y z) =
      populate_quad-IsBounded ops ptr _ _ _ _ (value-IsBounded t) (field_value-IsBounded x)
        (field_value-IsBounded y) (field_value-IsBounded z)
  populate-IsBounded ptr (instr op imm k t f) =
      populate_instr-IsBounded ops ptr op imm _ _ _ _ (imm_value-IsBounded imm) (needed-IsBounded k)
        (needed-IsBounded t) (needed-IsBounded f)
  populate-IsBounded ptr (type_node name (some arity)) = populate_type-IsBounded ops ptr arity
  populate-IsBounded ptr (type_node name none) = fail-IsBounded _ (λ h. absurd (cc h))
  populate-IsBounded ptr (literal _) = fail-IsBounded _ (λ h. absurd (cc h))
  populate-IsBounded ptr (fixnum_node _) = fail-IsBounded _ (λ h. absurd (cc h))
  populate-IsBounded ptr (ref _ _) = fail-IsBounded _ (λ h. absurd (cc h))
  populate-IsBounded ptr unknown = fail-IsBounded _ (λ h. absurd (cc h))
