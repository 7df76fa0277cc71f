-- ===== src/Loader/Populate/Values.antt =====
-- vm/js/loader.js: value and populate record what they write, by the kind of the node.
use Prim.Native.String.{String}
use u_fork.Prelude.{ℕ, ◌≡◌, refl, Bool, true, false, ◌&&◌, Option, none, some}
use u_fork.Prelude.Int.{ℤ}
use u_fork.Ufork.Labels.{crlf_literals, crlf_types}
use u_fork.Loader.Nodes.{
  Node, Field, Imm, literal, fixnum_node, ref, type_node, pair, dict, quad, instr, unknown, absent,
  present, no_imm, imm_text, imm_node, is_local_ref,
}
use u_fork.Loader.Actions.{RomOps, get, alloc}
use u_fork.Loader.Populate.{
  Imports, literal_raw, named_type, type_value, value, needed, imm_value, populate,
}
use u_fork.Loader.Populate.Linked
use u_fork.Loader.Populate.Kept.{
  IsSafe, has_no_custom, field_has_no_custom, imm_has_no_custom, or_fail-IsSafe, fail-IsSafe,
  lookup-IsSafe,
}
use u_fork.Loader.Populate.KeptQuads.{
  populate_type-IsSafe, populate_pair-IsSafe, populate_dict-IsSafe,
}
use u_fork.Loader.Populate.KeptInstr.{populate_instr-IsSafe}

pub both : (a b : Bool) → (a && b) ≡ true → (a ≡ true) × (b ≡ true)
both true b h = (refl, h)
both false b h = cc

module _ {S : Type 0} (ops : RomOps S) (imports : Imports) where
  type_value-IsSafe :
      (name : String) (arity : Option ℤ)
      → IsSafe S (type_value (Linked.logged ops) imports name arity)
  type_value-IsSafe name none = lookup-IsSafe imports none name
  type_value-IsSafe name (some arity) = λ s recorded.
      Linked.bind-Keeps (alloc (Linked.logged ops)) _ s (Linked.alloc-Keeps ops s recorded)
        (λ ptr s' recorded' _ _. populate_type-IsSafe ops ptr arity s' recorded')

  named_type-IsSafe :
      (named : Option ℕ) (name : String) (arity : Option ℤ)
      → IsSafe S (named_type named (type_value (Linked.logged ops) imports name arity))
  named_type-IsSafe none name arity = type_value-IsSafe name arity
  named_type-IsSafe (some raw) name arity = λ s recorded. Linked.pure-Keeps raw s recorded tt

  mutual
    unfolding value has_no_custom literal_raw

    pub value-IsSafe :
        (node : Node)
        → has_no_custom node ≡ true
        → IsSafe S (value (Linked.logged ops) imports node)
    value-IsSafe (literal name) h = or_fail-IsSafe _ (get name crlf_literals)
    value-IsSafe (fixnum_node i) h = λ s recorded. Linked.pure-Keeps _ s recorded tt
    value-IsSafe (ref mod_name name) h = lookup-IsSafe imports mod_name name
    value-IsSafe (type_node name arity) h = named_type-IsSafe (get name crlf_types) name arity
    value-IsSafe (pair head tail) h = λ s recorded.
        let (h1, h2) = both (has_no_custom head) (has_no_custom tail) h in
        Linked.bind-Keeps (alloc (Linked.logged ops)) _ s (Linked.alloc-Keeps ops s recorded)
          (λ ptr s' recorded' _ _.
            populate_pair-IsSafe ops ptr _ _ (is_local_ref tail) (value-IsSafe head h1)
              (value-IsSafe tail h2) s' recorded')
    value-IsSafe (dict key item next) h = λ s recorded.
        let (h', h3) = both (has_no_custom key && has_no_custom item) (has_no_custom next) h in
        let (h1, h2) = both (has_no_custom key) (has_no_custom item) h' in
        Linked.bind-Keeps (alloc (Linked.logged ops)) _ s (Linked.alloc-Keeps ops s recorded)
          (λ ptr s' recorded' _ _.
            populate_dict-IsSafe ops ptr _ _ _ (is_local_ref next) (value-IsSafe key h1)
              (value-IsSafe item h2) (value-IsSafe next h3) s' recorded')
    value-IsSafe (quad _ _ _ _) h = cc
    value-IsSafe (instr op imm k t f) h = λ s recorded.
        let (h'', h4) = both _ (field_has_no_custom f) h in
        let (h', h3) = both _ (field_has_no_custom t) h'' in
        let (h1, h2) = both (imm_has_no_custom imm) (field_has_no_custom k) h' in
        Linked.bind-Keeps (alloc (Linked.logged ops)) _ s (Linked.alloc-Keeps ops s recorded)
          (λ ptr s' recorded' _ _.
            populate_instr-IsSafe ops ptr op imm _ _ _ _ (imm_value-IsSafe imm h1)
              (needed-IsSafe k h2) (needed-IsSafe t h3) (needed-IsSafe f h4) s' recorded')
    value-IsSafe unknown h = fail-IsSafe _

    needed-IsSafe :
        (field : Field)
        → field_has_no_custom field ≡ true
        → IsSafe S (needed (Linked.logged ops) imports field)
    needed-IsSafe absent h = fail-IsSafe _
    needed-IsSafe (present node) h = value-IsSafe node h

    imm_value-IsSafe :
        (imm : Imm)
        → imm_has_no_custom imm ≡ true
        → IsSafe S (imm_value (Linked.logged ops) imports imm)
    imm_value-IsSafe no_imm h = fail-IsSafe _
    imm_value-IsSafe (imm_text _) h = fail-IsSafe _
    imm_value-IsSafe (imm_node node) h = value-IsSafe node h

  pub populate-IsSafe :
      (ptr : ℕ) (node : Node)
      → has_no_custom node ≡ true
      → IsSafe S (populate (Linked.logged ops) imports ptr node)
  unfolding populate has_no_custom
  populate-IsSafe ptr (pair head tail) h =
      let (h1, h2) = both (has_no_custom head) (has_no_custom tail) h in
      populate_pair-IsSafe ops ptr _ _ (is_local_ref tail) (value-IsSafe head h1)
        (value-IsSafe tail h2)
  populate-IsSafe ptr (dict key item next) h =
      let (h', h3) = both (has_no_custom key && has_no_custom item) (has_no_custom next) h in
      let (h1, h2) = both (has_no_custom key) (has_no_custom item) h' in
      populate_dict-IsSafe ops ptr _ _ _ (is_local_ref next) (value-IsSafe key h1)
        (value-IsSafe item h2) (value-IsSafe next h3)
  populate-IsSafe ptr (instr op imm k t f) h =
      let (h'', h4) = both _ (field_has_no_custom f) h in
      let (h', h3) = both _ (field_has_no_custom t) h'' in
      let (h1, h2) = both (imm_has_no_custom imm) (field_has_no_custom k) h' in
      populate_instr-IsSafe ops ptr op imm _ _ _ _ (imm_value-IsSafe imm h1) (needed-IsSafe k h2)
        (needed-IsSafe t h3) (needed-IsSafe f h4)
  populate-IsSafe ptr (quad _ _ _ _) h = cc
  populate-IsSafe ptr (type_node name (some arity)) h = populate_type-IsSafe ops ptr arity
  populate-IsSafe ptr (type_node name none) h = fail-IsSafe _
  populate-IsSafe ptr (literal _) h = fail-IsSafe _
  populate-IsSafe ptr (fixnum_node _) h = fail-IsSafe _
  populate-IsSafe ptr (ref _ _) h = fail-IsSafe _
  populate-IsSafe ptr unknown h = fail-IsSafe _
