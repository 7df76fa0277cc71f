-- ===== src/Loader/Populate/Bounded.antt =====
-- vm/js/loader.js: the recursion on the nodes ends, so that no action on them waits for fuel.
use Prim.Native.String.{String}
use u_fork.Prelude.{ℕ, ◌≡◌, ◌≢◌, Bool, true, false, ◌==◌, if◌then◌else◌, List, Option, none, some}
use u_fork.Prelude.Int.{ℤ, pos, negsuc}
use u_fork.Ufork.Constants.{nil_raw}
use u_fork.Ufork.Memory.{Fields}
use u_fork.Ufork.Labels.{
  op_labels, dict_labels, deque_labels, alu_labels, cmp_labels, actor_labels, end_labels,
  sponsor_labels, label,
}
use u_fork.Loader.Nodes.{
  Node, Imm, literal, fixnum_node, ref, type_node, pair, dict, quad, instr, unknown, no_imm,
  imm_text, imm_node,
}
use u_fork.Loader.Actions.{
  Failure, Result, ok, err, RomOps, Loading, Load, pure, fail, or_fail, goes_on, ◌>>=◌, ◌>>◌, get,
  alloc, write, define, push_type_check, push_cyclic_data_check, push_arity_check, TypeCheck,
  CyclicDataCheck, out_of_fuel,
}
use u_fork.Loader.Populate.{
  Imports, definition_raw, exported, lookup, label_of, fix, imm_fix, imm_label_of, instruction,
  checked_type, write_ptr, populate_type, populate_pair, populate_dict, populate_quad, populate_imm,
  populate_instr,
}

abbrev pub IsBounded : {S A : Type 0} → Load S A → Type 0
IsBounded {S} m = (s : Loading S) → m s ≢ err out_of_fuel

module _ {S : Type 0} where
  pub pure-IsBounded : {A : Type 0} (a : A) → IsBounded (pure {S = S} a)
  pure-IsBounded a s h = absurd (cc h)

  pub bind-IsBounded :
      {A B : Type 0} (m : Load S A) (f : A → Load S B)
      → IsBounded m
      → ((a : A) → IsBounded (f a))
      → IsBounded (m >>= f)
  unfolding ◌>>=◌
  bind-IsBounded {A} {B} m f first later s = from (m s) (first s)
    where
      from : (r : Result (A × Loading S)) → r ≢ err out_of_fuel → goes_on f r ≢ err out_of_fuel
      from (ok (a, s')) ne h = later a s' h
      from (err e) ne h = ne (same h)
        where
          same :
              {e : Failure}
              → ◌≡◌ {A = Result (B × Loading S)} (err e) (err out_of_fuel)
              → ◌≡◌ {A = Result (A × Loading S)} (err e) (err out_of_fuel)
          same h = cc h

  pub or_fail-IsBounded :
      {A : Type 0} (e : Failure) (o : Option A) → e ≢ out_of_fuel → IsBounded (or_fail {S = S} e o)
  or_fail-IsBounded e none ne s h = absurd (ne (cc h))
  or_fail-IsBounded e (some a) ne s h = absurd (cc h)

  pub fail-IsBounded :
      {A : Type 0} (e : Failure) → e ≢ out_of_fuel → IsBounded (fail {S = S} {A = A} e)
  fail-IsBounded e ne = or_fail-IsBounded e none ne

  pub if-IsBounded :
      {A : Type 0} (b : Bool) {yes no : Load S A}
      → IsBounded yes
      → IsBounded no
      → IsBounded (if b then yes else no)
  if-IsBounded true on_yes on_no = on_yes
  if-IsBounded false on_yes on_no = on_no

  pub definition_raw-IsBounded : (name : String) → IsBounded (definition_raw {S = S} name)
  unfolding definition_raw
  definition_raw-IsBounded name s =
      or_fail-IsBounded _ (get name s.definitions) (λ h. absurd (cc h)) s

  exported-IsBounded :
      (name : String) (exports : Option (List (String × ℕ)))
      → IsBounded (exported {S = S} name exports)
  exported-IsBounded name none = fail-IsBounded _ (λ h. absurd (cc h))
  exported-IsBounded name (some exports) =
      or_fail-IsBounded _ (get name exports) (λ h. absurd (cc h))

  pub lookup-IsBounded :
      (imports : Imports) (mod_name : Option String) (name : String)
      → IsBounded (lookup {S = S} imports mod_name name)
  unfolding lookup
  lookup-IsBounded imports none name = definition_raw-IsBounded name
  lookup-IsBounded imports (some mod_name) name = exported-IsBounded name (get mod_name imports)

  label_of-IsBounded :
      (name : String) (labels : List String) (offset : ℤ)
      → IsBounded (label_of {S = S} name labels offset)
  unfolding label_of
  label_of-IsBounded name labels offset =
      or_fail-IsBounded _ (label name labels offset) (λ h. absurd (cc h))

  imm_label_of-IsBounded :
      (imm : Imm) (labels : List String) (offset : ℤ)
      → IsBounded (imm_label_of {S = S} imm labels offset)
  unfolding imm_label_of
  imm_label_of-IsBounded (imm_text name) labels offset = label_of-IsBounded name labels offset
  imm_label_of-IsBounded no_imm labels offset = fail-IsBounded _ (λ h. absurd (cc h))
  imm_label_of-IsBounded (imm_node _) labels offset = fail-IsBounded _ (λ h. absurd (cc h))

  fix-IsBounded : (node : Node) → IsBounded (fix {S = S} node)
  unfolding fix
  fix-IsBounded (fixnum_node i) = pure-IsBounded _
  fix-IsBounded (literal _) = fail-IsBounded _ (λ h. absurd (cc h))
  fix-IsBounded (ref _ _) = fail-IsBounded _ (λ h. absurd (cc h))
  fix-IsBounded (type_node _ _) = fail-IsBounded _ (λ h. absurd (cc h))
  fix-IsBounded (pair _ _) = fail-IsBounded _ (λ h. absurd (cc h))
  fix-IsBounded (dict _ _ _) = fail-IsBounded _ (λ h. absurd (cc h))
  fix-IsBounded (quad _ _ _ _) = fail-IsBounded _ (λ h. absurd (cc h))
  fix-IsBounded (instr _ _ _ _ _) = fail-IsBounded _ (λ h. absurd (cc h))
  fix-IsBounded unknown = fail-IsBounded _ (λ h. absurd (cc h))

  imm_fix-IsBounded : (imm : Imm) → IsBounded (imm_fix {S = S} imm)
  unfolding imm_fix
  imm_fix-IsBounded no_imm = fail-IsBounded _ (λ h. absurd (cc h))
  imm_fix-IsBounded (imm_text _) = fail-IsBounded _ (λ h. absurd (cc h))
  imm_fix-IsBounded (imm_node node) = fix-IsBounded node

  push_type_check-IsBounded : (check : TypeCheck) → IsBounded (push_type_check {S = S} check)
  unfolding push_type_check
  push_type_check-IsBounded check s h = absurd (cc h)

  push_cyclic_data_check-IsBounded :
      (check : CyclicDataCheck) → IsBounded (push_cyclic_data_check {S = S} check)
  unfolding push_cyclic_data_check
  push_cyclic_data_check-IsBounded check s h = absurd (cc h)

  instruction-IsBounded : (m : Load S ℕ) → IsBounded m → IsBounded (instruction m)
  unfolding instruction ◌>>◌
  instruction-IsBounded m h = bind-IsBounded m _ h (λ raw.
      bind-IsBounded (push_type_check _) _ (push_type_check-IsBounded _) (λ _. pure-IsBounded raw))

  checked_type-IsBounded : (m : Load S ℕ) → IsBounded m → IsBounded (checked_type m)
  unfolding checked_type ◌>>◌
  checked_type-IsBounded m h = bind-IsBounded m _ h (λ raw.
      bind-IsBounded (push_type_check _) _ (push_type_check-IsBounded _) (λ _. pure-IsBounded raw))

  pub define-IsBounded : (name : String) (raw : ℕ) → IsBounded (define {S = S} name raw)
  unfolding define
  define-IsBounded name raw s h = absurd (cc h)

module _ {S : Type 0} (ops : RomOps S) where
  pub alloc-IsBounded : IsBounded (alloc ops)
  unfolding alloc
  alloc-IsBounded s h = absurd (cc h)

  write-IsBounded : (ptr : ℕ) (fields : Fields) → IsBounded (write ops ptr fields)
  unfolding write
  write-IsBounded ptr fields s h = absurd (cc h)

  module _ (ptr : ℕ) where
    write_ptr-IsBounded : (fields : Fields) → IsBounded (write_ptr ops ptr fields)
    unfolding write_ptr ◌>>◌
    write_ptr-IsBounded fields =
        bind-IsBounded (write ops ptr fields) _ (write-IsBounded ptr fields)
          (λ _. pure-IsBounded ptr)

    pub populate_type-IsBounded : (arity : ℤ) → IsBounded (populate_type ops ptr arity)
    unfolding populate_type
    populate_type-IsBounded arity = write_ptr-IsBounded _

    pub populate_pair-IsBounded :
        (head tail : Load S ℕ) (is_local : Bool)
        → IsBounded head
        → IsBounded tail
        → IsBounded (populate_pair ops ptr head tail is_local)
    unfolding populate_pair ◌>>◌
    populate_pair-IsBounded head tail is_local h1 h2 = bind-IsBounded head _ h1 (λ x.
        bind-IsBounded tail _ h2 (λ y.
          bind-IsBounded (if is_local then push_cyclic_data_check _ else pure tt) _
            (if-IsBounded is_local (push_cyclic_data_check-IsBounded _) (pure-IsBounded tt))
            (λ _. write_ptr-IsBounded _)))

    pub populate_dict-IsBounded :
        (key item next : Load S ℕ) (is_local : Bool)
        → IsBounded key
        → IsBounded item
        → IsBounded next
        → IsBounded (populate_dict ops ptr key item next is_local)
    unfolding populate_dict ◌>>◌
    populate_dict-IsBounded key item next is_local h1 h2 h3 = bind-IsBounded key _ h1 (λ x.
        bind-IsBounded item _ h2 (λ y. bind-IsBounded next _ h3 (λ z.
          bind-IsBounded (if z == nil_raw then pure tt else push_type_check _) _
            (if-IsBounded (z == nil_raw) (pure-IsBounded tt) (push_type_check-IsBounded _))
            (λ _.
              bind-IsBounded (if is_local then push_cyclic_data_check _ else pure tt) _
                (if-IsBounded is_local (push_cyclic_data_check-IsBounded _) (pure-IsBounded tt))
                (λ _. write_ptr-IsBounded _)))))

    pub populate_quad-IsBounded :
        (type : Load S ℕ) (x y z : Load S (Option ℕ))
        → IsBounded type
        → IsBounded x
        → IsBounded y
        → IsBounded z
        → IsBounded (populate_quad ops ptr type x y z)
    unfolding populate_quad ◌>>◌ push_arity_check
    populate_quad-IsBounded type x y z h hx hy hz = bind-IsBounded type _ h (λ t.
        bind-IsBounded x _ hx (λ x'. bind-IsBounded y _ hy (λ y'. bind-IsBounded z _ hz (λ z'.
          bind-IsBounded (push_arity_check _) _ (λ s e. absurd (cc e))
            (λ _. write_ptr-IsBounded _)))))

    populate_imm-IsBounded :
        (x : ℕ) {imm k : Load S ℕ}
        → IsBounded imm
        → IsBounded k
        → IsBounded (populate_imm ops ptr x imm k)
    unfolding populate_imm
    populate_imm-IsBounded x {imm} {k} h hk = bind-IsBounded imm _ h (λ y.
        bind-IsBounded (instruction k) _ (instruction-IsBounded k hk) (λ z. write_ptr-IsBounded _))

    pub populate_instr-IsBounded :
        (op : String) (imm : Imm) (imm_val k t f : Load S ℕ)
        → IsBounded imm_val
        → IsBounded k
        → IsBounded t
        → IsBounded f
        → IsBounded (populate_instr ops ptr op imm imm_val k t f)
    unfolding populate_instr
    populate_instr-IsBounded op imm imm_val k t f hi hk ht hf =
        bind-IsBounded (label_of op op_labels (pos 0)) _ (label_of-IsBounded op op_labels (pos 0))
          (λ x. if-IsBounded _ (populate_imm-IsBounded x (checked_type-IsBounded imm_val hi) hk) (
            if-IsBounded _ (populate_imm-IsBounded x (imm_fix-IsBounded imm) hk) (
              if-IsBounded _ (populate_imm-IsBounded x hi hk) (
                if-IsBounded _
                  (bind-IsBounded (instruction k) _ (instruction-IsBounded k hk)
                    (λ z. write_ptr-IsBounded _))
                  (if-IsBounded _
                    (bind-IsBounded (instruction t) _ (instruction-IsBounded t ht) (λ y.
                      bind-IsBounded (instruction f) _ (instruction-IsBounded f hf)
                        (λ z. write_ptr-IsBounded _)))
                    (if-IsBounded _ (labelled x dict_labels) (
                      if-IsBounded _ (labelled x deque_labels) (
                        if-IsBounded _ (labelled x alu_labels) (
                          if-IsBounded _ (labelled x cmp_labels) (
                            if-IsBounded _ (labelled x actor_labels) (
                              if-IsBounded _
                                (bind-IsBounded (imm_label_of imm end_labels (negsuc 0)) _
                                  (imm_label_of-IsBounded imm end_labels (negsuc 0))
                                  (λ y. write_ptr-IsBounded _))
                                (if-IsBounded _ (labelled x sponsor_labels) (
                                  if-IsBounded _ (write_ptr-IsBounded _)
                                    (fail-IsBounded _ (λ h. absurd (cc h))))))))))))))))
      where
        labelled :
            (x : ℕ) (labels : List String)
            → IsBounded (populate_imm ops ptr x (imm_label_of imm labels (pos 0)) k)
        labelled x labels = populate_imm-IsBounded x (imm_label_of-IsBounded imm labels (pos 0)) hk
