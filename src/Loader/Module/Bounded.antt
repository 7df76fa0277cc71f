-- ===== src/Loader/Module/Bounded.antt =====
-- vm/js/loader.js: load_module ends, since no loop of it goes on for ever.
use Prim.Native.String.{String}
use u_fork.Prelude.{
  ℕ, ◌<◌, ◌≡◌, ◌≢◌, ◌==◌, Bool, true, false, if◌then◌else◌, List, [], ◌∷◌, length, Option, none,
  some,
}
use u_fork.Prelude.Members.{Among}
use u_fork.Ufork.Raw.{is_ptr, fix_to_i32}
use u_fork.Ufork.Memory.{Quad}
use u_fork.Loader.Nodes.{
  Node, Ast, ref, literal, fixnum_node, type_node, pair, dict, quad, instr, unknown, is_quad,
}
use u_fork.Loader.Actions.{
  Result, ok, err, RomOps, TypeCheck, ArityCheck, Loading, Load, ◌>>=◌, ◌>>◌, get, define, alloc,
  out_of_fuel, not_a_type, wrong_arity,
}
use u_fork.Loader.Populate.{Imports, definition_raw, lookup, populate}
use u_fork.Loader.Populate.Bounded.{
  IsBounded, pure-IsBounded, fail-IsBounded, bind-IsBounded, if-IsBounded, definition_raw-IsBounded,
  lookup-IsBounded, define-IsBounded, alloc-IsBounded,
}
use u_fork.Loader.Populate.BoundedNodes.{value-IsBounded, populate-IsBounded}
use u_fork.Loader.Refs.{ref_deps, resolution_order}
use u_fork.Loader.Refs.Order.{resolution_order_in_fuel}
use u_fork.Loader.Checks.{
  Reads, Checked, ◌then_check◌, check_each, check_type, has_type, check_cyclic_data, type_arity,
  same_arity, check_arity,
}
use u_fork.Loader.Checks.Cyclic.{check_cyclic_data-Ends}
use u_fork.Loader.Module.{
  reversed, for_each, checked, run_check, with_result, exports_of, initial, all_checks,
  resolve_node, resolve, allocate, populate_definition, populated, load_module,
}

module _ {S : Type 0} where
  for_each-IsBounded :
      {A : Type 0} (action : A → Load S (Unit {0}))
      → ((a : A) → IsBounded (action a))
      → (items : List A) → IsBounded (for_each action items)
  unfolding for_each
  for_each-IsBounded action each [] = pure-IsBounded tt
  for_each-IsBounded action each (item ∷ items) =
      bind-IsBounded (action item) _ (each item) (λ _. for_each-IsBounded action each items)

  exports_of-IsBounded : (names : List String) → IsBounded (exports_of {S = S} names)
  unfolding exports_of
  exports_of-IsBounded [] = pure-IsBounded []
  exports_of-IsBounded (name ∷ names) =
      bind-IsBounded (definition_raw name) _ (definition_raw-IsBounded name) (λ raw.
        bind-IsBounded (exports_of names) _ (exports_of-IsBounded names)
          (λ exports. pure-IsBounded ((name, raw) ∷ exports)))

  defined : (name : String) (m : Load S ℕ) → IsBounded m → IsBounded (m >>= define name)
  defined name m h = bind-IsBounded m (define name) h (define-IsBounded name)

  with_result-IsBounded :
      {A : Type 0} (r : Result A) (f : A → Load S (Unit {0}))
      → r ≢ err out_of_fuel
      → ((a : A) → IsBounded (f a))
      → IsBounded (with_result r f)
  unfolding with_result
  with_result-IsBounded (ok a) f ne each = each a
  with_result-IsBounded {A} (err e) f ne each = fail-IsBounded e (λ same. ne (failed same))
    where
      failed : e ≡ out_of_fuel → ◌≡◌ {A = Result A} (err e) (err out_of_fuel)
      failed same = cc same

  run_check-IsBounded :
      (check : Loading S → Checked)
      → ((s : Loading S) → check s ≢ err out_of_fuel)
      → IsBounded (run_check check)
  unfolding run_check
  run_check-IsBounded check each s = from (check s) (each s)
    where
      from : (c : Checked) → c ≢ err out_of_fuel → checked c s ≢ err out_of_fuel
      from (ok _) ne h = absurd (cc h)
      from (err e) ne h = ne (failed h)
        where
          failed :
              ◌≡◌ {A = Result (Unit {0} × Loading S)} (err e) (err out_of_fuel)
              → ◌≡◌ {A = Checked} (err e) (err out_of_fuel)
          failed h = cc h

-- The checks.
then_check_in_fuel :
    (first later : Checked)
    → first ≢ err out_of_fuel
    → later ≢ err out_of_fuel
    → (first then_check later) ≢ err out_of_fuel
then_check_in_fuel (ok _) later ne ne' = ne'
then_check_in_fuel (err e) later ne ne' = ne

check_each_in_fuel :
    {A : Type 0} (check : A → Checked)
    → ((a : A) → check a ≢ err out_of_fuel)
    → (items : List A) → check_each check items ≢ err out_of_fuel
unfolding check_each
check_each_in_fuel check each [] = λ h. absurd (cc h)
check_each_in_fuel check each (item ∷ items) =
    then_check_in_fuel (check item) (check_each check items) (each item)
      (check_each_in_fuel check each items)

if_in_fuel :
    (b : Bool) {yes no : Checked}
    → yes ≢ err out_of_fuel
    → no ≢ err out_of_fuel
    → (if b then yes else no) ≢ err out_of_fuel
if_in_fuel true on_yes on_no = on_yes
if_in_fuel false on_yes on_no = on_no

check_type_in_fuel : (reads : Reads) (check : TypeCheck) → check_type reads check ≢ err out_of_fuel
unfolding check_type
check_type_in_fuel reads check =
    if_in_fuel (is_ptr check.raw) (of_type (reads check.raw)) (λ h. absurd (cc h))
  where
    of_type : (found : Option Quad) → has_type check.t check.msg found ≢ err out_of_fuel
    of_type none = λ h. absurd (cc h)
    of_type (some found) = if_in_fuel (found.t == check.t) (λ h. absurd (cc h)) (λ h. absurd (cc h))

check_arity_in_fuel :
    (reads : Reads) (check : ArityCheck) → check_arity reads check ≢ err out_of_fuel
unfolding check_arity
check_arity_in_fuel reads check =
    if_in_fuel _ {yes = err not_a_type} (λ h. absurd (cc h)) (of_type (reads check.type_raw))
  where
    of_type : (found : Option Quad) → type_arity check.arity found ≢ err out_of_fuel
    of_type none = λ h. absurd (cc h)
    of_type (some found) =
        if_in_fuel _ {yes = err not_a_type} (λ h. absurd (cc h))
          (if_in_fuel (same_arity check.arity (fix_to_i32 found.x)) {yes = ok tt}
            {no = err wrong_arity} (λ h. absurd (cc h)) (λ h. absurd (cc h)))

module _ {S : Type 0} (ops : RomOps S) (imports : Imports) where
  allocate-IsBounded : (item : String × Node) → IsBounded (allocate ops imports item)
  unfolding allocate
  allocate-IsBounded (name, ref none dep) = pure-IsBounded tt
  allocate-IsBounded (name, ref (some mod_name) dep) =
      defined name (lookup imports (some mod_name) dep)
        (lookup-IsBounded imports (some mod_name) dep)
  allocate-IsBounded (name, literal l) = defined name _ (value-IsBounded ops imports (literal l))
  allocate-IsBounded (name, fixnum_node i) =
      defined name _ (value-IsBounded ops imports (fixnum_node i))
  allocate-IsBounded (name, type_node type arity) =
      defined name _ (value-IsBounded ops imports (type_node type arity))
  allocate-IsBounded (name, unknown) = defined name _ (value-IsBounded ops imports unknown)
  allocate-IsBounded (name, pair _ _) = defined name (alloc ops) (alloc-IsBounded ops)
  allocate-IsBounded (name, dict _ _ _) = defined name (alloc ops) (alloc-IsBounded ops)
  allocate-IsBounded (name, quad _ _ _ _) = defined name (alloc ops) (alloc-IsBounded ops)
  allocate-IsBounded (name, instr _ _ _ _ _) = defined name (alloc ops) (alloc-IsBounded ops)

  resolve_node-IsBounded :
      (name : String) (node : Option Node) → IsBounded (resolve_node {S = S} imports name node)
  resolve_node-IsBounded name (some (ref mod_name dep)) =
      defined name (lookup imports mod_name dep) (lookup-IsBounded imports mod_name dep)
  resolve_node-IsBounded name none = fail-IsBounded _ (λ h. absurd (cc h))
  resolve_node-IsBounded name (some (literal _)) = fail-IsBounded _ (λ h. absurd (cc h))
  resolve_node-IsBounded name (some (fixnum_node _)) = fail-IsBounded _ (λ h. absurd (cc h))
  resolve_node-IsBounded name (some (type_node _ _)) = fail-IsBounded _ (λ h. absurd (cc h))
  resolve_node-IsBounded name (some (pair _ _)) = fail-IsBounded _ (λ h. absurd (cc h))
  resolve_node-IsBounded name (some (dict _ _ _)) = fail-IsBounded _ (λ h. absurd (cc h))
  resolve_node-IsBounded name (some (quad _ _ _ _)) = fail-IsBounded _ (λ h. absurd (cc h))
  resolve_node-IsBounded name (some (instr _ _ _ _ _)) = fail-IsBounded _ (λ h. absurd (cc h))
  resolve_node-IsBounded name (some unknown) = fail-IsBounded _ (λ h. absurd (cc h))

  resolve-IsBounded :
      (definitions : List (String × Node)) (name : String)
      → IsBounded (resolve {S = S} imports definitions name)
  unfolding resolve
  resolve-IsBounded definitions name = resolve_node-IsBounded name (get name definitions)

  populate_definition-IsBounded :
      (item : String × Node) → IsBounded (populate_definition ops imports item)
  unfolding populate_definition
  populate_definition-IsBounded (name, node) =
      if-IsBounded (is_quad node)
        (bind-IsBounded (definition_raw name) _ (definition_raw-IsBounded name) (λ ptr.
          bind-IsBounded (populate ops imports ptr node) _ (populate-IsBounded ops imports ptr node)
            (λ _. pure-IsBounded tt)))
        (pure-IsBounded tt)

  populated-IsBounded : (ast : Ast) → IsBounded (populated ops imports ast)
  unfolding ◌>>◌
  populated-IsBounded ast =
      bind-IsBounded (for_each (allocate ops imports) ast.define) _
        (for_each-IsBounded (allocate ops imports) allocate-IsBounded ast.define)
        (λ _.
          bind-IsBounded
            (with_result (resolution_order (ref_deps ast.define))
              (for_each (resolve imports ast.define)))
            _
            (with_result-IsBounded (resolution_order (ref_deps ast.define)) _
              (resolution_order_in_fuel (ref_deps ast.define))
              (for_each-IsBounded (resolve imports ast.define) (resolve-IsBounded ast.define)))
            (λ _.
              for_each-IsBounded (populate_definition ops imports) populate_definition-IsBounded
                ast.define))

  -- If at most `ptrs` can be read from the memory, whatever was written, and the fuel is more than
  -- their number, then load_module gives a result or an error of the source: it never runs out.
  pub load_module_in_fuel :
      (ptrs : List ℕ) (fuel : ℕ) (ast : Ast) (rom : S)
      → ((s : S) (raw : ℕ) (found : Quad) → ops.read_quad raw s ≡ some found → Among raw ptrs)
      → length ptrs < fuel
      → load_module ops imports fuel ast rom ≢ err out_of_fuel
  unfolding load_module all_checks ◌>>◌
  load_module_in_fuel ptrs fuel ast rom within more =
      bind-IsBounded (populated ops imports ast) _ (populated-IsBounded ast)
        (λ _.
          bind-IsBounded (run_check (all_checks ops fuel)) _
            (run_check-IsBounded (all_checks ops fuel) checks)
            (λ _. exports_of-IsBounded ast.exports))
        (initial rom)
    where
      checks : (s : Loading S) → all_checks ops fuel s ≢ err out_of_fuel
      checks s =
          let reads : Reads = λ raw. ops.read_quad raw s.rom in
          then_check_in_fuel _ _
            (then_check_in_fuel _ _
              (check_each_in_fuel (check_type reads) (check_type_in_fuel reads)
                (reversed s.type_checks))
              (check_each_in_fuel (check_cyclic_data fuel reads)
                (λ check. (check_cyclic_data-Ends reads check ptrs fuel (within s.rom) more).0)
                (reversed s.cyclic_data_checks)))
            (check_each_in_fuel (check_arity reads) (check_arity_in_fuel reads)
              (reversed s.arity_checks))
