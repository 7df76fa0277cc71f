-- ===== src/Loader/Module.antt =====
-- vm/js/loader.js: load_module, in the order of the source's steps.
pub mod Typed
pub mod Sound
pub mod Bounded
use Prim.Native.String.{String}
use u_fork.Prelude.{ℕ, zero, suc, if◌then◌else◌, List, [], ◌∷◌, ◌++◌, Option, none, some}
use u_fork.Loader.Nodes.{
  Node, Ast, ref, literal, fixnum_node, type_node, pair, dict, quad, instr, unknown, is_quad,
}
use u_fork.Loader.Actions.{
  Result, ok, err, RomOps, Loading, Load, pure, fail, or_fail, ◌>>=◌, ◌>>◌, get, define, alloc,
  not_defined,
}
use u_fork.Loader.Populate.{Imports, definition_raw, lookup, value, populate}
use u_fork.Loader.Refs.{ref_deps, resolution_order}
use u_fork.Loader.Checks.{
  Checked, ◌then_check◌, check_each, check_type, check_cyclic_data, check_arity,
}

-- The lists are in the order of the source when they are reversed.
unfoldable pub reversed : {A : Type 0} → List A → List A
reversed [] = []
reversed (item ∷ items) = reversed items ++ item ∷ []

module _ {S : Type 0} where
  -- `forEach` of an action.
  unfoldable pub for_each : {A : Type 0} → (A → Load S (Unit {0})) → List A → Load S (Unit {0})
  for_each action [] = pure tt
  for_each action (item ∷ items) = action item >>= λ _. for_each action items

  -- The checks read the memory as it is then.
  abbrev pub checked : Checked → Loading S → Result (Unit {0} × Loading S)
  checked (ok _) s = ok (tt, s)
  checked (err e) s = err e

  unfoldable pub run_check : (Loading S → Checked) → Load S (Unit {0})
  run_check check s = checked (check s) s

  unfoldable pub with_result : {A : Type 0} → Result A → (A → Load S (Unit {0})) → Load S (Unit {0})
  with_result (ok a) f = f a
  with_result (err e) f = fail e

  unfoldable pub exports_of : List String → Load S (List (String × ℕ))
  exports_of [] = pure []
  exports_of (name ∷ names) =
      definition_raw name >>= λ raw. exports_of names >>= λ exports. pure ((name, raw) ∷ exports)

  abbrev pub initial : S → Loading S
  initial rom = record {
    definitions = [];
    type_checks = [];
    cyclic_data_checks = [];
    arity_checks = [];
    rom = rom;
  }

module _ {S : Type 0} (ops : RomOps S) where
  -- The checks one after the other, each list of them in turn.
  unfoldable pub all_checks : ℕ → Loading S → Checked
  all_checks fuel s =
      let reads = λ (raw : ℕ). ops.read_quad raw s.rom in
      check_each (check_type reads) (reversed s.type_checks)
      then_check check_each (check_cyclic_data fuel reads) (reversed s.cyclic_data_checks)
      then_check check_each (check_arity reads) (reversed s.arity_checks)

module _ {S : Type 0} (imports : Imports) where
  -- `definitions[name] = lookup(ir.ast.define[name])`
  abbrev pub resolve_node : String → Option Node → Load S (Unit {0})
  resolve_node name (some (ref mod_name dep)) = lookup imports mod_name dep >>= define name
  resolve_node name _ = fail not_defined

  unfoldable pub resolve : List (String × Node) → String → Load S (Unit {0})
  resolve definitions name = resolve_node name (get name definitions)

module _ {S : Type 0} (ops : RomOps S) (imports : Imports) where
  -- A placeholder for a quad, or the raw of what needs none; a local reference waits.
  unfoldable pub allocate : String × Node → Load S (Unit {0})
  allocate (name, ref none dep) = pure tt
  allocate (name, ref (some mod_name) dep) = lookup imports (some mod_name) dep >>= define name
  allocate (name, literal text) = value ops imports (literal text) >>= define name
  allocate (name, fixnum_node integer) = value ops imports (fixnum_node integer) >>= define name
  allocate (name, type_node type arity) = value ops imports (type_node type arity) >>= define name
  allocate (name, unknown) = value ops imports unknown >>= define name
  allocate (name, pair _ _) = alloc ops >>= define name
  allocate (name, dict _ _ _) = alloc ops >>= define name
  allocate (name, quad _ _ _ _) = alloc ops >>= define name
  allocate (name, instr _ _ _ _ _) = alloc ops >>= define name

  unfoldable pub populate_definition : String × Node → Load S (Unit {0})
  populate_definition (name, node) =
      if is_quad node
      then (definition_raw name >>= λ ptr. populate ops imports ptr node >>= λ _. pure tt)
      else pure tt

  -- The steps before the checks.
  abbrev pub populated : Ast → Load S (Unit {0})
  populated ast = do
    for_each allocate ast.define
    with_result (resolution_order (ref_deps ast.define)) (for_each (resolve imports ast.define))
    for_each populate_definition ast.define

  -- The exports and the memory. `fuel` bounds the chains of the cyclic data checks.
  unfoldable pub load_module : ℕ → Ast → S → Result (List (String × ℕ) × Loading S)
  load_module fuel ast rom =
      let load = do populated ast; run_check (all_checks ops fuel); exports_of ast.exports
      in load (initial rom)
