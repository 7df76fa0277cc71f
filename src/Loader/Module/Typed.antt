-- ===== src/Loader/Module/Typed.antt =====
-- vm/js/loader.js: what a module that was loaded has in memory.
use Prim.Native.String.{String}
use u_fork.Prelude.{
  ℕ, ◌≡◌, Bool, true, false, ◌&&◌, if◌then◌else◌, List, [], ◌∷◌, Option, none, some,
}
use u_fork.Loader.Nodes.{
  Node, ref, literal, fixnum_node, type_node, pair, dict, quad, instr, unknown, is_quad,
}
use u_fork.Loader.Actions.{RomOps, Load, pure, ◌>>=◌, get, define, alloc}
use u_fork.Loader.Populate.{Imports, definition_raw, populate}
use u_fork.Loader.Populate.Linked
use u_fork.Loader.Populate.Kept.{
  Writes, IsSafe, has_no_custom, lookup-IsSafe, fail-IsSafe, or_fail-IsSafe,
}
use u_fork.Loader.Populate.Values.{value-IsSafe, populate-IsSafe}
use u_fork.Loader.Module.{for_each, allocate, resolve_node, resolve, populate_definition}

-- No definition has a custom quad in it.
unfoldable pub all_no_custom : List (String × Node) → Bool
all_no_custom [] = true
all_no_custom ((name, node) ∷ definitions) = has_no_custom node && all_no_custom definitions

module _ {S : Type 0} where
  pub for_each-IsSafe :
      {A : Type 0} (action : A → Load (Writes S) (Unit {0})) (items : List A)
      → ((item : A) → Linked.Among item items → IsSafe S (action item))
      → IsSafe S (for_each action items)
  unfolding for_each
  for_each-IsSafe action [] safe s recorded = Linked.pure-Keeps tt s recorded tt
  for_each-IsSafe action (item ∷ items) safe s recorded =
      Linked.bind-Keeps (action item) _ s (safe item Linked.here s recorded) (λ _ s' recorded' _ _.
        for_each-IsSafe action items (λ i among. safe i (Linked.there among)) s' recorded')

  bind_define-IsSafe :
      (m : Load (Writes S) ℕ) (name : String) → IsSafe S m → IsSafe S (m >>= define name)
  bind_define-IsSafe m name safe s recorded =
      Linked.bind-Keeps m (define name) s (safe s recorded)
        (λ raw s' recorded' _ _. Linked.define-Keeps name raw s' recorded')

module _ {S : Type 0} (ops : RomOps S) (imports : Imports) where
  alloc-IsSafe : IsSafe S (alloc (Linked.logged ops))
  alloc-IsSafe s recorded = Linked.alloc-Keeps ops s recorded

  pub allocate-IsSafe :
      (name : String) (node : Node)
      → has_no_custom node ≡ true
      → IsSafe S (allocate (Linked.logged ops) imports (name, node))
  unfolding allocate
  allocate-IsSafe name (ref none dep) h = λ s recorded. Linked.pure-Keeps tt s recorded tt
  allocate-IsSafe name (ref (some mod_name) dep) h =
      bind_define-IsSafe _ name (lookup-IsSafe imports (some mod_name) dep)
  allocate-IsSafe name (literal text) h =
      bind_define-IsSafe _ name (value-IsSafe ops imports (literal text) h)
  allocate-IsSafe name (fixnum_node i) h =
      bind_define-IsSafe _ name (value-IsSafe ops imports (fixnum_node i) h)
  allocate-IsSafe name (type_node type arity) h =
      bind_define-IsSafe _ name (value-IsSafe ops imports (type_node type arity) h)
  allocate-IsSafe name unknown h = bind_define-IsSafe _ name (value-IsSafe ops imports unknown h)
  allocate-IsSafe name (pair _ _) h = bind_define-IsSafe _ name alloc-IsSafe
  allocate-IsSafe name (dict _ _ _) h = bind_define-IsSafe _ name alloc-IsSafe
  allocate-IsSafe name (quad _ _ _ _) h = bind_define-IsSafe _ name alloc-IsSafe
  allocate-IsSafe name (instr _ _ _ _ _) h = bind_define-IsSafe _ name alloc-IsSafe

  pub resolve-IsSafe :
      (definitions : List (String × Node)) (name : String)
      → IsSafe S (resolve {S = Writes S} imports definitions name)
  unfolding resolve
  resolve-IsSafe definitions name = found (get name definitions)
    where
      found : (node : Option Node) → IsSafe S (resolve_node {S = Writes S} imports name node)
      found (some (ref mod_name dep)) =
          bind_define-IsSafe _ name (lookup-IsSafe imports mod_name dep)
      found none = fail-IsSafe _
      found (some (literal _)) = fail-IsSafe _
      found (some (fixnum_node _)) = fail-IsSafe _
      found (some (type_node _ _)) = fail-IsSafe _
      found (some (pair _ _)) = fail-IsSafe _
      found (some (dict _ _ _)) = fail-IsSafe _
      found (some (quad _ _ _ _)) = fail-IsSafe _
      found (some (instr _ _ _ _ _)) = fail-IsSafe _
      found (some unknown) = fail-IsSafe _

  pub populate_definition-IsSafe :
      (name : String) (node : Node)
      → has_no_custom node ≡ true
      → IsSafe S (populate_definition (Linked.logged ops) imports (name, node))
  unfolding populate_definition definition_raw
  populate_definition-IsSafe name node h s recorded = decided (is_quad node)
    where
      decided :
          (b : Bool)
          → Linked.Keeps Linked.Any s (
              (if b
                  then (definition_raw name >>= λ ptr.
                      populate (Linked.logged ops) imports ptr node >>= λ _. pure tt)
                  else pure tt)
                s)
      decided false = Linked.pure-Keeps tt s recorded tt
      decided true =
          Linked.bind-Keeps (definition_raw name) _ s
            (or_fail-IsSafe _ (get name s.definitions) s recorded)
            (λ ptr s' recorded' _ _.
              Linked.bind-Keeps (populate (Linked.logged ops) imports ptr node) _ s'
                (populate-IsSafe ops imports ptr node h s' recorded')
                (λ _ s'' recorded'' _ _. Linked.pure-Keeps tt s'' recorded'' tt))
