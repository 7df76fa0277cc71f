-- ===== src/Loader/Refs.antt =====
-- vm/js/loader.js: the definitions that are references to other definitions of the module, and the
-- order in which they are resolved.
pub mod Depth
pub mod Sorted
pub mod Order
use Prim.Native.String.{String}
use text.Mathlib.Text.{◌==◌ as str_eq}
use u_fork.Prelude.{
  ℕ, zero, suc, ◌+◌, Bool, true, false, ◌||◌, ltb, leb, if◌then◌else◌, List, [], ◌∷◌, ◌++◌, Option,
  none, some, length,
}
use u_fork.Loader.Nodes.{
  Node, ref, literal, fixnum_node, type_node, pair, dict, quad, instr, unknown,
}
use u_fork.Loader.Actions.{Result, ok, err, get, cyclic_refs, out_of_fuel}

-- The name that a local reference depends on.
abbrev pub local_dep : Node → Option String
local_dep (ref none name) = some name
local_dep _ = none

abbrev with_dep : String → Option String → List (String × String) → List (String × String)
with_dep name none deps = deps
with_dep name (some dep) deps = (name, dep) ∷ deps

-- `ref_deps`, in the order of the definitions.
unfoldable pub ref_deps : List (String × Node) → List (String × String)
ref_deps [] = []
ref_deps ((name, node) ∷ define) = with_dep name (local_dep node) (ref_deps define)

unfoldable pub includes : List String → String → Bool
includes [] name = false
includes (other ∷ seen) name = str_eq other name || includes seen name

abbrev plus_one : Result ℕ → Result ℕ
plus_one (ok depth) = ok (suc depth)
plus_one (err e) = err e

-- What a reference to `dep` does: 0 if `dep` is no reference, or one more than its depth.
abbrev pub depth_behind : Option String → Option String → (String → Result ℕ) → Result ℕ
depth_behind none next depth = ok 0
depth_behind (some dep) none depth = ok 0
depth_behind (some dep) (some _) depth = plus_one (depth dep)

abbrev pub get_dep : List (String × String) → Option String → Option String
get_dep deps none = none
get_dep deps (some dep) = get dep deps

unfoldable pub ref_depth : ℕ → List (String × String) → String → List String → Result ℕ
ref_depth zero deps name seen = err out_of_fuel
ref_depth (suc fuel) deps name seen =
    let dep_name = get name deps in
    let deeper =
      depth_behind dep_name (get_dep deps dep_name)
        (λ dep. ref_depth fuel deps dep (seen ++ name ∷ [])) in
    if includes seen name then err cyclic_refs else deeper

-- A stable sort by depth: where a reference goes among those that are sorted.
unfoldable pub insert_by : (String × ℕ) → List (String × ℕ) → List (String × ℕ)
insert_by (name, depth) [] = (name, depth) ∷ []
insert_by (name, depth) ((other, depth') ∷ sorted) =
    if leb depth depth'
    then (name, depth) ∷ (other, depth') ∷ sorted
    else (other, depth') ∷ insert_by (name, depth) sorted

unfoldable pub sort_by_depth : List (String × ℕ) → List (String × ℕ)
sort_by_depth [] = []
sort_by_depth (entry ∷ entries) = insert_by entry (sort_by_depth entries)

abbrev with_depth : String → Result ℕ → Result (List (String × ℕ)) → Result (List (String × ℕ))
with_depth name (err e) rest = err e
with_depth name (ok depth) (err e) = err e
with_depth name (ok depth) (ok entries) = ok ((name, depth) ∷ entries)

-- Enough fuel for a chain of references with no name twice.
unfoldable pub depths : List (String × String) → List (String × String) → Result (List (String × ℕ))
depths deps [] = ok []
depths deps ((name, _) ∷ entries) =
    with_depth name (ref_depth (suc (length deps)) deps name []) (depths deps entries)

abbrev names_of : List (String × ℕ) → List String
names_of [] = []
names_of ((name, _) ∷ entries) = name ∷ names_of entries

abbrev sorted_names : Result (List (String × ℕ)) → Result (List String)
sorted_names (err e) = err e
sorted_names (ok entries) = ok (names_of (sort_by_depth entries))

-- The names of the references in the order of their depths. A list of one is not compared at all.
unfoldable pub resolution_order : List (String × String) → Result (List String)
resolution_order [] = ok []
resolution_order ((name, _) ∷ []) = ok (name ∷ [])
resolution_order (first ∷ second ∷ rest) =
    sorted_names (depths (first ∷ second ∷ rest) (first ∷ second ∷ rest))
