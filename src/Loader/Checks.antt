-- ===== src/Loader/Checks.antt =====
-- vm/js/loader.js: the checks of load_module once the quads are populated.
pub mod Cyclic
use u_fork.Prelude.{
  ℕ, zero, suc, Bool, true, false, not, ◌&&◌, ◌||◌, ◌==◌, if◌then◌else◌, List, [], ◌∷◌, Option,
  none, some,
}
use u_fork.Prelude.Int.{ℤ, pos, negsuc}
use u_fork.Ufork.Constants.{type_t, instr_t, pair_t, dict_t}
use u_fork.Ufork.Raw.{is_ptr, in_mem, fix_to_i32}
use u_fork.Ufork.Memory.{Quad}
use u_fork.Loader.Actions.{
  Expected, wrong_type, Result, ok, err, TypeCheck, CyclicDataCheck, ArityCheck, Link, link_y,
  link_z, cyclic, not_a_type, wrong_arity, type_error, out_of_fuel,
}

-- The memory as the checks read it; they change nothing.
abbrev pub Reads : Type 0
Reads = ℕ → Option Quad

abbrev pub Checked : Type 0
Checked = Result (Unit {0})

infixl 1 ◌then_check◌
abbrev pub ◌then_check◌ : Checked → Checked → Checked
(ok _) then_check later = later
(err e) then_check later = err e

-- `forEach`
unfoldable pub check_each : {A : Type 0} → (A → Checked) → List A → Checked
check_each check [] = ok tt
check_each check (item ∷ items) = check item then_check check_each check items

abbrev pub has_type : ℕ → Expected → Option Quad → Checked
has_type t msg none = err type_error
has_type t msg (some found) = if found.t == t then ok tt else err (wrong_type msg)

unfoldable pub check_type : Reads → TypeCheck → Checked
check_type reads check =
    if is_ptr check.raw
    then has_type check.t check.msg (reads check.raw)
    else err (wrong_type check.msg)

unfoldable pub seen_before : ℕ → List ℕ → Bool
seen_before raw [] = false
seen_before raw (other ∷ seen) = (other == raw) || seen_before raw seen

abbrev pub follow : Link → Quad → ℕ
follow link_y found = found.y
follow link_z found = found.z

-- The loop over a chain of quads; a quad of another type ends it.
abbrev pub along : ℕ → Link → (ℕ → Checked) → Option Quad → Checked
along t k_field next none = err type_error
along t k_field next (some found) = elim (found.t == t) [
  | true ↦ next (follow k_field found)
  | false ↦ ok tt
]

unfoldable pub check_chain : ℕ → Reads → ℕ → Link → List ℕ → ℕ → Checked
check_chain zero reads t k_field seen raw = err out_of_fuel
check_chain (suc fuel) reads t k_field seen raw =
    let rest = along t k_field (check_chain fuel reads t k_field (raw ∷ seen)) (reads raw) in
    if is_ptr raw then (if seen_before raw seen then err cyclic else rest) else ok tt

unfoldable pub check_cyclic_data : ℕ → Reads → CyclicDataCheck → Checked
check_cyclic_data fuel reads check = check_chain fuel reads check.t check.k_field [] check.raw

abbrev pub same_arity : ℕ → ℤ → Bool
same_arity arity (pos n) = arity == n
same_arity arity (negsuc _) = false

abbrev pub type_arity : ℕ → Option Quad → Checked
type_arity arity none = err type_error
type_arity arity (some type_quad) =
    if not (type_quad.t == type_t)
    then err not_a_type
    else if same_arity arity (fix_to_i32 type_quad.x)
    then ok tt
    else err wrong_arity

unfoldable pub check_arity : Reads → ArityCheck → Checked
check_arity reads check =
    if not (in_mem check.type_raw)
      && not (check.type_raw == type_t)
      && not (check.type_raw == instr_t)
      && not (check.type_raw == pair_t)
      && not (check.type_raw == dict_t)
    then err not_a_type
    else type_arity check.arity (reads check.type_raw)
