-- ===== src/Tests/Loader/Checks.antt =====
-- vm/js/loader.js: a list of two pairs, and two references of which the first refers to the second.
use Prim.Native.String.{String}
use u_fork.Prelude.{
  ℕ, ◌≡◌, Option, ◌≢◌, ◌↔◌, refl, ◌==◌, if◌then◌else◌, List, [], ◌∷◌, none, some, inl, inr,
  Bool-cases, ==_iff, false, subst, sym, arith,
}
use u_fork.Prelude.Members.{Among, here, there}
use u_fork.Ufork.Constants.{pair_t}
use u_fork.Loader.Actions.{RomOps, ok, err, get, CyclicDataCheck, link_y, out_of_fuel}
use u_fork.Loader.Checks.{Reads, check_cyclic_data}
use u_fork.Loader.Checks.Cyclic.{Ends, Within, check_cyclic_data-Ends}
use u_fork.Ufork.Memory.{Quad}
use u_fork.Loader.Module.{load_module}
use u_fork.Loader.Module.Bounded.{load_module_in_fuel}
use u_fork.Tests.Loader.{Rom, find, rom_ops, empty, booting}
use u_fork.Loader.Refs.{resolution_order, depths, ref_depth, includes, sort_by_depth, insert_by}
use u_fork.Loader.Refs.Sorted.{Precedes}
use u_fork.Loader.Refs.Order.{resolution_order-Precedes}

-- The quads 0x50 and 0x51, and no others.
abbrev reads : Reads
reads raw =
    if raw == 0x50
    then some (record { t = pair_t; x = 0x80000001; y = 0x51; z = 0 })
    else if raw == 0x51
    then some (record { t = pair_t; x = 0x80000002; y = 1; z = 0 })
    else none

abbrev check : CyclicDataCheck
check = record { raw = 0x50; t = pair_t; k_field = link_y }

reads-Within : Within reads pair_t link_y (0x50 ∷ 0x51 ∷ [])
reads-Within raw found h = elim (Bool-cases (raw == 0x50)) [
  | inl e ↦ subst (λ r. Among r (0x50 ∷ 0x51 ∷ [])) (sym ((==_iff raw 0x50).0 e)) here
  | inr e ↦ elim (Bool-cases (raw == 0x51)) [
    | inl e' ↦ subst (λ r. Among r (0x50 ∷ 0x51 ∷ [])) (sym ((==_iff raw 0x51).0 e')) (there here)
    | inr e' ↦ absurd (cc (h, nothing e e'))
  ]
]
  where
    nothing : (raw == 0x50) ≡ false → (raw == 0x51) ≡ false → reads raw ≡ none
    nothing e e' = rw (e, e') refl

check_cyclic_data-Ends_example :
    (check_cyclic_data 3 reads check ≢ err out_of_fuel)
    × ((check_cyclic_data 3 reads check ≡ ok tt) ↔ ((n : ℕ) × Ends reads pair_t link_y 0x50 n))
check_cyclic_data-Ends_example =
    check_cyclic_data-Ends reads check (0x50 ∷ 0x51 ∷ []) 3 reads-Within (omega arith)

abbrev deps : List (String × String)
deps = ("a", "b") ∷ ("b", "c") ∷ []

deps_order : resolution_order deps ≡ ok ("b" ∷ "a" ∷ [])
unfolding resolution_order depths ref_depth includes sort_by_depth insert_by get
deps_order = refl

resolution_order-Precedes_example : Precedes {A = String} "b" "a" ("b" ∷ "a" ∷ [])
unfolding get
resolution_order-Precedes_example =
    resolution_order-Precedes deps ("b" ∷ "a" ∷ []) "a" "b" "c" deps_order (omega arith) refl refl

-- A memory of two quads: others cannot be read.
abbrev read_two : ℕ → List (ℕ × Quad) → Option Quad
read_two ptr quads =
    if ptr == 0x50 then find ptr quads else if ptr == 0x51 then find ptr quads else none

abbrev two_ops : RomOps Rom
two_ops = record {
  alloc_quad = rom_ops.alloc_quad;
  read_quad = λ ptr (_, quads). read_two ptr quads;
  write_quad = rom_ops.write_quad;
}

two_ops-Within :
    (s : Rom) (raw : ℕ) (found : Quad)
    → two_ops.read_quad raw s ≡ some found
    → Among raw (0x50 ∷ 0x51 ∷ [])
two_ops-Within s raw found h = elim (Bool-cases (raw == 0x50)) [
  | inl e ↦ subst (λ r. Among r (0x50 ∷ 0x51 ∷ [])) (sym ((==_iff raw 0x50).0 e)) here
  | inr e ↦ elim (Bool-cases (raw == 0x51)) [
    | inl e' ↦ subst (λ r. Among r (0x50 ∷ 0x51 ∷ [])) (sym ((==_iff raw 0x51).0 e')) (there here)
    | inr e' ↦ absurd (cc (h, nothing e e'))
  ]
]
  where
    nothing : (raw == 0x50) ≡ false → (raw == 0x51) ≡ false → two_ops.read_quad raw s ≡ none
    nothing e e' = rw (e, e') refl

load_module_in_fuel_example : load_module two_ops [] 3 booting empty ≢ err out_of_fuel
load_module_in_fuel_example =
    load_module_in_fuel two_ops [] (0x50 ∷ 0x51 ∷ []) 3 booting empty two_ops-Within (omega arith)
