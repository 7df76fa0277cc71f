-- ===== src/Tests/Loader.antt =====
-- vm/js/loader.js: modules that are loaded into a ROM which grows from its reserved quads on.
mod Checks
use u_fork.Prelude.{
  ℕ, suc, ◌≡◌, refl, ◌==◌, if◌then◌else◌, List, [], ◌∷◌, Option, none, some, ◌⊎◌, inl,
}
use u_fork.Prelude.Int.{pos, ◌+ℤ◌}
use u_fork.Ufork.Constants.{undef_raw, instr_t, dict_t, nil_raw}
use u_fork.Ufork.Raw.{fixnum, is_ptr}
use u_fork.Ufork.Memory.{Quad}
use u_fork.Ufork.Labels.{label, find_index}
use u_fork.Loader.Nodes.{
  Ast, is_quad, is_local_ref, fixnum_node, ref, pair, instr, absent, present, no_imm, imm_text,
  imm_node,
}
use u_fork.Loader.Actions.{
  ok, err, RomOps, ◌>>=◌, ◌>>◌, get, define, push_type_check, push_cyclic_data_check, alloc, write,
  cyclic_refs, cyclic, expected_instruction, wrong_type, not_defined,
}
use u_fork.Loader.Populate.{
  definition_raw, lookup, label_of, populate_imm, fix, instruction, write_ptr, populate_instr,
  populate_pair, imm_label_of, value, field_value, needed, imm_value, populate,
}
use u_fork.Loader.Populate.Linked
use u_fork.Loader.Refs.{
  ref_deps, resolution_order, depths, ref_depth, includes, sort_by_depth, insert_by,
}
use u_fork.Loader.Checks.{check_each, check_type, check_cyclic_data, check_chain, seen_before}
use u_fork.Loader.Module.{
  for_each, exports_of, allocate, all_checks, populate_definition, load_module, with_result,
  resolve, run_check, reversed,
}
use u_fork.Loader.Populate.Kept.{has_no_custom}
use u_fork.Loader.Module.Typed.{all_no_custom}
use u_fork.Loader.Module.Sound.{PointsTo, load_module-PointsTo}

-- The pointer to the next quad, and the quads written, the last first.
abbrev pub Rom : Type 0
Rom = ℕ × List (ℕ × Quad)

abbrev pub or_undef : Option ℕ → ℕ
or_undef none = undef_raw
or_undef (some raw) = raw

abbrev pub find : ℕ → List (ℕ × Quad) → Option Quad
find ptr [] = none
find ptr ((other, quad) ∷ quads) = if other == ptr then some quad else find ptr quads

abbrev pub rom_ops : RomOps Rom
rom_ops = record {
  alloc_quad = λ (top, quads). (top, (suc top, quads));
  read_quad = λ ptr (_, quads). find ptr quads;
  write_quad = λ ptr fields (top, quads). (
    top,
    (
      ptr,
      record {
        t = or_undef fields.t;
        x = or_undef fields.x;
        y = or_undef fields.y;
        z = or_undef fields.z;
      },
    )
        ∷ quads,
  );
}

abbrev pub empty : Rom
empty = (0x50, [])

-- `boot: push 7; end commit`, with another name for it.
abbrev pub booting : Ast
booting = record {
  define =
      ("alias", ref none "boot")
      ∷ (
        "boot",
        instr "push" (imm_node (fixnum_node (pos 7)))
            (present (instr "end" (imm_text "commit") absent absent absent)) absent absent,
      )
      ∷ [];
  exports = "alias" ∷ [];
}

abbrev loaded : Linked.Log Rom
loaded = record {
  definitions = ("alias", 0x50) ∷ ("boot", 0x50) ∷ [];
  type_checks = record { raw = 0x51; t = instr_t; msg = expected_instruction } ∷ [];
  cyclic_data_checks = [];
  arity_checks = [];
  rom = (
    (
      0x52,
      (0x50, record { t = instr_t; x = 0x80000002; y = 0x80000007; z = 0x51 })
          ∷ (0x51, record { t = instr_t; x = 0x8000000F; y = 0x80000001; z = undef_raw })
          ∷ [],
    ),
    (0x50, record { t = some instr_t; x = some 0x80000002; y = some 0x80000007; z = some 0x51 })
        ∷ (0x51, record { t = some instr_t; x = some 0x8000000F; y = some 0x80000001; z = none })
        ∷ [],
  );
}

booting_loads :
    load_module (Linked.logged rom_ops) [] 8 booting (empty, []) ≡ ok (("alias", 0x50) ∷ [], loaded)
unfolding load_module for_each allocate ◌>>=◌ ◌>>◌ get define definition_raw lookup label_of label
    find_index instruction write_ptr populate_instr populate_imm imm_label_of value field_value
    needed imm_value populate ref_deps resolution_order exports_of all_checks populate_definition
    push_type_check alloc write check_each check_type fixnum is_quad is_ptr Linked.logged
    with_result resolve run_check reversed ◌+ℤ◌
booting_loads = refl

load_errors :
    (load_module rom_ops [] 8
        (record { define = ("a", ref none "b") ∷ ("b", ref none "a") ∷ []; exports = [] })
        empty
      ≡ err cyclic_refs)
    × (load_module rom_ops [] 8 (record { define = ("a", ref none "b") ∷ []; exports = [] }) empty
        ≡ err not_defined)
    × (load_module rom_ops [] 8
          (record {
            define =
                ("boot", instr "debug" no_imm (present (fixnum_node (pos 7))) absent absent) ∷ [];
            exports = [];
          })
          empty
        ≡ err (wrong_type expected_instruction))
    × (load_module rom_ops [] 8
          (record {
            define = ("list", pair (fixnum_node (pos 7)) (ref none "list")) ∷ [];
            exports = [];
          })
          empty
        ≡ err cyclic)
unfolding load_module for_each allocate ◌>>=◌ ◌>>◌ get define definition_raw lookup label_of label
    find_index instruction write_ptr populate_instr populate_imm imm_label_of value field_value
    needed imm_value populate ref_deps resolution_order exports_of all_checks populate_definition
    push_type_check alloc write check_each check_type fixnum is_quad is_ptr with_result resolve
    run_check reversed ◌+ℤ◌ depths ref_depth includes sort_by_depth insert_by populate_pair
    is_local_ref push_cyclic_data_check check_cyclic_data check_chain seen_before fix
load_errors = (refl, refl, refl, refl)

-- `boot: if` it is true, `end commit`, and else `end stop`.
abbrev choosing : Ast
choosing = record {
  define =
      (
        "boot",
        instr "if" no_imm absent (present (instr "end" (imm_text "commit") absent absent absent))
            (present (instr "end" (imm_text "stop") absent absent absent)),
      )
      ∷ [];
  exports = "boot" ∷ [];
}

abbrev chosen : Linked.Log Rom
chosen = record {
  definitions = ("boot", 0x50) ∷ [];
  type_checks =
      record { raw = 0x52; t = instr_t; msg = expected_instruction }
      ∷ record { raw = 0x51; t = instr_t; msg = expected_instruction }
      ∷ [];
  cyclic_data_checks = [];
  arity_checks = [];
  rom = (
    (
      0x53,
      (0x50, record { t = instr_t; x = 0x80000003; y = 0x51; z = 0x52 })
          ∷ (0x52, record { t = instr_t; x = 0x8000000F; y = 0x80000000; z = undef_raw })
          ∷ (0x51, record { t = instr_t; x = 0x8000000F; y = 0x80000001; z = undef_raw })
          ∷ [],
    ),
    (0x50, record { t = some instr_t; x = some 0x80000003; y = some 0x51; z = some 0x52 })
        ∷ (0x52, record { t = some instr_t; x = some 0x8000000F; y = some 0x80000000; z = none })
        ∷ (0x51, record { t = some instr_t; x = some 0x8000000F; y = some 0x80000001; z = none })
        ∷ [],
  );
}

choosing_loads :
    load_module (Linked.logged rom_ops) [] 8 choosing (empty, []) ≡ ok (("boot", 0x50) ∷ [], chosen)
unfolding load_module for_each allocate ◌>>=◌ ◌>>◌ get define definition_raw label_of label
    find_index instruction write_ptr populate_instr imm_label_of value needed imm_value populate
    ref_deps resolution_order exports_of all_checks populate_definition push_type_check alloc write
    check_each check_type fixnum is_quad is_ptr Linked.logged with_result run_check reversed ◌+ℤ◌
choosing_loads = refl

-- Where the `if` goes when it is true.
load_module-PointsTo_example : PointsTo (λ raw. rom_ops.read_quad raw chosen.rom.0) instr_t 0x51
unfolding all_no_custom has_no_custom
load_module-PointsTo_example =
    load_module-PointsTo rom_ops [] 8 choosing empty (("boot", 0x50) ∷ []) chosen refl
      choosing_loads 0x50 0x51 instr_t
      (record { t = some instr_t; x = some 0x80000003; y = some 0x51; z = some 0x52 }) Linked.here
      (Linked.if_true refl refl refl)
