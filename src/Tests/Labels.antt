-- ===== src/Tests/Labels.antt =====
-- vm/js/ufork.js and vm/js/loader.js: labels of instructions.
use u_fork.Prelude.{◌≡◌, refl, none, some}
use u_fork.Prelude.Int.{pos, negsuc, ◌+ℤ◌}
use u_fork.Ufork.Constants.{instr_t}
use u_fork.Ufork.Raw.{fixnum, fix_to_i32, is_fix}
use u_fork.Ufork.Labels.{
  end_labels, imm_labels, fault_msg, print_gc_color, instr_parts, find_index, label,
}
use u_fork.Ufork.Labels.RoundTrip.{instr_parts-label}

fault_runs :
    (fault_msg (pos 0) ≡ "no error")
    × (fault_msg (negsuc 15) ≡ "actor transaction aborted")
    × (fault_msg (negsuc 16) ≡ "unknown fault")
    × (print_gc_color 0x80000003 ≡ some "scan")
unfolding fault_msg print_gc_color fix_to_i32
fault_runs = (refl, refl, refl, refl)

-- The operation VM_04 is reserved, but has a label.
instr_parts_runs :
    (instr_parts (record { t = instr_t; x = 0x80000004; y = 0; z = 0 })
      ≡ some (record { op = "VM_04"; imm = none }))
    × (instr_parts (record { t = instr_t; x = 0x80000020; y = 0; z = 0 }) ≡ none)
unfolding instr_parts fix_to_i32 is_fix imm_labels ◌+ℤ◌
instr_parts_runs = (refl, refl)

instr_parts-label_example :
    instr_parts (record { t = instr_t; x = 0x8000000F; y = 0x80000001; z = 0 })
    ≡ some (record { op = "end"; imm = some "commit" })
unfolding label find_index fixnum imm_labels ◌+ℤ◌
instr_parts-label_example =
    instr_parts-label "end" "commit" end_labels 0x8000000F 0x80000001 0 refl refl refl
