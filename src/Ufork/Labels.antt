-- ===== src/Ufork/Labels.antt =====
-- vm/js/ufork.js: the labels of instructions, and instr_parts, which reads an instruction back; and
-- vm/js/loader.js: label, which writes one.
pub mod RoundTrip
use text.Mathlib.Text.{◌==◌ as str_eq}
use mathlib.Core.Option.{map as map_option}
use Prim.Native.String.{String}
use u_fork.Prelude.{
  ℕ, zero, suc, ◌-◌, Bool, ◌==◌, ◌&&◌, if◌then◌else◌, List, [], ◌∷◌, Option, none, some, get_elem?,
}
use u_fork.Prelude.Int.{ℤ, pos, negsuc, ◌+ℤ◌}
use u_fork.Ufork.Constants.{
  undef_raw, nil_raw, false_raw, true_raw, fixnum_t, type_t, pair_t, dict_t, sponsor_t, actor_t,
  instr_t, vm_dict, vm_alu, vm_cmp, vm_actor, vm_deque, vm_end, vm_sponsor,
}
use u_fork.Ufork.Raw.{is_fix, fixnum, fix_to_i32}
use u_fork.Ufork.Memory.{Quad}

abbrev pub error_messages : List String
error_messages =
    "no error" ∷ "general failure" ∷ "out of bounds" ∷ "no memory available" ∷ "fixnum required"
    ∷ "capability required" ∷ "memory pointer required" ∷ "ROM pointer required"
    ∷ "RAM pointer required" ∷ "instruction required" ∷ "type required"
    ∷ "sponsor memory limit reached" ∷ "sponsor cycle limit reached" ∷ "sponsor event limit reached"
    ∷ "assertion failed" ∷ "actor transaction stopped" ∷ "actor transaction aborted" ∷ []

abbrev pub gc_labels : List String
gc_labels = "free" ∷ "gen_x" ∷ "gen_y" ∷ "scan" ∷ []

abbrev pub op_labels : List String
op_labels =
    "debug" ∷ "jump" ∷ "push" ∷ "if" ∷ "VM_04" ∷ "typeq" ∷ "eq" ∷ "assert" ∷ "sponsor" ∷ "actor"
    ∷ "dict" ∷ "deque" ∷ "VM_0C" ∷ "alu" ∷ "cmp" ∷ "end" ∷ "quad" ∷ "pair" ∷ "part" ∷ "nth" ∷ "pick"
    ∷ "roll" ∷ "dup" ∷ "drop" ∷ "msg" ∷ "state" ∷ "VM_1A" ∷ "VM_1B" ∷ "VM_1C" ∷ "VM_1D" ∷ "VM_1E"
    ∷ "VM_1F" ∷ []

abbrev pub dict_labels : List String
dict_labels = "has" ∷ "get" ∷ "add" ∷ "set" ∷ "del" ∷ []

abbrev pub alu_labels : List String
alu_labels =
    "not" ∷ "and" ∷ "or" ∷ "xor" ∷ "add" ∷ "sub" ∷ "mul" ∷ "div" ∷ "lsl" ∷ "lsr" ∷ "asr" ∷ "rol"
    ∷ "ror" ∷ []

abbrev pub cmp_labels : List String
cmp_labels = "eq" ∷ "ge" ∷ "gt" ∷ "lt" ∷ "le" ∷ "ne" ∷ []

abbrev pub actor_labels : List String
actor_labels = "send" ∷ "post" ∷ "create" ∷ "become" ∷ "self" ∷ []

abbrev pub deque_labels : List String
deque_labels = "new" ∷ "empty" ∷ "push" ∷ "pop" ∷ "put" ∷ "pull" ∷ "len" ∷ []

abbrev pub end_labels : List String
end_labels = "abort" ∷ "stop" ∷ "commit" ∷ []

abbrev pub sponsor_labels : List String
sponsor_labels = "new" ∷ "memory" ∷ "events" ∷ "cycles" ∷ "reclaim" ∷ "start" ∷ "stop" ∷ []

-- The labels of an operation's immediate values; `none` is `undefined`.
unfoldable pub imm_labels : ℕ → Option (List String)
imm_labels op =
    if op == vm_dict
    then some dict_labels
    else if op == vm_alu
    then some alu_labels
    else if op == vm_cmp
    then some cmp_labels
    else if op == vm_actor
    then some actor_labels
    else if op == vm_deque
    then some deque_labels
    else if op == vm_end
    then some end_labels
    else if op == vm_sponsor
    then some sponsor_labels
    else none

-- `labels[i]`, which is `undefined` out of range.
abbrev pub label_at : List String → ℤ → Option String
label_at labels (pos i) = get_elem? labels i
label_at labels (negsuc _) = none

abbrev pub or_unknown : Option String → String
or_unknown none = "unknown fault"
or_unknown (some message) = message

unfoldable pub fault_msg : ℤ → String
fault_msg (negsuc n) = or_unknown (get_elem? error_messages (suc n))
fault_msg (pos _) = or_unknown (get_elem? error_messages 0)

unfoldable pub print_gc_color : ℕ → Option String
print_gc_color color = label_at gc_labels (fix_to_i32 color)

pub record InstrParts : Type 0 where
  pub op : String
  pub imm : Option String

-- The label of an immediate value, where its operation has labels.
abbrev pub imm_label : Option (List String) → ℤ → Option String
imm_label none imm = none
imm_label (some labels) imm = label_at labels imm

unfoldable pub instr_parts : Quad → Option InstrParts
instr_parts quad =
    let fudge = if quad.x == vm_end then pos 1 else pos 0 in
    let imm = imm_label (imm_labels quad.x) (fix_to_i32 quad.y +ℤ fudge) in
    if (quad.t == instr_t) && is_fix quad.x
    then map_option (λ op. record { op = op; imm = if is_fix quad.y then imm else none })
        (label_at op_labels (fix_to_i32 quad.x))
    else none

-- `labels.findIndex` of the label that is equal to a name.
unfoldable pub find_index : String → List String → Option ℕ
find_index name [] = none
find_index name (label ∷ labels) =
    let rest = find_index name labels in if str_eq label name then some 0 else map_option suc rest

-- A name without a label fails, which is `none`.
unfoldable pub label : String → List String → ℤ → Option ℕ
label name labels offset =
    map_option (λ index. fixnum (pos index +ℤ offset)) (find_index name labels)

-- The raw values of literals and of the types that have a name.
abbrev pub crlf_literals : List (String × ℕ)
crlf_literals =
    ("undef", undef_raw) ∷ ("nil", nil_raw) ∷ ("false", false_raw) ∷ ("true", true_raw) ∷ []

abbrev pub crlf_types : List (String × ℕ)
crlf_types =
    ("fixnum", fixnum_t)
    ∷ ("type", type_t)
    ∷ ("pair", pair_t)
    ∷ ("dict", dict_t)
    ∷ ("instr", instr_t)
    ∷ ("sponsor", sponsor_t)
    ∷ ("actor", actor_t)
    ∷ []
