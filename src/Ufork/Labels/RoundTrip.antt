-- ===== src/Ufork/Labels/RoundTrip.antt =====
-- vm/js/loader.js: label, and vm/js/ufork.js: instr_parts, against each other.
use text.Mathlib.Text.{◌==◌ as str_eq}
use text.Mathlib.TextEquality.{eq_iff as str_eq_iff}
use mathlib.Core.Option.{map as map_option, none-ne-some}
use Prim.Native.String.{String}
use u_fork.Prelude.{
  ℕ, zero, suc, ◌≤◌, ◌<◌, ◌≡◌, refl, sym, ap, subst, ◌∙◌, Bool, true, false, ◌==◌, if◌then◌else◌,
  List, [], ◌∷◌, Option, none, some, ◌⊎◌, inl, inr, length, get_elem?, if_both, arith,
}
use u_fork.Prelude.Int.{ℤ, pos, negsuc, ◌+ℤ◌}
use u_fork.Ufork.Constants.{
  instr_t, vm_end, vm_dict, vm_alu, vm_cmp, vm_actor, vm_deque, vm_sponsor,
}
use u_fork.Ufork.Raw.{fixnum, fix_to_i32, is_fix}
use u_fork.Ufork.Raw.RoundTrip.{IsFixInt, fix_to_i32-fixnum}
use u_fork.Ufork.Labels.{
  op_labels, imm_labels, instr_parts, find_index, label, dict_labels, alu_labels, cmp_labels,
  actor_labels, deque_labels, end_labels, sponsor_labels,
}

some_injective : {A : Type 0} {a b : A} → some a ≡ some b → a ≡ b
some_injective {a} p = ap (λ o. elim o [ none ↦ a | some x ↦ x ]) p

found_at :
    (l name : String) (labels : List String) (same : Bool) (rest : Option ℕ) (i : ℕ)
    → (same ≡ true → l ≡ name)
    → ((j : ℕ) → rest ≡ some j → get_elem? labels j ≡ some name)
    → (if same then some 0 else map_option suc rest) ≡ some i
    → get_elem? (l ∷ labels) i ≡ some name
found_at l name labels true rest i first later h = rw (← some_injective h) (ap some (first refl))
found_at l name labels false none i first later h = absurd (none-ne-some i h)
found_at l name labels false (some j) i first later h = rw (← some_injective h) (later j refl)

-- The index that is found holds the name.
find_index-get_elem? :
    (name : String) (labels : List String) (i : ℕ)
    → find_index name labels ≡ some i
    → get_elem? labels i ≡ some name
unfolding find_index
find_index-get_elem? name [] i h = absurd (none-ne-some i h)
find_index-get_elem? name (l ∷ labels) i h =
    found_at l name labels (str_eq l name) (find_index name labels) i ((str_eq_iff l name).0)
      (find_index-get_elem? name labels) h

in_range :
    (labels : List String) (i : ℕ) (name : String)
    → get_elem? labels i ≡ some name
    → i < length labels
in_range [] i name h = absurd (none-ne-some name h)
in_range (l ∷ labels) zero name h = omega arith
in_range (l ∷ labels) (suc i) name h = omega (arith, in_range labels i name h)

offset_fits :
    (i : ℕ) (offset : ℤ)
    → (offset ≡ pos 0) ⊎ (offset ≡ negsuc 0)
    → i < 32
    → IsFixInt (pos i +ℤ offset)
unfolding ◌+ℤ◌
offset_fits i offset (inl e) lt = rw e (ground arith)
offset_fits i offset (inr e) lt = rw e (ground arith)

-- A label of a short list is a fixnum, and is read back as the name's index and the offset.
label_explained :
    (name : String) (labels : List String) (offset : ℤ) (raw : ℕ)
    → length labels ≤ 32
    → (offset ≡ pos 0) ⊎ (offset ≡ negsuc 0)
    → label name labels offset ≡ some raw
    → (i : ℕ) × (get_elem? labels i ≡ some name)
      × (fix_to_i32 raw ≡ pos i +ℤ offset)
      × (is_fix raw ≡ true)
unfolding label
label_explained name labels offset raw short small h = explained (find_index name labels) refl h
  where
    explained :
        (found : Option ℕ)
        → find_index name labels ≡ found
        → map_option (λ index. fixnum (pos index +ℤ offset)) found ≡ some raw
        → (i : ℕ) × (get_elem? labels i ≡ some name)
          × (fix_to_i32 raw ≡ pos i +ℤ offset)
          × (is_fix raw ≡ true)
    explained none e h = absurd (none-ne-some raw h)
    explained (some i) e h =
        let at_i = find_index-get_elem? name labels i e in
        let (back, _, fix) =
          fix_to_i32-fixnum (pos i +ℤ offset)
            (offset_fits i offset small (omega (arith, in_range labels i name at_i))) in
        (i, at_i, rw (← some_injective h) back, rw (← some_injective h) fix)

add_none : (i : ℕ) → pos i +ℤ pos 0 ≡ pos i
unfolding ◌+ℤ◌
add_none i = ground arith

pos_injective : {i j : ℕ} → pos i ≡ pos j → i ≡ j
pos_injective {i} p = ap (λ z. elim z [ pos k ↦ k | negsuc _ ↦ i ]) p

-- A name whose label in a short list is the index of another name is that name.
pub label_eq :
    (name other : String) (labels : List String) (raw i : ℕ)
    → length labels ≤ 32
    → label name labels (pos 0) ≡ some raw
    → fix_to_i32 raw ≡ pos i
    → get_elem? labels i ≡ some other
    → name ≡ other
label_eq name other labels raw i short h index at_i =
    let (j, at_j, back, _) = label_explained name labels (pos 0) raw short (inl refl) h in
    let same = pos_injective (sym index ∙ back ∙ add_none j) in
    some_injective (sym at_j ∙ ap (get_elem? labels) (sym same) ∙ at_i)

abbrev Short : Option (List String) → Type 0
Short none = Unit
Short (some labels) = length labels ≤ 32

imm_labels-Short : (op : ℕ) → Short (imm_labels op)
unfolding imm_labels
imm_labels-Short op = if_both {yes = some dict_labels} Short (op == vm_dict) (omega arith) (
    if_both {yes = some alu_labels} Short (op == vm_alu) (omega arith) (
      if_both {yes = some cmp_labels} Short (op == vm_cmp) (omega arith) (
        if_both {yes = some actor_labels} Short (op == vm_actor) (omega arith) (
          if_both {yes = some deque_labels} Short (op == vm_deque) (omega arith) (
            if_both {yes = some end_labels} Short (op == vm_end) (omega arith) (
              if_both {yes = some sponsor_labels} {no = none} Short (op == vm_sponsor) (omega arith)
                tt))))))

-- The offset of an operation's labels, and that instr_parts takes back.
abbrev pub offset_of : ℕ → ℤ
offset_of op = if op == vm_end then negsuc 0 else pos 0

offset_cases : (op : ℕ) → (offset_of op ≡ pos 0) ⊎ (offset_of op ≡ negsuc 0)
offset_cases op =
    if_both {yes = negsuc 0} {no = pos 0} (λ o. (o ≡ pos 0) ⊎ (o ≡ negsuc 0)) (op == vm_end)
      (inr refl) (inl refl)

taken_back :
    (is_end : Bool) (j : ℕ)
    → pos j +ℤ (if is_end then negsuc 0 else pos 0) +ℤ (if is_end then pos 1 else pos 0) ≡ pos j
unfolding ◌+ℤ◌
taken_back true j = ground arith
taken_back false j = ground arith

read_back :
    (op imm : String) (labels : List String) (x y z i j : ℕ)
    → fix_to_i32 x ≡ pos i
    → is_fix x ≡ true
    → get_elem? op_labels i ≡ some op
    → imm_labels x ≡ some labels
    → fix_to_i32 y +ℤ (if x == vm_end then pos 1 else pos 0) ≡ pos j
    → is_fix y ≡ true
    → get_elem? labels j ≡ some imm
    → instr_parts (record { t = instr_t; x = x; y = y; z = z })
      ≡ some (record { op = op; imm = some imm })
unfolding instr_parts
read_back op imm labels x y z i j ex fx ox lx ey fy oy = rw (ex, fx, lx, ey, fy) (rw (ox, oy) refl)

-- An instruction whose operation and immediate value are labels is read back as these labels,
-- whatever its continuation.
pub instr_parts-label :
    (op imm : String) (labels : List String) (x y z : ℕ)
    → label op op_labels (pos 0) ≡ some x
    → imm_labels x ≡ some labels
    → label imm labels (offset_of x) ≡ some y
    → instr_parts (record { t = instr_t; x = x; y = y; z = z })
      ≡ some (record { op = op; imm = some imm })
instr_parts-label op imm labels x y z hx hl hy =
    let (i, op_at, op_back, op_fix) =
      label_explained op op_labels (pos 0) x (omega arith) (inl refl) hx in
    let (j, imm_at, imm_back, imm_fix) =
      label_explained imm labels (offset_of x) y (subst Short hl (imm_labels-Short x))
        (offset_cases x) hy in
    read_back op imm labels x y z i j (op_back ∙ add_none i) op_fix op_at hl
      (ap (λ b. b +ℤ (if x == vm_end then pos 1 else pos 0)) imm_back ∙ taken_back (x == vm_end) j)
      imm_fix imm_at
