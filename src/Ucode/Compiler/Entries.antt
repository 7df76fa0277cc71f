-- ===== src/Ucode/Compiler/Entries.antt =====
-- fpga/ucode/ucode.js: the objects `words` and `unused` as the list of their entries, in the order
-- of `Object.entries`: keys that are array indices first, from the smallest, then the others in the
-- order of their creation.
use u_fork.Prelude.{
  ℕ, ◌+◌, ◌-◌, ◌*◌, ◌^◌, Bool, true, false, ◌==◌, ◌&&◌, leb, ltb, if◌then◌else◌, List, [], ◌∷◌,
  Option, none, some,
}
use u_fork.Ucode.Compiler.Streams.{same}

-- The number a text of decimal digits stands for, behind the digits of `n`.
abbrev pub decimal : ℕ → List ℕ → Option ℕ
decimal n [] = some n
decimal n (c ∷ cs) =
    let rest = decimal (10 * n + (c - 48)) cs in if leb 48 c && leb c 57 then rest else none

-- An array index has no zero in front and is below 2^32 - 1.
abbrev pub index_of : List ℕ → Option ℕ
index_of [] = none
index_of (c ∷ []) = decimal 0 (c ∷ [])
index_of (c ∷ d ∷ cs) = if c == 48 then none else elim (decimal 0 (c ∷ d ∷ cs)) [
  | none ↦ none
  | some n ↦ if ltb n (2 ^ 32 - 1) then some n else none
]

abbrev pub is_before : Option ℕ → Option ℕ → Bool
is_before none key = false
is_before (some i) none = true
is_before (some i) (some j) = ltb i j

module _ {A : Type 0} where
  -- A key that the object does not have yet.
  unfoldable pub put : List ℕ → A → List (List ℕ × A) → List (List ℕ × A)
  put name value [] = (name, value) ∷ []
  put name value ((key, held) ∷ entries) =
      let rest = put name value entries in
      if is_before (index_of name) (index_of key)
      then (name, value) ∷ (key, held) ∷ entries
      else (key, held) ∷ rest

  unfoldable pub held_at : List ℕ → List (List ℕ × A) → Option A
  held_at name [] = none
  held_at name ((key, value) ∷ entries) =
      let rest = held_at name entries in if same name key then some value else rest

  unfoldable pub delete : List ℕ → List (List ℕ × A) → List (List ℕ × A)
  delete name [] = []
  delete name ((key, value) ∷ entries) =
      let rest = delete name entries in if same name key then rest else (key, value) ∷ rest

  -- `delete unused[Object.keys(unused).pop()]`: the last entry goes.
  unfoldable pub without_last : List (List ℕ × A) → List (List ℕ × A)
  without_last [] = []
  without_last (entry ∷ []) = []
  without_last (entry ∷ next ∷ entries) = entry ∷ without_last (next ∷ entries)

  -- `Object.values`
  abbrev pub values : List (List ℕ × A) → List A
  values [] = []
  values ((key, value) ∷ entries) = value ∷ values entries

  unfoldable pub from_entries : List (List ℕ × A) → List (List ℕ × A) → List (List ℕ × A)
  from_entries [] made = made
  from_entries ((key, value) ∷ entries) made = from_entries entries (put key value made)
