-- ===== src/Loader/Actions.antt =====
-- vm/js/loader.js: the variables of load_module, and actions on them. An action fails with the message
-- of the error that the source throws, without its data.
use Prim.Native.String.{String}
use text.Mathlib.Text.{◌==◌ as str_eq}
use u_fork.Prelude.{ℕ, List, [], ◌∷◌, Option, none, some, if◌then◌else◌}
use u_fork.Ufork.Memory.{Quad, Fields}

-- The messages of type checks.
pub data Expected : Type 0 where
  expected_instruction expected_dict expected_type : Expected

pub data Failure : Type 0 where
  not_defined not_exported not_imported bad_label not_a_literal not_a_fixnum : Failure
  not_a_value not_an_op not_a_quad : Failure
  cyclic_refs cyclic not_a_type wrong_arity : Failure
  wrong_type : Expected → Failure
  -- A property of `undefined`.
  type_error : Failure
  -- The model's bound of a loop.
  out_of_fuel : Failure

pub data Result {ℓ} (A : Type ℓ) : Type ℓ where
  ok : A → Result A
  err : Failure → Result A

-- The functions that the caller gives, over the state `S` of the memory. A quad that is out of
-- bounds is `undefined`, which is `none`.
pub record RomOps (S : Type 0) : Type 0 where
  pub alloc_quad : S → ℕ × S
  pub read_quad : ℕ → S → Option Quad
  pub write_quad : ℕ → Fields → S → S

pub record TypeCheck : Type 0 where
  pub raw : ℕ
  pub t : ℕ
  pub msg : Expected

-- The field that links the quads of a list.
pub data Link : Type 0 where
  link_y link_z : Link

pub record CyclicDataCheck : Type 0 where
  pub raw : ℕ
  pub t : ℕ
  pub k_field : Link

pub record ArityCheck : Type 0 where
  pub type_raw : ℕ
  pub arity : ℕ

-- `push` puts the last entry first, and the lists are read in reverse.
pub record Loading (S : Type 0) : Type 0 where
  pub definitions : List (String × ℕ)
  pub type_checks : List TypeCheck
  pub cyclic_data_checks : List CyclicDataCheck
  pub arity_checks : List ArityCheck
  pub rom : S

-- An object with no prototype: `object[name]`, and its assignment.
unfoldable pub get : {A : Type 0} → String → List (String × A) → Option A
get name [] = none
get name ((key, a) ∷ entries) = if str_eq key name then some a else get name entries

abbrev pub Load : Type 0 → Type 0 → Type 0
Load S A = Loading S → Result (A × Loading S)

module _ {S : Type 0} {A : Type 0} where
  abbrev pub pure : A → Load S A
  pure a s = ok (a, s)

  abbrev pub fail : Failure → Load S A
  fail e s = err e

  abbrev pub or_fail : Failure → Option A → Load S A
  or_fail e none = fail e
  or_fail e (some a) = pure a

module _ {S : Type 0} {A B : Type 0} where
  abbrev pub goes_on : (A → Load S B) → Result (A × Loading S) → Result (B × Loading S)
  goes_on f (ok (a, s)) = f a s
  goes_on f (err e) = err e

  infixl 1 ◌>>=◌ ◌>>◌
  unfoldable pub ◌>>=◌ : Load S A → (A → Load S B) → Load S B
  (m >>= f) s = goes_on f (m s)

  unfoldable pub ◌>>◌ : Load S A → Load S B → Load S B
  m >> k = m >>= λ _. k

module _ {S : Type 0} where
  unfoldable pub define : String → ℕ → Load S (Unit {0})
  define name raw s = ok (tt, record s { definitions = (name, raw) ∷ s.definitions })

  unfoldable pub push_type_check : TypeCheck → Load S (Unit {0})
  push_type_check check s = ok (tt, record s { type_checks = check ∷ s.type_checks })

  unfoldable pub push_cyclic_data_check : CyclicDataCheck → Load S (Unit {0})
  push_cyclic_data_check check s =
      ok (tt, record s { cyclic_data_checks = check ∷ s.cyclic_data_checks })

  unfoldable pub push_arity_check : ArityCheck → Load S (Unit {0})
  push_arity_check check s = ok (tt, record s { arity_checks = check ∷ s.arity_checks })

  unfoldable pub alloc : RomOps S → Load S ℕ
  alloc ops s = let (ptr, rom) = ops.alloc_quad s.rom in ok (ptr, record s { rom = rom })

  unfoldable pub write : RomOps S → ℕ → Fields → Load S (Unit {0})
  write ops ptr quad s = ok (tt, record s { rom = ops.write_quad ptr quad s.rom })
