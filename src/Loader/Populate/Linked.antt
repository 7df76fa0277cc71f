-- ===== src/Loader/Populate/Linked.antt =====
-- vm/js/loader.js: what populate writes into instructions and dictionaries is recorded for the type
-- checks. The writes are read from a memory that keeps a list of them.
use Prim.Native.String.{String}
use u_fork.Prelude.{ℕ, ◌≡◌, ◌≢◌, refl, sym, ap, subst, List, ◌∷◌, Option, none, some, ◌⊎◌, inl, inr}
pub use u_fork.Prelude.Members.{Among, here, there}
use u_fork.Ufork.Constants.{nil_raw, type_t, instr_t, dict_t, vm_if, vm_typeq}
use u_fork.Ufork.Memory.{Fields}
use u_fork.Loader.Actions.{
  Failure, Result, ok, err, RomOps, TypeCheck, Loading, Load, pure, or_fail, goes_on, ◌>>=◌, alloc,
  write, define, push_type_check, push_cyclic_data_check, push_arity_check, CyclicDataCheck,
  ArityCheck,
}

-- A memory with a list of the writes, the last first.
unfoldable pub logged : {S : Type 0} → RomOps S → RomOps (S × List (ℕ × Fields))
logged ops = record {
  alloc_quad = λ (rom, writes). let (ptr, rom) = ops.alloc_quad rom in (ptr, (rom, writes));
  read_quad = λ ptr (rom, _). ops.read_quad ptr rom;
  write_quad = λ ptr fields (rom, writes). (ops.write_quad ptr fields rom, (ptr, fields) ∷ writes);
}

abbrev pub HasCheck : ℕ → ℕ → List TypeCheck → Type 0
HasCheck raw t checks = (check : TypeCheck) × Among check checks × (check.raw ≡ raw) × (check.t ≡ t)

-- The fields of a quad that must point to a quad of a type: the continuation of an instruction, the
-- other continuation of `if`, the type that `typeq` asks for, and the rest of a dictionary.
pub data Links (fields : Fields) (raw : ℕ) : ℕ → Type 0 where
  continuation : fields.t ≡ some instr_t → fields.z ≡ some raw → Links fields raw instr_t
  if_true :
      fields.t ≡ some instr_t
      → fields.x ≡ some vm_if
      → fields.y ≡ some raw
      → Links fields raw instr_t
  type_asked :
      fields.t ≡ some instr_t
      → fields.x ≡ some vm_typeq
      → fields.y ≡ some raw
      → Links fields raw type_t
  next_entry :
      fields.t ≡ some dict_t → fields.z ≡ some raw → raw ≢ nil_raw → Links fields raw dict_t

-- Each of them is recorded.
abbrev pub Recorded : List TypeCheck → Fields → Type 0
Recorded checks fields = (raw t : ℕ) → Links fields raw t → HasCheck raw t checks

abbrev pub Grows : List TypeCheck → List TypeCheck → Type 0
Grows checks checks' = (check : TypeCheck) → Among check checks → Among check checks'

pub HasCheck-Grows :
    {raw t : ℕ} {checks checks' : List TypeCheck}
    → Grows checks checks'
    → HasCheck raw t checks
    → HasCheck raw t checks'
HasCheck-Grows grows (check, among, raw, t) = (check, grows check among, raw, t)

Recorded-Grows :
    {checks checks' : List TypeCheck} (fields : Fields)
    → Grows checks checks'
    → Recorded checks fields
    → Recorded checks' fields
Recorded-Grows fields grows recorded raw t link = HasCheck-Grows grows (recorded raw t link)

abbrev pub Log : Type 0 → Type 0
Log S = Loading (S × List (ℕ × Fields))

-- Each write that was made is recorded.
pub record IsRecorded {S : Type 0} (s : Log S) : Type 0 where
  pub each :
      (ptr : ℕ) (fields : Fields) → Among (ptr, fields) s.rom.1 → Recorded s.type_checks fields

-- An action that returns leaves the writes recorded and the checks there, and `Q` holds of its
-- result and the checks.
pub data Keeps {S A : Type 0} (Q : A → List TypeCheck → Type 0) (s : Log S)
    : Result (A × Log S) → Type 0 where
  returns :
      {a : A} {s' : Log S}
      → IsRecorded s'
      → Grows s.type_checks s'.type_checks
      → Q a s'.type_checks
      → Keeps Q s (ok (a, s'))
  fails : {e : Failure} → Keeps Q s (err e)

-- Any result.
abbrev pub Any : {A : Type 0} → A → List TypeCheck → Type 0
Any a checks = Unit

module _ {S A : Type 0} {Q : A → List TypeCheck → Type 0} where
  pub of_ok : {a : A} {s s' : Log S} → Keeps Q s (ok (a, s')) → IsRecorded s'
  of_ok (returns recorded grows q) = recorded

  pub pure-Keeps : (a : A) (s : Log S) → IsRecorded s → Q a s.type_checks → Keeps Q s (pure a s)
  pure-Keeps a s recorded q = returns recorded (λ check among. among) q

  pub weaken-Keeps :
      {R : A → List TypeCheck → Type 0} {s : Log S} {r : Result (A × Log S)}
      → ((a : A) (checks : List TypeCheck) → Q a checks → R a checks)
      → Keeps Q s r
      → Keeps R s r
  weaken-Keeps weaker (returns {a} {s'} recorded grows q) =
      returns recorded grows (weaker a s'.type_checks q)
  weaken-Keeps weaker fails = fails

  pub bind-Keeps :
      {B : Type 0} {R : B → List TypeCheck → Type 0} (m : Load (S × List (ℕ × Fields)) A)
      (f : A → Load (S × List (ℕ × Fields)) B) (s : Log S)
      → Keeps Q s (m s)
      → ((a : A) (s' : Log S)
          → IsRecorded s'
          → Grows s.type_checks s'.type_checks
          → Q a s'.type_checks
          → Keeps R s' (f a s'))
      → Keeps R s ((m >>= f) s)
  unfolding ◌>>=◌
  bind-Keeps {B} {R} m f s first rest = follows (m s) first
    where
      further :
          {r : Result (B × Log S)} {s' : Log S}
          → Grows s.type_checks s'.type_checks
          → Keeps R s' r
          → Keeps R s r
      further grows (returns recorded grows' q) =
          returns recorded (λ check among. grows' check (grows check among)) q
      further grows fails = fails

      follows : (r : Result (A × Log S)) → Keeps Q s r → Keeps R s (goes_on f r)
      follows (ok (a, s')) (returns recorded grows q) = further grows (rest a s' recorded grows q)
      follows (err e) fails = fails

Among-cons : {A : Type 0} {x y : A} {ys : List A} → Among x (y ∷ ys) → (x ≡ y) ⊎ Among x ys
Among-cons here = inl refl
Among-cons (there among) = inr among

module _ {S : Type 0} where
  pub or_fail-Keeps :
      {A : Type 0} (e : Failure) (o : Option A) (s : Log S)
      → IsRecorded s
      → Keeps Any s (or_fail e o s)
  or_fail-Keeps e none s recorded = fails
  or_fail-Keeps e (some a) s recorded = pure-Keeps a s recorded tt

  pub push_type_check-Keeps :
      (check : TypeCheck) (s : Log S)
      → IsRecorded s
      → Keeps (λ _ checks. Among check checks) s (push_type_check check s)
  unfolding push_type_check
  push_type_check-Keeps check s recorded =
      returns
        (record {
          each = λ ptr fields among.
              Recorded-Grows fields (λ c a. there a) (recorded.each ptr fields among);
        })
        (λ c a. there a) here

  pub push_cyclic_data_check-Keeps :
      (check : CyclicDataCheck) (s : Log S)
      → IsRecorded s
      → Keeps Any s (push_cyclic_data_check check s)
  unfolding push_cyclic_data_check
  push_cyclic_data_check-Keeps check s recorded =
      returns (record { each = recorded.each }) (λ c a. a) tt

  pub push_arity_check-Keeps :
      (check : ArityCheck) (s : Log S) → IsRecorded s → Keeps Any s (push_arity_check check s)
  unfolding push_arity_check
  push_arity_check-Keeps check s recorded = returns (record { each = recorded.each }) (λ c a. a) tt

  pub define-Keeps :
      (name : String) (raw : ℕ) (s : Log S) → IsRecorded s → Keeps Any s (define name raw s)
  unfolding define
  define-Keeps name raw s recorded = returns (record { each = recorded.each }) (λ c a. a) tt

  module _ (ops : RomOps S) where
    pub alloc-Keeps : (s : Log S) → IsRecorded s → Keeps Any s (alloc (logged ops) s)
    unfolding alloc logged
    alloc-Keeps s recorded = returns (record { each = recorded.each }) (λ c a. a) tt

    pub write-Keeps :
        (ptr : ℕ) (fields : Fields) (s : Log S)
        → IsRecorded s
        → Recorded s.type_checks fields
        → Keeps Any s (write (logged ops) ptr fields s)
    unfolding write logged
    write-Keeps ptr fields s recorded new =
        returns
          (record {
            each = λ ptr' fields' among. elim (Among-cons among) [
              | inl e ↦ subst (Recorded s.type_checks) (sym (ap (λ w. w.1) e)) new
              | inr old ↦ recorded.each ptr' fields' old
            ];
          })
          (λ c a. a) tt
