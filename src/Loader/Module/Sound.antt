-- ===== src/Loader/Module/Sound.antt =====
-- vm/js/loader.js: in a module that was loaded, what code and dictionaries point to is
-- there and of its type.
use Prim.Native.String.{String}
use u_fork.Prelude.{
  ℕ, ◌≡◌, refl, subst, ◌∙◌, Bool, true, false, ◌==◌, ==_iff, if◌then◌else◌, List, [], ◌∷◌, ◌++◌,
  Option, none, some,
}
use u_fork.Ufork.Raw.{is_ptr}
use u_fork.Ufork.Memory.{Quad, Fields}
use u_fork.Loader.Nodes.{Node, Ast}
use u_fork.Loader.Actions.{
  Failure, wrong_type, Result, ok, err, RomOps, TypeCheck, Loading, Load, or_fail, not_defined,
  goes_on, ◌>>=◌, ◌>>◌, get,
}
use u_fork.Loader.Populate.{Imports, definition_raw}
use u_fork.Loader.Populate.Linked
use u_fork.Loader.Populate.Kept.{Writes, IsSafe, has_no_custom}
use u_fork.Loader.Populate.Values.{both}
use u_fork.Loader.Refs.{ref_deps, resolution_order}
use u_fork.Loader.Checks.{Reads, Checked, check_each, check_type, has_type, ◌then_check◌}
use u_fork.Loader.Module.{
  reversed, run_check, checked, with_result, exports_of, initial, allocate, resolve,
  populate_definition, populated, all_checks, load_module,
}
use u_fork.Loader.Module.Typed.{
  all_no_custom, for_each-IsSafe, allocate-IsSafe, resolve-IsSafe, populate_definition-IsSafe,
}

-- Inversions of what returned.
>>=-eq-ok :
    {S A B : Type 0} (m : Load S A) (f : A → Load S B) (s : Loading S) {b : B} {s'' : Loading S}
    → (m >>= f) s ≡ ok (b, s'')
    → (a : A) × (s' : Loading S) × (m s ≡ ok (a, s')) × (f a s' ≡ ok (b, s''))
unfolding ◌>>=◌
>>=-eq-ok {S} {A} {B} m f s {b} {s''} h = from (m s) refl h
  where
    from :
        (r : Result (A × Loading S))
        → m s ≡ r
        → goes_on f r ≡ ok (b, s'')
        → (a : A) × (s' : Loading S) × (m s ≡ ok (a, s')) × (f a s' ≡ ok (b, s''))
    from (ok (a, s')) e h = (a, s', e, h)
    from (err e') e h = cc

then_check-eq-ok : (c d : Checked) → (c then_check d) ≡ ok tt → (c ≡ ok tt) × (d ≡ ok tt)
then_check-eq-ok (ok _) d h = (refl, h)
then_check-eq-ok (err e) d h = cc

check_each-eq-ok :
    {A : Type 0} (check : A → Checked) (items : List A) {item : A}
    → check_each check items ≡ ok tt
    → Linked.Among item items
    → check item ≡ ok tt
unfolding check_each
check_each-eq-ok check [] h among = elim among [ ]
check_each-eq-ok check (i ∷ items) h Linked.here =
    (then_check-eq-ok (check i) (check_each check items) h).0
check_each-eq-ok check (i ∷ items) h (Linked.there among) =
    check_each-eq-ok check items (then_check-eq-ok (check i) (check_each check items) h).1 among

Among-append_left :
    {A : Type 0} {x : A} (xs ys : List A) → Linked.Among x xs → Linked.Among x (xs ++ ys)
Among-append_left [] ys among = elim among [ ]
Among-append_left (x ∷ xs) ys Linked.here = Linked.here
Among-append_left (x ∷ xs) ys (Linked.there among) = Linked.there (Among-append_left xs ys among)

Among-append_last : {A : Type 0} (x : A) (xs : List A) → Linked.Among x (xs ++ x ∷ [])
Among-append_last x [] = Linked.here
Among-append_last x (y ∷ xs) = Linked.there (Among-append_last x xs)

Among-reversed :
    {A : Type 0} {x : A} (xs : List A) → Linked.Among x xs → Linked.Among x (reversed xs)
unfolding reversed
Among-reversed [] among = elim among [ ]
Among-reversed (x ∷ xs) Linked.here = Among-append_last x (reversed xs)
Among-reversed (x ∷ xs) (Linked.there among) =
    Among-append_left (reversed xs) (x ∷ []) (Among-reversed xs among)

-- A raw that points to a quad of a type.
abbrev pub PointsTo : Reads → ℕ → ℕ → Type 0
PointsTo reads t raw =
    (is_ptr raw ≡ true) × (found : Quad) × (reads raw ≡ some found) × (found.t ≡ t)

if_ok : (b : Bool) (e : Failure) → ◌≡◌ {A = Checked} (if b then ok tt else err e) (ok tt) → b ≡ true
if_ok true e h = refl
if_ok false e h = cc

check_type-PointsTo :
    (reads : Reads) (check : TypeCheck)
    → check_type reads check ≡ ok tt
    → PointsTo reads check.t check.raw
unfolding check_type
check_type-PointsTo reads check h = pointer (is_ptr check.raw) refl h
  where
    of_type :
        (found : Option Quad)
        → reads check.raw ≡ found
        → has_type check.t check.msg found ≡ ok tt
        → (q : Quad) × (reads check.raw ≡ some q) × (q.t ≡ check.t)
    of_type none e h = cc
    of_type (some q) e h =
        (q, e, (==_iff q.t check.t).0 (if_ok (q.t == check.t) (wrong_type check.msg) h))

    pointer :
        (b : Bool)
        → is_ptr check.raw ≡ b
        → (if b then has_type check.t check.msg (reads check.raw) else err (wrong_type check.msg))
          ≡ ok tt
        → PointsTo reads check.t check.raw
    pointer true e h =
        let (q, found, same) = of_type (reads check.raw) refl h in (e, q, found, same)
    pointer false e h = cc

HasCheck-PointsTo :
    (reads : Reads) (checks : List TypeCheck) (raw t : ℕ)
    → check_each (check_type reads) (reversed checks) ≡ ok tt
    → Linked.HasCheck raw t checks
    → PointsTo reads t raw
HasCheck-PointsTo reads checks raw t passed (check, among, e, e') =
    subst (λ r. PointsTo reads t r) e
      (subst (λ u. PointsTo reads u check.raw) e'
        (check_type-PointsTo reads check (
          check_each-eq-ok (check_type reads) (reversed checks) passed
            (Among-reversed checks among))))

with_result-IsSafe :
    {S A : Type 0} (r : Result A) (f : A → Load (Writes S) (Unit {0}))
    → ((a : A) → IsSafe S (f a))
    → IsSafe S (with_result r f)
unfolding with_result
with_result-IsSafe (ok a) f safe = safe a
with_result-IsSafe (err e) f safe = λ s recorded. Linked.fails

all_no_custom_each :
    (definitions : List (String × Node)) (item : String × Node)
    → all_no_custom definitions ≡ true
    → Linked.Among item definitions
    → has_no_custom item.1 ≡ true
unfolding all_no_custom
all_no_custom_each [] item h among = elim among [ ]
all_no_custom_each ((n, d) ∷ definitions) item h Linked.here =
    (both (has_no_custom d) (all_no_custom definitions) h).0
all_no_custom_each ((n, d) ∷ definitions) item h (Linked.there among) =
    all_no_custom_each definitions item ((both (has_no_custom d) (all_no_custom definitions) h).1)
      among

-- What a check or the exports leave as it is.
run_check-eq-ok :
    {S : Type 0} (check : Loading S → Checked) (s : Loading S) {s' : Loading S}
    → run_check check s ≡ ok (tt, s')
    → (check s ≡ ok tt) × (s ≡ s')
unfolding run_check
run_check-eq-ok check s {s'} h = ran (check s) refl h
  where
    ran : (r : Checked) → check s ≡ r → checked r s ≡ ok (tt, s') → (check s ≡ ok tt) × (s ≡ s')
    ran (ok _) e h = (e, cc)
    ran (err e') e h = cc

definition_raw_state :
    {S : Type 0} (name : String) (s : Loading S) {raw : ℕ} {s' : Loading S}
    → definition_raw name s ≡ ok (raw, s')
    → s ≡ s'
unfolding definition_raw
definition_raw_state name s {raw} {s'} h = found (get name s.definitions) h
  where
    found : (o : Option ℕ) → or_fail not_defined o s ≡ ok (raw, s') → s ≡ s'
    found none h = cc
    found (some raw') h = cc

exports_of_state :
    {S : Type 0} (names : List String) (s : Loading S) {exports : List (String × ℕ)}
    {s' : Loading S}
    → exports_of names s ≡ ok (exports, s')
    → s ≡ s'
unfolding exports_of
exports_of_state [] s h = cc
exports_of_state (name ∷ names) s h =
    let (raw, s1, e1, h1) = >>=-eq-ok (definition_raw name) _ s h in
    let (exports, s2, e2, h2) = >>=-eq-ok (exports_of names) _ s1 h1 in
    definition_raw_state name s e1 ∙ exports_of_state names s1 e2 ∙ cc h2

module _ {S : Type 0} (ops : RomOps S) (imports : Imports) where
  populated-IsSafe :
      (ast : Ast)
      → all_no_custom ast.define ≡ true
      → IsSafe S (populated (Linked.logged ops) imports ast)
  unfolding ◌>>◌
  populated-IsSafe ast h s recorded =
      Linked.bind-Keeps _ _ s
        (for_each-IsSafe (allocate (Linked.logged ops) imports) ast.define
          (λ item among.
            allocate-IsSafe ops imports item.0 item.1 (all_no_custom_each ast.define item h among))
          s recorded)
        (λ _ s1 recorded1 _ _.
          Linked.bind-Keeps _ _ s1
            (with_result-IsSafe (resolution_order (ref_deps ast.define)) _
              (λ names.
                for_each-IsSafe (resolve imports ast.define) names
                  (λ name _. resolve-IsSafe ops imports ast.define name))
              s1 recorded1)
            (λ _ s2 recorded2 _ _.
              for_each-IsSafe (populate_definition (Linked.logged ops) imports) ast.define
                (λ item among.
                  populate_definition-IsSafe ops imports item.0 item.1
                    (all_no_custom_each ast.define item h among))
                s2 recorded2))

  -- What holds of each write of a module that is loaded from a memory with no writes.
  loaded :
      (fuel : ℕ) (ast : Ast) (rom : S) (exports : List (String × ℕ)) (s : Linked.Log S)
      → all_no_custom ast.define ≡ true
      → load_module (Linked.logged ops) imports fuel ast (rom, []) ≡ ok (exports, s)
      → Linked.IsRecorded s × (all_checks (Linked.logged ops) fuel s ≡ ok tt)
  unfolding load_module ◌>>◌
  loaded fuel ast rom exports s h success =
      let (_, s1, e1, h1) =
        >>=-eq-ok (populated (Linked.logged ops) imports ast) _ (initial (rom, [])) success in
      let (_, s2, e2, h2) = >>=-eq-ok (run_check (all_checks (Linked.logged ops) fuel)) _ s1 h1 in
      let (passed, same) = run_check-eq-ok (all_checks (Linked.logged ops) fuel) s1 e2 in
      let last = same ∙ exports_of_state ast.exports s2 h2 in
      subst (λ t. Linked.IsRecorded t × (all_checks (Linked.logged ops) fuel t ≡ ok tt)) last
        (
          Linked.of_ok (
              subst (Linked.Keeps Linked.Any (initial (rom, []))) e1 (
                populated-IsSafe ast h (initial (rom, []))
                  (record { each = λ ptr fields among. elim among [ ] }))),
          passed,
        )

  -- A module without custom quads that is loaded has no dangling code or dictionary. Of every quad
  -- that the loader wrote, these point to a quad of their type in the final memory: the continuation
  -- of an instruction and the other continuation of `if` to an instruction, the operand of `typeq`
  -- to a type, and the rest of a dictionary, if it is not nil, to a dictionary.
  pub load_module-PointsTo :
      (fuel : ℕ) (ast : Ast) (rom : S) (exports : List (String × ℕ)) (s : Linked.Log S)
      → all_no_custom ast.define ≡ true
      → load_module (Linked.logged ops) imports fuel ast (rom, []) ≡ ok (exports, s)
      → (ptr raw t : ℕ) (fields : Fields) → Linked.Among (ptr, fields) s.rom.1
      → Linked.Links fields raw t
      → PointsTo (λ raw. ops.read_quad raw s.rom.0) t raw
  unfolding all_checks Linked.logged
  load_module-PointsTo fuel ast rom exports s h success ptr raw t fields among link =
      let (recorded, passed) = loaded fuel ast rom exports s h success in
      let reads : Reads = λ raw. ops.read_quad raw s.rom.0 in
      let types =
        (then_check-eq-ok (check_each (check_type reads) (reversed s.type_checks)) _
          ((then_check-eq-ok _ _ passed).0)).0 in
      HasCheck-PointsTo reads s.type_checks raw t types (recorded.each ptr fields among raw t link)
