-- ===== src/Loader/Refs/Depth.antt =====
-- vm/js/loader.js: the recursion of ref_depth, which ends, and what it counts.
use Prim.Native.String.{String}
use text.Mathlib.Text.{◌==◌ as str_eq}
use text.Mathlib.TextEquality.{eq_iff as str_eq_iff}
use u_fork.Prelude.{
  ℕ, zero, suc, ◌+◌, ◌<◌, ◌≡◌, ◌≢◌, refl, sym, ap, subst, ◌∙◌, Bool, true, false, ◌||◌, Bool-cases,
  if◌then◌else◌, List, [], ◌∷◌, ◌++◌, length, length-append, Option, none, some, ◌⊎◌, inl, inr,
  arith,
}
use u_fork.Prelude.Members.{Among, here, there, IsDistinct, none_of, one_more, length-IsDistinct}
use u_fork.Loader.Actions.{Failure, Result, ok, err, get, cyclic_refs, out_of_fuel}
use u_fork.Loader.Refs.{includes, plus_one, depth_behind, get_dep, ref_depth}

-- `n` references lead from a name to one whose definition is no reference.
pub data Depth (deps : List (String × String)) : String → ℕ → Type 0 where
  no_ref : {name : String} → get name deps ≡ none → Depth deps name 0
  last_ref :
      {name : String} (dep : String)
      → get name deps ≡ some dep
      → get dep deps ≡ none
      → Depth deps name 0
  behind_ref :
      {name : String} {n : ℕ} (dep next : String)
      → get name deps ≡ some dep
      → get dep deps ≡ some next
      → Depth deps dep n
      → Depth deps name (suc n)

abbrev pub keys : List (String × String) → List String
keys [] = []
keys ((name, _) ∷ deps) = name ∷ keys deps

length-keys : (deps : List (String × String)) → length (keys deps) ≡ length deps
length-keys [] = refl
length-keys ((name, _) ∷ deps) = ap suc (length-keys deps)

some-inj : {A : Type 0} {a b : A} → some a ≡ some b → a ≡ b
some-inj {b = b} h = ap (λ o. elim o [ none ↦ b | some x ↦ x ]) h

pub get-Among :
    {A : Type 0} (name : String) (a : A) (entries : List (String × A))
    → get name entries ≡ some a
    → Among (name, a) entries
unfolding get
get-Among name a [] h = absurd (cc h)
get-Among {A} name a ((key, b) ∷ entries) h = elim (Bool-cases (str_eq key name)) [
  | inl e ↦
      let same : key ≡ name = (str_eq_iff key name).0 e in
      let found : b ≡ a = some-inj (sym (first e) ∙ h) in
      subst (λ k. Among (k, a) ((key, b) ∷ entries)) same
        (subst (λ c. Among (key, c) ((key, b) ∷ entries)) found here)
  | inr e ↦ there (get-Among name a entries (sym (later e) ∙ h))
]
  where
    first : str_eq key name ≡ true → get name ((key, b) ∷ entries) ≡ some b
    first e = ap (λ t. if t then some b else get name entries) e

    later : str_eq key name ≡ false → get name ((key, b) ∷ entries) ≡ get name entries
    later e = ap (λ t. if t then some b else get name entries) e

keys-Among :
    (name dep : String) (deps : List (String × String))
    → Among (name, dep) deps
    → Among name (keys deps)
keys-Among name dep [] among = elim among [ ]
keys-Among name dep (_ ∷ deps) here = here
keys-Among name dep ((_, _) ∷ deps) (there among) = there (keys-Among name dep deps among)

includes-here : (name : String) (seen : List String) → Among name seen → includes seen name ≡ true
unfolding includes
includes-here name [] among = elim among [ ]
includes-here name (_ ∷ seen) here = rw ((str_eq_iff name name).1 refl) refl
includes-here name (other ∷ seen) (there among) =
    rw (includes-here name seen among) (either (str_eq other name))
  where
    either : (b : Bool) → (b || true) ≡ true
    either true = refl
    either false = refl

snoc-cases : {A : Type 0} (x y : A) (xs : List A) → Among y (xs ++ x ∷ []) → (y ≡ x) ⊎ Among y xs
snoc-cases x _ [] here = inl refl
snoc-cases x y [] (there among) = elim among [ ]
snoc-cases x y (_ ∷ xs) here = inr here
snoc-cases x y (z ∷ xs) (there among) = elim (snoc-cases x y xs among) [
  | inl e ↦ inl e
  | inr before ↦ inr (there before)
]

snoc-IsDistinct :
    {A : Type 0} (x : A) (xs : List A) → IsDistinct xs → ¬ (Among x xs) → IsDistinct (xs ++ x ∷ [])
snoc-IsDistinct x [] distinct new = one_more (λ among. elim among [ ]) none_of
snoc-IsDistinct {A} x (y ∷ xs) (one_more first distinct) new =
    one_more (λ among. elsewhere (snoc-cases x y xs among))
      (snoc-IsDistinct x xs distinct (λ among. new (there among)))
  where
    elsewhere : ¬ ((y ≡ x) ⊎ Among y xs)
    elsewhere (inl e) = new (subst (λ z. Among z (y ∷ xs)) e here)
    elsewhere (inr before) = first before

module _ (deps : List (String × String)) where
  ref_depth_again :
      (fuel : ℕ) (name : String) (seen : List String)
      → includes seen name ≡ true
      → ref_depth (suc fuel) deps name seen ≡ err cyclic_refs
  unfolding ref_depth
  ref_depth_again fuel name seen h = rw h refl

  ref_depth_new :
      (fuel : ℕ) (name : String) (seen : List String)
      → includes seen name ≡ false
      → ref_depth (suc fuel) deps name seen
        ≡ depth_behind
            (get name deps)
            (get_dep deps (get name deps))
            (λ dep. ref_depth fuel deps dep (seen ++ name ∷ []))
  unfolding ref_depth
  ref_depth_new fuel name seen h = rw h refl

  ok-inj : {a b : ℕ} → ok a ≡ ok b → a ≡ b
  ok-inj h = cc h

  plus_one-ok : (r : Result ℕ) (n : ℕ) → plus_one r ≡ ok n → (m : ℕ) × (r ≡ ok m) × (n ≡ suc m)
  plus_one-ok (ok m) n h = (m, refl, cc h)
  plus_one-ok (err e) n h = absurd (cc h)

  plus_one-err : (r : Result ℕ) (e : Failure) → plus_one r ≡ err e → r ≡ err e
  plus_one-err (ok m) e h = absurd (cc h)
  plus_one-err (err e') e h = h

  pub ref_depth-Depth :
      (fuel : ℕ) (name : String) (seen : List String) (n : ℕ)
      → ref_depth fuel deps name seen ≡ ok n
      → Depth deps name n
  unfolding ref_depth
  ref_depth-Depth zero name seen n h = absurd (cc h)
  ref_depth-Depth (suc fuel) name seen n h = elim (Bool-cases (includes seen name)) [
    | inl again ↦ absurd (cc (h, ref_depth_again fuel name seen again))
    | inr new ↦
        from (get name deps) (get_dep deps (get name deps)) refl refl
          (λ dep m. ref_depth-Depth fuel dep (seen ++ name ∷ []) m)
          (sym (ref_depth_new fuel name seen new) ∙ h)
  ]
    where
      counted :
          (dep next : String) (m : ℕ)
          → get name deps ≡ some dep
          → get dep deps ≡ some next
          → Depth deps dep m
          → n ≡ suc m
          → Depth deps name n
      counted dep next m e e' d same =
          subst (Depth deps name) (sym same) (behind_ref dep next e e' d)

      from :
          (o o' : Option String)
          → get name deps ≡ o
          → get_dep deps (get name deps) ≡ o'
          → ((dep : String) (m : ℕ)
              → ref_depth fuel deps dep (seen ++ name ∷ []) ≡ ok m
              → Depth deps dep m)
          → depth_behind o o' (λ dep. ref_depth fuel deps dep (seen ++ name ∷ [])) ≡ ok n
          → Depth deps name n
      from none o' e e' later h = subst (Depth deps name) (ok-inj h) (no_ref e)
      from (some dep) none e e' later h =
          subst (Depth deps name) (ok-inj h) (last_ref dep e (sym (ap (get_dep deps) e) ∙ e'))
      from (some dep) (some next) e e' later h =
          let (m, deeper, same) = plus_one-ok (ref_depth fuel deps dep (seen ++ name ∷ [])) n h in
          counted dep next m e (sym (ap (get_dep deps) e) ∙ e') (later dep m deeper) same

  -- What a name has behind it is unique.
  pub Depth-unique : {name : String} {m n : ℕ} → Depth deps name m → Depth deps name n → m ≡ n
  Depth-unique (no_ref h) (no_ref h') = refl
  Depth-unique (no_ref h) (last_ref _ h' _) = refl
  Depth-unique (no_ref h) (behind_ref _ _ h' _ _) = absurd (cc (h, h'))
  Depth-unique (last_ref _ h _) (no_ref h') = refl
  Depth-unique (last_ref _ _ _) (last_ref _ _ _) = refl
  Depth-unique (last_ref _ h e) (behind_ref _ _ h' e' _) = absurd (cc (h, h', e, e'))
  Depth-unique (behind_ref _ _ h _ _) (no_ref h') = absurd (cc (h, h'))
  Depth-unique (behind_ref _ _ h e _) (last_ref _ h' e') = absurd (cc (h, h', e, e'))
  Depth-unique {n = suc n} (behind_ref dep _ h _ rest) (behind_ref dep' _ h' _ rest') =
      ap suc (Depth-unique rest (subst (λ d. Depth deps d n) (some-inj (sym h' ∙ h)) rest'))

  -- The recursion is never deeper than there are references.
  pub ref_depth_in_fuel :
      (fuel : ℕ) (name : String) (seen : List String)
      → IsDistinct seen
      → ((other : String) → Among other seen → Among other (keys deps))
      → length deps < fuel + length seen
      → ref_depth fuel deps name seen ≢ err out_of_fuel
  unfolding ref_depth
  ref_depth_in_fuel zero name seen distinct all more h =
      absurd (omega (arith, length-IsDistinct seen (keys deps) distinct all, length-keys deps))
  ref_depth_in_fuel (suc fuel) name seen distinct all more h =
      elim (Bool-cases (includes seen name)) [
        | inl again ↦ absurd (cc (h, ref_depth_again fuel name seen again))
        | inr new ↦
            from (get name deps) (get_dep deps (get name deps)) refl
              (λ dep among.
                ref_depth_in_fuel fuel dep (seen ++ name ∷ [])
                  (snoc-IsDistinct name seen distinct
                    (λ again. absurd (cc (new, includes-here name seen again))))
                  (grown among) (omega (arith, more, length-append seen (name ∷ []))))
              (sym (ref_depth_new fuel name seen new) ∙ h)
      ]
    where
      grown :
          Among name (keys deps)
          → (other : String) → Among other (seen ++ name ∷ [])
          → Among other (keys deps)
      grown known other among = elim (snoc-cases name other seen among) [
        | inl e ↦ subst (λ z. Among z (keys deps)) (sym e) known
        | inr before ↦ all other before
      ]

      from :
          (o o' : Option String)
          → get name deps ≡ o
          → ((dep : String)
              → Among name (keys deps)
              → ref_depth fuel deps dep (seen ++ name ∷ []) ≢ err out_of_fuel)
          → depth_behind o o' (λ dep. ref_depth fuel deps dep (seen ++ name ∷ [])) ≢ err out_of_fuel
      from none o' e later h = absurd (cc h)
      from (some dep) none e later h = absurd (cc h)
      from (some dep) (some next) e later h =
          later dep (keys-Among name dep deps (get-Among name dep deps e))
            (plus_one-err (ref_depth fuel deps dep (seen ++ name ∷ [])) out_of_fuel h)
