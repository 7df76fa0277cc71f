-- ===== src/Loader/Refs/Order.antt =====
-- vm/js/loader.js: the order in which references are resolved.
use Prim.Native.String.{String}
use u_fork.Prelude.{
  ℕ, suc, ◌<◌, ◌≡◌, ◌≢◌, refl, sym, ap, subst, List, [], ◌∷◌, length, some, inl, inr, arith,
}
use u_fork.Prelude.Members.{Among, here, there, none_of, Among-cases}
use u_fork.Loader.Actions.{Failure, Result, ok, err, get, out_of_fuel}
use u_fork.Loader.Refs.{
  ref_depth, sort_by_depth, with_depth, depths, sorted_names, resolution_order,
}
use u_fork.Loader.Refs.Depth.{
  Depth, behind_ref, get-Among, ref_depth-Depth, Depth-unique, ref_depth_in_fuel,
}
use u_fork.Loader.Refs.Sorted.{sort-IsSorted, sort-Among, sorted-Precedes, Precedes}

failure_of : {A : Type 0} {e e' : Failure} → ◌≡◌ {A = Result A} (err e) (err e') → e ≡ e'
failure_of h = cc h

found_of : {A : Type 0} {a b : A} → ok a ≡ ok b → a ≡ b
found_of h = cc h

module _ (deps : List (String × String)) where
  -- Each reference has its depth among the depths.
  depths-Depth :
      (entries : List (String × String)) (found : List (String × ℕ))
      → depths deps entries ≡ ok found
      → (name dep : String) → Among (name, dep) entries
      → (n : ℕ) × Among (name, n) found × Depth deps name n
  unfolding depths
  depths-Depth [] found h name dep among = elim among [ ]
  depths-Depth ((first, _) ∷ entries) found h name dep among =
      from (ref_depth (suc (length deps)) deps first []) (depths deps entries) refl
        (λ later e in_rest. depths-Depth entries later e name dep in_rest) h among
    where
      from :
          (r : Result ℕ) (rest : Result (List (String × ℕ)))
          → ref_depth (suc (length deps)) deps first [] ≡ r
          → ((later : List (String × ℕ))
              → rest ≡ ok later
              → Among (name, dep) entries
              → (n : ℕ) × Among (name, n) later × Depth deps name n)
          → with_depth first r rest ≡ ok found
          → {next : String} → Among (name, dep) ((first, next) ∷ entries)
          → (n : ℕ) × Among (name, n) found × Depth deps name n
      from (err e) rest e' later h among = absurd (cc h)
      from (ok d) (err e) e' later h among = absurd (cc h)
      from (ok d) (ok rest) e' later h among = elim (Among-cases among) [
        | inl same ↦
            let depth = ref_depth-Depth deps (suc (length deps)) first [] d e' in
            let at = subst (Among (first, d)) (found_of h) here in
            subst (λ k. (n : ℕ) × Among (k, n) found × Depth deps k n) (sym (ap (λ p. p.0) same))
              (d, at, depth)
        | inr behind ↦
            let (n, in_rest, depth) = later rest refl behind in
            (n, subst (Among (name, n)) (found_of h) (there in_rest), depth)
      ]

  depths_in_fuel : (entries : List (String × String)) → depths deps entries ≢ err out_of_fuel
  unfolding depths
  depths_in_fuel [] h = absurd (cc h)
  depths_in_fuel ((name, _) ∷ entries) h =
      from (ref_depth (suc (length deps)) deps name []) (depths deps entries)
        (ref_depth_in_fuel deps (suc (length deps)) name [] none_of (λ other among. elim among [ ])
          (omega arith))
        (depths_in_fuel entries) h
    where
      from :
          (r : Result ℕ) (rest : Result (List (String × ℕ)))
          → r ≢ err out_of_fuel
          → rest ≢ err out_of_fuel
          → with_depth name r rest ≢ err out_of_fuel
      from (err e) rest out out' h = out (ap (λ x. err x) (failure_of h))
      from (ok n) (err e) out out' h = out' (ap (λ x. err x) (failure_of h))
      from (ok n) (ok found) out out' h = absurd (cc h)

  sorted_names_in_fuel :
      (found : Result (List (String × ℕ)))
      → found ≢ err out_of_fuel
      → sorted_names found ≢ err out_of_fuel
  sorted_names_in_fuel (ok entries) out h = absurd (cc h)
  sorted_names_in_fuel (err e) out h = out (ap (λ x. err x) (failure_of h))

  -- What the depths are like when there is an order.
  sorted_names-Precedes :
      (found : Result (List (String × ℕ))) (names : List String) (a b : String)
      → sorted_names found ≡ ok names
      → ((entries : List (String × ℕ))
          → found ≡ ok entries
          → (m n : ℕ) × Among (a, m) entries × Among (b, n) entries × m < n)
      → Precedes a b names
  sorted_names-Precedes (err e) names a b h both = absurd (cc h)
  sorted_names-Precedes (ok entries) names a b h both =
      let (m, n, in_a, in_b, less) = both entries refl in
      subst (Precedes a b) (found_of h) (
        sorted-Precedes (a, m) (b, n) (sort_by_depth entries) (sort-IsSorted entries)
          (sort-Among (a, m) entries in_a) (sort-Among (b, n) entries in_b) less)

-- The recursion that finds the order of references ends: it has fuel for every name once.
pub resolution_order_in_fuel :
    (deps : List (String × String)) → resolution_order deps ≢ err out_of_fuel
unfolding resolution_order
resolution_order_in_fuel [] h = absurd (cc h)
resolution_order_in_fuel ((_, _) ∷ []) h = absurd (cc h)
resolution_order_in_fuel (first ∷ second ∷ rest) h =
    let deps = first ∷ second ∷ rest in
    sorted_names_in_fuel deps (depths deps deps) (depths_in_fuel deps deps) h

-- If two references or more have an order, then a reference to a reference stands behind the one
-- that it refers to.
pub resolution_order-Precedes :
    (deps : List (String × String)) (names : List String) (name dep next : String)
    → resolution_order deps ≡ ok names
    → 1 < length deps
    → get name deps ≡ some dep
    → get dep deps ≡ some next
    → Precedes dep name names
unfolding resolution_order
resolution_order-Precedes [] names name dep next h more _ _ = absurd (omega arith)
resolution_order-Precedes ((_, _) ∷ []) names name dep next h more _ _ = absurd (omega arith)
resolution_order-Precedes (first ∷ second ∷ rest) names name dep next h more is_ref is_ref' =
    let deps = first ∷ second ∷ rest in
    sorted_names-Precedes deps (depths deps deps) names dep name h (λ entries found.
      let (m, in_dep, depth) =
        depths-Depth deps deps entries found dep next (get-Among dep next deps is_ref') in
      let (n, in_name, depth') =
        depths-Depth deps deps entries found name dep (get-Among name dep deps is_ref) in
      let one_more = Depth-unique deps depth' (behind_ref dep next is_ref is_ref' depth) in
      (m, n, in_dep, in_name, omega (arith, one_more)))
