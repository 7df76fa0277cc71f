-- ===== src/Prelude/Members.antt =====
-- Membership in a list, and how many members a list without repetition has.
use Prim.Native.Nat.{suc, ◌≤◌}
use mathlib.Core.Path.{◌≡◌, refl, ap, subst}
use mathlib.Core.Logic.{◌≢◌, ◌⊎◌, inl, inr}
use mathlib.Core.List.{List, [], ◌∷◌}
use native.Mathlib.Omega.{arith}
use u_fork.Prelude.Lists.{length}

pub data Among {A : Type 0} (x : A) : List A → Type 0 where
  here : {xs : List A} → Among x (x ∷ xs)
  there : {y : A} {xs : List A} → Among x xs → Among x (y ∷ xs)

pub Among-cases : {A : Type 0} {x y : A} {ys : List A} → Among x (y ∷ ys) → (x ≡ y) ⊎ Among x ys
Among-cases here = inl refl
Among-cases (there among) = inr among

-- No item is among those behind it.
pub data IsDistinct {A : Type 0} : List A → Type 0 where
  none_of : IsDistinct []
  one_more : {x : A} {xs : List A} → ¬ (Among x xs) → IsDistinct xs → IsDistinct (x ∷ xs)

-- A list without one of its members: the others are left.
without :
    {A : Type 0} (x : A) (ys : List A)
    → Among x ys
    → (rest : List A) × (length ys ≡ suc (length rest))
      × ((y : A) → y ≢ x → Among y ys → Among y rest)
without x [] among = elim among [ ]
without {A} x (_ ∷ xs) here = (xs, refl, λ y ne among. other y ne among)
  where
    other : (y : A) → y ≢ x → Among y (x ∷ xs) → Among y xs
    other _ ne here = absurd (ne refl)
    other y ne (there among) = among
without {A} x (z ∷ zs) (there among) =
    let (rest, size, left) = without x zs among in
    (z ∷ rest, ap suc size, λ y ne a. other rest left y ne a)
  where
    other :
        (rest : List A)
        → ((y : A) → y ≢ x → Among y zs → Among y rest)
        → (y : A) → y ≢ x
        → Among y (z ∷ zs)
        → Among y (z ∷ rest)
    other rest left _ ne here = here
    other rest left y ne (there a) = there (left y ne a)

-- A list without repetition whose items are all in another list is no longer than it.
pub length-IsDistinct :
    {A : Type 0} (xs ys : List A)
    → IsDistinct xs
    → ((x : A) → Among x xs → Among x ys)
    → length xs ≤ length ys
length-IsDistinct [] ys distinct all = omega arith
length-IsDistinct {A} (x ∷ xs) ys (one_more new distinct) all =
    let (rest, size, left) = without x ys (all x here) in
    let shorter : length xs ≤ length rest =
      length-IsDistinct xs rest distinct
        (λ y among. left y (λ e. new (subst (λ z. Among z xs) e among)) (all y (there among))) in
    omega (arith, size, shorter)
