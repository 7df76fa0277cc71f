-- ===== src/Loader/Refs/Sorted.antt =====
-- vm/js/loader.js: the sort of references by their depth.
use Prim.Native.String.{String}
use u_fork.Prelude.{
  ℕ, ◌<◌, ◌≤◌, ◌≡◌, refl, sym, subst, true, false, leb, Bool-cases, List, [], ◌∷◌, ◌⊎◌, inl, inr,
  arith,
}
use u_fork.Prelude.Members.{Among, here, there}
use u_fork.Loader.Refs.{insert_by, sort_by_depth, names_of}

-- The first of two stands before the second.
pub data Precedes {A : Type 0} (x y : A) : List A → Type 0 where
  at_head : {xs : List A} → Among y xs → Precedes x y (x ∷ xs)
  in_tail : {z : A} {xs : List A} → Precedes x y xs → Precedes x y (z ∷ xs)

pub data IsSorted : List (String × ℕ) → Type 0 where
  sorted_none : IsSorted []
  sorted_more :
      {entry : String × ℕ} {entries : List (String × ℕ)}
      → ((other : String × ℕ) → Among other entries → entry.1 ≤ other.1)
      → IsSorted entries
      → IsSorted (entry ∷ entries)

-- An insertion keeps all that was there and adds one.
module _ (name : String) (depth : ℕ) where
  insert_first :
      (other : String) (depth' : ℕ) (sorted : List (String × ℕ))
      → leb depth depth' ≡ true
      → insert_by (name, depth) ((other, depth') ∷ sorted)
        ≡ (name, depth) ∷ (other, depth') ∷ sorted
  unfolding insert_by
  insert_first other depth' sorted h = rw h refl

  insert_later :
      (other : String) (depth' : ℕ) (sorted : List (String × ℕ))
      → leb depth depth' ≡ false
      → insert_by (name, depth) ((other, depth') ∷ sorted)
        ≡ (other, depth') ∷ insert_by (name, depth) sorted
  unfolding insert_by
  insert_later other depth' sorted h = rw h refl

  -- A property of the list that an insertion gives, by the two cases.
  insert_cases :
      (P : List (String × ℕ) → Type 0) (other : String) (depth' : ℕ) (sorted : List (String × ℕ))
      → (depth ≤ depth' → P ((name, depth) ∷ (other, depth') ∷ sorted))
      → (depth' ≤ depth → P ((other, depth') ∷ insert_by (name, depth) sorted))
      → P (insert_by (name, depth) ((other, depth') ∷ sorted))
  insert_cases P other depth' sorted first later = elim (Bool-cases (leb depth depth')) [
    | inl e ↦ subst P (sym (insert_first other depth' sorted e)) (first (below depth depth' e))
    | inr e ↦ subst P (sym (insert_later other depth' sorted e)) (later (above depth depth' e))
  ]
    where
      below : (a b : ℕ) → leb a b ≡ true → a ≤ b
      below a b h = ground arith

      above : (a b : ℕ) → leb a b ≡ false → b ≤ a
      above a b h = ground arith

  insert_by-new :
      (sorted : List (String × ℕ)) → Among (name, depth) (insert_by (name, depth) sorted)
  unfolding insert_by
  insert_by-new [] = here
  insert_by-new ((other, depth') ∷ sorted) =
      insert_cases (Among (name, depth)) other depth' sorted (λ _. here)
        (λ _. there (insert_by-new sorted))

  insert_by-old :
      (entry : String × ℕ) (sorted : List (String × ℕ))
      → Among entry sorted
      → Among entry (insert_by (name, depth) sorted)
  insert_by-old entry [] among = elim among [ ]
  insert_by-old _ ((other, depth') ∷ sorted) here =
      insert_cases (Among (other, depth')) other depth' sorted (λ _. there here) (λ _. here)
  insert_by-old entry ((other, depth') ∷ sorted) (there among) =
      insert_cases (Among entry) other depth' sorted (λ _. there (there among))
        (λ _. there (insert_by-old entry sorted among))

  insert_by-member :
      (entry : String × ℕ) (sorted : List (String × ℕ))
      → Among entry (insert_by (name, depth) sorted)
      → (entry ≡ (name, depth)) ⊎ Among entry sorted
  unfolding insert_by
  insert_by-member entry [] among = only among
    where
      only : {e : String × ℕ} → Among e ((name, depth) ∷ []) → (e ≡ (name, depth)) ⊎ Among e []
      only here = inl refl
      only (there among) = elim among [ ]
  insert_by-member entry ((other, depth') ∷ sorted) among =
      insert_cases
        (λ l. Among entry l → (entry ≡ (name, depth)) ⊎ Among entry ((other, depth') ∷ sorted))
        other depth' sorted (λ _. at_front) (λ _. behind (insert_by-member entry sorted)) among
    where
      at_front :
          {e : String × ℕ}
          → Among e ((name, depth) ∷ (other, depth') ∷ sorted)
          → (e ≡ (name, depth)) ⊎ Among e ((other, depth') ∷ sorted)
      at_front here = inl refl
      at_front (there among) = inr among

      behind :
          {e : String × ℕ} {rest : List (String × ℕ)}
          → (Among e rest → (e ≡ (name, depth)) ⊎ Among e sorted)
          → Among e ((other, depth') ∷ rest)
          → (e ≡ (name, depth)) ⊎ Among e ((other, depth') ∷ sorted)
      behind member here = inr here
      behind member (there among) = elim (member among) [
        | inl e ↦ inl e
        | inr old ↦ inr (there old)
      ]

  insert_by-IsSorted :
      (sorted : List (String × ℕ)) → IsSorted sorted → IsSorted (insert_by (name, depth) sorted)
  unfolding insert_by
  insert_by-IsSorted [] all = sorted_more (λ _ among. elim among [ ]) sorted_none
  insert_by-IsSorted ((other, depth') ∷ sorted) (sorted_more least all) =
      insert_cases IsSorted other depth' sorted
        (λ le. sorted_more (λ entry among. first le entry among) (sorted_more least all))
        (λ ge.
          sorted_more (λ entry among. later ge entry (insert_by-member entry sorted among))
            (insert_by-IsSorted sorted all))
    where
      first :
          depth ≤ depth'
          → (entry : String × ℕ) → Among entry ((other, depth') ∷ sorted)
          → depth ≤ entry.1
      first le _ here = le
      first le entry (there among) = omega (arith, least entry among)

      later :
          depth' ≤ depth
          → (entry : String × ℕ) → (entry ≡ (name, depth)) ⊎ Among entry sorted
          → depth' ≤ entry.1
      later ge entry (inl e) = subst (λ x. depth' ≤ x.1) (sym e) ge
      later ge entry (inr old) = least entry old

pub sort-IsSorted : (entries : List (String × ℕ)) → IsSorted (sort_by_depth entries)
unfolding sort_by_depth
sort-IsSorted [] = sorted_none
sort-IsSorted ((name, depth) ∷ entries) =
    insert_by-IsSorted name depth (sort_by_depth entries) (sort-IsSorted entries)

pub sort-Among :
    (entry : String × ℕ) (entries : List (String × ℕ))
    → Among entry entries
    → Among entry (sort_by_depth entries)
unfolding sort_by_depth
sort-Among entry [] among = elim among [ ]
sort-Among _ ((name, depth) ∷ entries) here = insert_by-new name depth (sort_by_depth entries)
sort-Among entry ((name, depth) ∷ entries) (there among) =
    insert_by-old name depth entry (sort_by_depth entries) (sort-Among entry entries among)

names_of-Among :
    (entry : String × ℕ) (entries : List (String × ℕ))
    → Among entry entries
    → Among entry.0 (names_of entries)
names_of-Among entry [] among = elim among [ ]
names_of-Among _ ((name, depth) ∷ entries) here = here
names_of-Among entry ((name, depth) ∷ entries) (there among) =
    there (names_of-Among entry entries among)

-- In a sorted list the smaller of two stands before the larger.
pub sorted-Precedes :
    (a b : String × ℕ) (entries : List (String × ℕ))
    → IsSorted entries
    → Among a entries
    → Among b entries
    → a.1 < b.1
    → Precedes a.0 b.0 (names_of entries)
sorted-Precedes a b [] sorted in_a in_b less = elim in_a [ ]
sorted-Precedes _ _ ((name, depth) ∷ entries) sorted here here less = absurd (omega arith)
sorted-Precedes _ b ((name, depth) ∷ entries) sorted here (there in_b) less =
    at_head (names_of-Among b entries in_b)
sorted-Precedes a _ ((name, depth) ∷ entries) (sorted_more least sorted) (there in_a) here less =
    absurd (omega (arith, least a in_a))
sorted-Precedes a b ((name, depth) ∷ entries) (sorted_more least sorted) (there in_a) (there in_b)
      less =
    in_tail (sorted-Precedes a b entries sorted in_a in_b less)
