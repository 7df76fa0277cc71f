-- ===== src/Core/Pairs.antt =====
-- vm/js/core.js: what is written is read, and u_nth on lists of pairs.
use u_fork.Prelude.{
  ℕ, zero, suc, ◌*◌, ◌<◌, ◌≡◌, refl, true, false, ltb, List, [], ◌∷◌, Option, none, some, ◌⊎◌, inl,
  inr, length, get_or, drop, arith,
}
use u_fork.Prelude.Int.{pos, negsuc}
use u_fork.Ufork.Constants.{undef_raw, quad_rom_max, quad_ram_max}
use u_fork.Ufork.Raw.{is_ram, is_rom, rawofs}
use u_fork.Ufork.Memory.{Completion, returns, throws, ◌>>=◌, Quad, Fields, read_quad, write_quad}
use u_fork.Ufork.Memory.Quads.{IsRawFields, stored, read_quad-write_quad_self}
use u_fork.Core.{
  Banks, u_read_quad, u_write_quad, with_ram, with_rom, pair_at, nth_car, nth_cdr, u_nth,
}

-- The list that a pointer stands for: the items of the pairs, up to what is no pair.
pub data IsList (banks : Banks) : ℕ → List ℕ → Type 0 where
  ends : (ptr : ℕ) → pair_at banks ptr ≡ returns none → IsList banks ptr []
  links :
      (ptr : ℕ) (pair : Quad) (items : List ℕ)
      → pair_at banks ptr ≡ returns (some pair)
      → IsList banks pair.y items
      → IsList banks ptr (pair.x ∷ items)

module _ (banks : Banks) where
  -- For a list of pairs, `u_nth` of a positive number finds the item at this place, counted from
  -- 1, or `undef_raw` behind the end of the list.
  pub u_nth_item :
      (ptr : ℕ) (items : List ℕ) (i : ℕ)
      → IsList banks ptr items
      → u_nth banks ptr (pos (suc i)) ≡ returns (get_or items i undef_raw)
  unfolding u_nth nth_car
  u_nth_item ptr [] zero (ends _ e) = rw e refl
  u_nth_item ptr [] (suc i) (ends _ e) = rw e refl
  u_nth_item ptr (_ ∷ items) zero (links _ pair _ e rest) = rw e refl
  u_nth_item ptr (_ ∷ items) (suc i) (links _ pair _ e rest) = rw e (u_nth_item pair.y items i rest)

  -- For a list of pairs, `u_nth` of a negative number finds the pointer of the list without as
  -- many items, if there are as many.
  pub u_nth_tail :
      (ptr : ℕ) (items : List ℕ) (i : ℕ)
      → IsList banks ptr items
      → i < length items
      → (tail : ℕ) × (u_nth banks ptr (negsuc i) ≡ returns tail)
        × IsList banks tail (drop (suc i) items)
  unfolding u_nth nth_cdr
  u_nth_tail ptr [] i (ends _ e) lt = absurd (omega arith)
  u_nth_tail ptr (_ ∷ items) zero (links _ pair _ e rest) lt = (pair.y, rw e refl, rest)
  u_nth_tail ptr (_ ∷ items) (suc i) (links _ pair _ e rest) lt =
      let (tail, found, is) = u_nth_tail pair.y items i rest (omega arith) in (tail, rw e found, is)

-- The banks have their full lengths.
pub record IsSized (banks : Banks) : Type 0 where
  pub rom : length banks.rom ≡ quad_rom_max * 16
  pub ram : length banks.ram ≡ quad_ram_max * 16

-- A pointer to a quad of its bank.
abbrev pub InBounds : ℕ → Type 0
InBounds ptr =
    ((is_ram ptr ≡ true) × (rawofs ptr < quad_ram_max))
    ⊎ ((is_ram ptr ≡ false) × (is_rom ptr ≡ true) × (rawofs ptr < quad_rom_max))

module _ (banks : Banks) (ptr : ℕ) (found : Completion (Option Quad)) where
  through_ram :
      (written : Completion (List ℕ))
      → is_ram ptr ≡ true
      → ltb (rawofs ptr) quad_ram_max ≡ true
      → (written >>= λ mem. read_quad mem (rawofs ptr)) ≡ found
      → (written >>= with_ram banks >>= λ banks'. u_read_quad banks' ptr) ≡ found
  unfolding u_read_quad
  through_ram (returns mem) kind small h = rw (kind, small) h
  through_ram throws kind small h = h

  through_rom :
      (written : Completion (List ℕ))
      → is_ram ptr ≡ false
      → is_rom ptr ≡ true
      → ltb (rawofs ptr) quad_rom_max ≡ true
      → (written >>= λ mem. read_quad mem (rawofs ptr)) ≡ found
      → (written >>= with_rom banks >>= λ banks'. u_read_quad banks' ptr) ≡ found
  unfolding u_read_quad
  through_rom (returns mem) other kind small h = rw (other, kind, small) h
  through_rom throws other kind small h = h

-- With banks of their full lengths, a quad of raw values that is written to a pointer in bounds
-- is read back from it, in ROM as in RAM, a missing field as `undef_raw`.
pub u_read_quad-u_write_quad :
    (banks : Banks) (ptr : ℕ) (quad : Fields)
    → IsSized banks
    → InBounds ptr
    → IsRawFields quad
    → (u_write_quad banks ptr quad >>= λ banks'. u_read_quad banks' ptr)
      ≡ returns (some (stored quad))
unfolding u_write_quad
u_read_quad-u_write_quad banks ptr quad sized (inl (kind, small)) raw =
    let test = below (rawofs ptr) quad_ram_max small in
    rw (kind, test)
      (through_ram banks ptr (returns (some (stored quad))) (write_quad banks.ram (rawofs ptr) quad)
        kind test
        ((read_quad-write_quad_self banks.ram (rawofs ptr) quad (omega arith)
          (omega (arith, sized.ram)) raw).0))
  where
    below : (a b : ℕ) → a < b → ltb a b ≡ true
    below a b h = ground arith
u_read_quad-u_write_quad banks ptr quad sized (inr (other, kind, small)) raw =
    let test = below (rawofs ptr) quad_rom_max small in
    rw (other, kind, test)
      (through_rom banks ptr (returns (some (stored quad))) (write_quad banks.rom (rawofs ptr) quad)
        other kind test
        ((read_quad-write_quad_self banks.rom (rawofs ptr) quad (omega arith)
          (omega (arith, sized.rom)) raw).0))
  where
    below : (a b : ℕ) → a < b → ltb a b ≡ true
    below a b h = ground arith
