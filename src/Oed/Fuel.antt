-- ===== src/Oed/Fuel.antt =====
-- lib/oed_lite.js: decode_number, which calls itself for the base, the exponent and the size of a
-- number, comes to an end.
use u_fork.Prelude.{
  ℕ, zero, suc, ◌+◌, ◌-◌, ◌<◌, ◌≡◌, ◌≢◌, refl, Bool, ◌==◌, leb, if◌then◌else◌, if_both, List, [],
  ◌∷◌, length, get_elem?, Option, none, some, bit_and, arith,
}
use u_fork.Prelude.Int.{ℤ, pos, negsuc}
use u_fork.Ufork.Raw.{bit_not}
use u_fork.Oed.{
  num_sign_bit, integer_octet, decimal_octet, rational_octet, Number, Sum, whole, other, Reading,
  found, failed, exhausted, offset_out_of_bounds, and_then, as_integer, as_natural,
  decode_magnitude, decode_prefixed, decode_number,
}

-- What is found ends behind `start`.
abbrev Ends : {A : Type 0} → ℕ → Reading A → Type 0
Ends start (found value offset) = start < offset
Ends start (failed message offset) = Unit {0}
Ends start exhausted = ⊥

Ends-and_then :
    {A B : Type 0} (start low : ℕ) (r : Reading A) (next : A → ℕ → Reading B)
    → Ends start r
    → ((value : A) (offset : ℕ) → start < offset → Ends low (next value offset))
    → Ends low (and_then r next)
Ends-and_then start low (found value offset) next h k = k value offset h
Ends-and_then start low (failed message offset) next h k = tt
Ends-and_then start low exhausted next h k = h

as_natural-Ends : (low start : ℕ) (r : Reading Number) → Ends low r → Ends low (as_natural start r)
as_natural-Ends low start (found (whole (pos value)) offset) h = h
as_natural-Ends low start (found (whole (negsuc value)) offset) h = tt
as_natural-Ends low start (found other offset) h = tt
as_natural-Ends low start (failed message offset) h = tt
as_natural-Ends low start exhausted h = h

as_integer-Ends : (low start : ℕ) (r : Reading Number) → Ends low r → Ends low (as_integer start r)
as_integer-Ends low start (found (whole value) offset) h = h
as_integer-Ends low start (found other offset) h = tt
as_integer-Ends low start (failed message offset) h = tt
as_integer-Ends low start exhausted h = h

inside :
    (octets : List ℕ) (offset octet : ℕ)
    → get_elem? octets offset ≡ some octet
    → offset < length octets
inside [] offset octet e = absurd (cc)
inside (x ∷ xs) zero octet e = omega arith
inside (x ∷ xs) (suc offset) octet e = omega (arith, inside xs offset octet e)

module _ (scaled : Sum → ℤ → ℤ → Number) (octets : List ℕ) where
  -- The calls for the parts of a number, all of them behind `low`.
  module _ (decode : ℕ → Reading Number) (low : ℕ)
      (ends : (start : ℕ) → low < start → Ends start (decode start)) where
    decode_magnitude-Ends :
        (negative : Bool) (base exponent : ℤ) (offset : ℕ)
        → low < offset
        → Ends low (decode_magnitude scaled octets decode negative base exponent offset)
    unfolding decode_magnitude
    decode_magnitude-Ends negative base exponent offset h =
        Ends-and_then offset low (as_natural offset (decode offset)) _
          (as_natural-Ends offset offset (decode offset) (ends offset h))
          (λ bits start behind. omega (arith, behind))

    decode_prefixed-Ends :
        (prefix offset : ℕ)
        → low < offset
        → Ends low (decode_prefixed scaled octets decode prefix offset)
    unfolding decode_prefixed
    decode_prefixed-Ends prefix offset h =
        let kind = bit_and prefix (bit_not num_sign_bit) in
        let negative = bit_and prefix num_sign_bit == 1 in
        if_both (Ends low) (kind == rational_octet)
          (Ends-and_then offset low (as_natural offset (decode offset)) _
            (as_natural-Ends offset offset (decode offset) (ends offset h))
            (λ base behind later.
              Ends-and_then behind low (as_integer behind (decode behind)) _
                (as_integer-Ends behind behind (decode behind) (ends behind (omega (arith, later))))
                (λ exponent start last.
                  decode_magnitude-Ends negative (pos base) exponent start
                    (omega (arith, later, last)))))
          (if_both (Ends low) (kind == decimal_octet)
            (Ends-and_then offset low (as_integer offset (decode offset)) _
              (as_integer-Ends offset offset (decode offset) (ends offset h))
              (λ exponent start later.
                decode_magnitude-Ends negative (pos 10) exponent start (omega (arith, later))))
            (if_both (Ends low) (kind == integer_octet)
              (decode_magnitude-Ends negative (pos 10) (pos 0) offset h) tt))

  decode_number-Ends :
      (fuel offset : ℕ)
      → length octets - offset < fuel
      → Ends offset (decode_number scaled fuel octets offset)
  unfolding decode_number
  decode_number-Ends zero offset h = absurd (omega arith)
  decode_number-Ends (suc fuel) offset h =
      at (get_elem? octets offset) refl
        (λ start behind within. decode_number-Ends fuel start (omega (arith, behind, within)))
    where
      at :
          (o : Option ℕ)
          → get_elem? octets offset ≡ o
          → ((start : ℕ)
              → offset < start
              → offset < length octets
              → Ends start (decode_number scaled fuel octets start))
          → Ends offset (elim o [
            | none ↦ failed offset_out_of_bounds offset
            | some prefix ↦
                if leb prefix 0x7F
                then found (whole (pos prefix)) (offset + 1)
                else if leb 0x90 prefix
                then found (whole (negsuc (255 - prefix))) (offset + 1)
                else decode_prefixed scaled octets
                    (decode_number scaled fuel octets)
                    prefix
                    (offset + 1)
          ])
      at none e ends = tt
      at (some prefix) e ends =
          let bound = inside octets offset prefix e in
          if_both (Ends offset) (leb prefix 0x7F) (omega arith) (
            if_both (Ends offset) (leb 0x90 prefix) (omega arith) (
              decode_prefixed-Ends (decode_number scaled fuel octets) offset
                (λ start behind. ends start behind bound) prefix (offset + 1) (omega arith)))

  -- With fuel for each octet that is left and one more, a number is read or refused.
  pub decode_number_ends :
      (offset : ℕ) → decode_number scaled (suc (length octets - offset)) octets offset ≢ exhausted
  decode_number_ends offset e =
      refused (decode_number scaled (suc (length octets - offset)) octets offset)
        (decode_number-Ends (suc (length octets - offset)) offset (omega arith)) e
    where
      refused : (r : Reading Number) → Ends offset r → r ≢ exhausted
      refused (found value start) h e = absurd (cc)
      refused (failed message start) h e = absurd (cc)
      refused exhausted h e = h
