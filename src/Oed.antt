-- ===== src/Oed.antt =====
-- lib/oed_lite.js: integers and blobs as octets, and how numbers and blobs are read. A number that is
-- no safe integer is `other`. compose_number, a product in
-- floating point, is a parameter.
pub mod Fuel
pub mod Octets
pub mod RoundTrip
use u_fork.Prelude.{
  ℕ, zero, suc, ◌+◌, ◌-◌, ◌*◌, ◌/◌, ◌%◌, ◌^◌, Bool, true, false, ◌==◌, leb, ltb, if◌then◌else◌,
  List, [], ◌∷◌, ◌++◌, length, get_elem?, take, drop, Option, none, some, bit_and, bit_or,
}
use u_fork.Prelude.Int.{ℤ, pos, negsuc}
use u_fork.Ufork.Raw.{bit_not, to_uint32}

abbrev pub num_sign_bit : ℕ
num_sign_bit = 1

abbrev pub integer_octet : ℕ
integer_octet = 130

abbrev pub decimal_octet : ℕ
decimal_octet = 132

abbrev pub rational_octet : ℕ
rational_octet = 134

abbrev pub blob_octet : ℕ
blob_octet = 138

abbrev pub radix : ℕ
radix = 256

-- A small two's-complement integer.
abbrev pub is_small : ℤ → Bool
is_small (pos n) = leb n 127
is_small (negsuc n) = leb (suc n) 112

-- `(integer >> shift) & 0xFF` of a number below 2^32.
abbrev pub octet_at : ℕ → ℕ → ℕ
octet_at shift integer = bit_and (integer / 2 ^ shift) 0xFF

-- The loop over the digits; a safe integer has at most seven.
unfoldable pub radix_digits : ℕ → ℕ → List ℕ
radix_digits zero integer = []
radix_digits (suc fuel) integer =
    let rest = radix_digits fuel (integer / radix) in
    if integer == 0 then [] else integer % radix ∷ rest

unfoldable pub encode_magnitude : ℕ → ℕ → List ℕ
encode_magnitude integer_type integer =
    if leb integer 0xFF
    then integer_type ∷ 8 ∷ octet_at 0 integer ∷ []
    else if leb integer 0xFFFF
    then integer_type ∷ 16 ∷ octet_at 0 integer ∷ octet_at 8 integer ∷ []
    else if leb integer 0xFFFFFF
    then integer_type ∷ 24 ∷ octet_at 0 integer ∷ octet_at 8 integer ∷ octet_at 16 integer ∷ []
    else if leb integer 0xFFFFFFFF
    then integer_type
      ∷ 32
      ∷ octet_at 0 integer
      ∷ octet_at 8 integer
      ∷ octet_at 16 integer
      ∷ octet_at 24 integer
      ∷ []
    else integer_type ∷ length (radix_digits 7 integer) * 8 ∷ radix_digits 7 integer

unfoldable pub encode_signed : ℤ → List ℕ
encode_signed (pos n) = encode_magnitude integer_octet n
encode_signed (negsuc n) = encode_magnitude (bit_or integer_octet num_sign_bit) (suc n)

unfoldable pub encode_integer : ℤ → List ℕ
encode_integer integer =
    if is_small integer then bit_and (to_uint32 integer) 0xFF ∷ [] else encode_signed integer

unfoldable pub encode_blob : List ℕ → List ℕ
encode_blob blob = blob_octet ∷ encode_integer (pos (length blob)) ++ blob

-- The value of a number: a safe integer, or any other, NaN included.
pub data Number : Type 0 where
  whole : ℤ → Number
  other : Number

pub data Message : Type 0 where
  offset_out_of_bounds : Message
  natural_required : Message
  integer_required : Message
  unrecognized_number : Message
  unrecognized_blob : Message

-- A value with the offset behind it, an error at an offset, or fuel that is used up.
pub data Reading (A : Type 0) : Type 0 where
  found : A → ℕ → Reading A
  failed : Message → ℕ → Reading A
  exhausted : Reading A

abbrev pub and_then : {A B : Type 0} → Reading A → (A → ℕ → Reading B) → Reading B
and_then (found value offset) next = next value offset
and_then (failed message offset) next = failed message offset
and_then exhausted next = exhausted

-- decode_integer and decode_natual at an offset, of what decode_number gave.
abbrev pub as_integer : ℕ → Reading Number → Reading ℤ
as_integer start (found (whole value) offset) = found value offset
as_integer start (found other offset) = failed integer_required start
as_integer start (failed message offset) = failed message offset
as_integer start exhausted = exhausted

abbrev pub as_natural : ℕ → Reading Number → Reading ℕ
as_natural start (found (whole (pos value)) offset) = found value offset
as_natural start (found (whole (negsuc value)) offset) = failed natural_required start
as_natural start (found other offset) = failed integer_required start
as_natural start (failed message offset) = failed message offset
as_natural start exhausted = exhausted

-- The loop over the octets of a magnitude; a missing one makes the value NaN.
unfoldable pub sum_octets : List ℕ → ℕ → ℕ → ℕ → ℕ → Option ℕ
sum_octets octets zero offset value scale = some value
sum_octets octets (suc count) offset value scale = elim (get_elem? octets offset) [
  | none ↦ none
  | some octet ↦ sum_octets octets count (offset + 1) (value + scale * octet) (scale * radix)
]

-- From the 129th octet on the scale is infinite, and so is the sum, or it is NaN.
unfoldable pub sum_of : List ℕ → ℕ → ℕ → Option ℕ
sum_of octets count start = if leb count 128 then sum_octets octets count start 0 1 else none

-- The signed sum of a magnitude: a safe integer, or what the sum of so many octets, of which these
-- are there, is in floating point.
pub data Sum : Type 0 where
  exact : ℤ → Sum
  rounded : Bool → ℕ → List ℕ → Sum

abbrev pub signed : Bool → Option ℕ → Sum → Sum
signed negative none otherwise = otherwise
signed false (some value) otherwise = if ltb value (2 ^ 53) then exact (pos value) else otherwise
signed true (some zero) otherwise = exact (pos 0)
signed true (some (suc value)) otherwise =
    if ltb (suc value) (2 ^ 53) then exact (negsuc value) else otherwise

-- `compose_number` is `integer * (base ** exponent)`.
module _ (compose_number : Sum → ℤ → ℤ → Number) where
  -- The size and the magnitude of a number. The offset behind the loop is the one that the source
  -- compares it with, so the comparison has no branch.
  unfoldable pub decode_magnitude :
      List ℕ → (ℕ → Reading Number) → Bool → ℤ → ℤ → ℕ → Reading Number
  decode_magnitude octets decode negative base exponent offset =
      and_then (as_natural offset (decode offset)) (λ bits start.
        found
          (compose_number
            (signed negative (sum_of octets ((bits + 7) / 8) start)
              (rounded negative ((bits + 7) / 8) (take ((bits + 7) / 8) (drop start octets))))
            base exponent)
          (start + (bits + 7) / 8))

  unfoldable pub decode_prefixed : List ℕ → (ℕ → Reading Number) → ℕ → ℕ → Reading Number
  decode_prefixed octets decode prefix offset =
      let negative = bit_and prefix num_sign_bit == 1 in
      let kind = bit_and prefix (bit_not num_sign_bit) in
      if kind == rational_octet
      then and_then (as_natural offset (decode offset)) (λ base behind.
        and_then (as_integer behind (decode behind))
          (λ exponent start. decode_magnitude octets decode negative (pos base) exponent start))
      else if kind == decimal_octet
      then and_then (as_integer offset (decode offset))
          (λ exponent start. decode_magnitude octets decode negative (pos 10) exponent start)
      else if kind == integer_octet
      then decode_magnitude octets decode negative (pos 10) (pos 0) offset
      else failed unrecognized_number (offset - 1)

  unfoldable pub decode_number : ℕ → List ℕ → ℕ → Reading Number
  decode_number zero octets offset = exhausted
  decode_number (suc fuel) octets offset = elim (get_elem? octets offset) [
    | none ↦ failed offset_out_of_bounds offset
    | some prefix ↦
        if leb prefix 0x7F
        then found (whole (pos prefix)) (offset + 1)
        else if leb 0x90 prefix
        then found (whole (negsuc (255 - prefix))) (offset + 1)
        else decode_prefixed octets (decode_number fuel octets) prefix (offset + 1)
  ]

-- `octets.subarray(start, start + size)`, if it lies within the octets.
unfoldable pub blob_of : List ℕ → ℕ → ℕ → Reading (List ℕ)
blob_of octets size start =
    if ltb (length octets) (start + size)
    then failed offset_out_of_bounds (start + size)
    else found (take size (drop start octets)) (start + size)

-- decode_blob, by the octet at the offset. `decode` is decode_number.
unfoldable pub read_blob : List ℕ → (ℕ → Reading Number) → ℕ → Option ℕ → Reading (List ℕ)
read_blob octets decode offset none = failed offset_out_of_bounds offset
read_blob octets decode offset (some prefix) =
    if prefix == blob_octet
    then and_then (as_natural (offset + 1) (decode (offset + 1))) (blob_of octets)
    else failed unrecognized_blob offset

unfoldable pub decode_blob : (Sum → ℤ → ℤ → Number) → ℕ → List ℕ → ℕ → Reading (List ℕ)
decode_blob compose_number fuel octets offset =
    read_blob octets (decode_number compose_number fuel octets) offset (get_elem? octets offset)
