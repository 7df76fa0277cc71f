-- ===== src/Oed/RoundTrip.antt =====
-- lib/oed_lite.js: what is encoded is decoded.
use u_fork.Prelude.{
  ℕ, suc, ◌+◌, ◌-◌, ◌*◌, ◌/◌, ◌%◌, ◌^◌, ◌≤◌, ◌<◌, ◌≡◌, refl, sym, ap, ◌∙◌, Bool, true, false, leb,
  ltb, if◌then◌else◌, List, ◌∷◌, ◌++◌, length, take, drop, Option, none, some, bit_and, arith,
  append_assoc, length-append, if_cases, take-length_append, drop-length_append, drop-drop,
}
use u_fork.Prelude.Int.{ℤ, pos, negsuc}
use u_fork.Prelude.Masks.{and_ones}
use u_fork.Ufork.Raw.{to_uint32}
use u_fork.Oed.{
  blob_octet, is_small, encode_magnitude, encode_signed, encode_integer, encode_blob, Number, whole,
  Reading, found, failed, offset_out_of_bounds, and_then, as_natural, sum_octets, sum_of, Sum,
  exact, rounded, signed, decode_magnitude, decode_prefixed, decode_number, read_blob, blob_of,
  decode_blob,
}
use u_fork.Oed.Octets.{
  item_at, behind_item, magnitude, sum_octets_lem, IsEncoded, encode_magnitude-IsEncoded, below,
  IsSafe,
}

module _ (scaled : Sum → ℤ → ℤ → Number) where
  -- What decode_number does by the two tests of the prefix.
  abbrev chosen : ℕ → List ℕ → ℕ → ℕ → Bool → Bool → Reading Number
  chosen fuel octets offset prefix positive negative =
      if positive
      then found (whole (pos prefix)) (offset + 1)
      else if negative
      then found (whole (negsuc (255 - prefix))) (offset + 1)
      else decode_prefixed scaled octets (decode_number scaled fuel octets) prefix (offset + 1)

  number_at :
      (fuel : ℕ) (octets : List ℕ) (offset prefix : ℕ) (rest : List ℕ)
      → drop offset octets ≡ prefix ∷ rest
      → decode_number scaled (suc fuel) octets offset
        ≡ chosen fuel octets offset prefix (leb prefix 0x7F) (leb 0x90 prefix)
  unfolding decode_number
  number_at fuel octets offset prefix rest h =
      ap
        (λ o. elim o as (λ _. Reading Number) [
          | none ↦ failed offset_out_of_bounds offset
          | some p ↦ chosen fuel octets offset p (leb p 0x7F) (leb 0x90 p)
        ])
        (item_at octets offset prefix rest h)

  -- A small number that is not negative.
  small_read :
      (fuel : ℕ) (octets : List ℕ) (offset n : ℕ) (rest : List ℕ)
      → n ≤ 127
      → drop offset octets ≡ n ∷ rest
      → decode_number scaled (suc fuel) octets offset ≡ found (whole (pos n)) (offset + 1)
  small_read fuel octets offset n rest le h =
      let test : leb n 0x7F ≡ true = ground arith in
      number_at fuel octets offset n rest h
      ∙ ap (λ b. chosen fuel octets offset n b (leb 0x90 n)) test

  -- A small negative number.
  small_negative_read :
      (fuel : ℕ) (octets : List ℕ) (offset n : ℕ) (rest : List ℕ)
      → n ≤ 111
      → drop offset octets ≡ (255 - n) ∷ rest
      → decode_number scaled (suc fuel) octets offset ≡ found (whole (negsuc n)) (offset + 1)
  small_negative_read fuel octets offset n rest le h =
      let test : leb (255 - n) 0x7F ≡ false = ground arith in
      let other_test : leb 0x90 (255 - n) ≡ true = ground arith in
      number_at fuel octets offset (255 - n) rest h
      ∙ ap (λ b. chosen fuel octets offset (255 - n) b (leb 0x90 (255 - n))) test
      ∙ ap (λ b. chosen fuel octets offset (255 - n) false b) other_test
      ∙ ap (λ k. found (whole (negsuc k)) (offset + 1)) (omega arith)

  -- The size and the magnitude behind the type of an integer, whose sum is safe.
  magnitude_read :
      (fuel : ℕ) (octets digits after : List ℕ) (offset : ℕ) (negative : Bool) (n : ℤ)
      → length digits ≤ 7
      → drop offset octets ≡ length digits * 8 ∷ digits ++ after
      → ((otherwise : Sum) → signed negative (some (magnitude digits)) otherwise ≡ exact n)
      → decode_magnitude scaled octets
          (decode_number scaled (suc fuel) octets)
          negative
          (pos 10)
          (pos 0)
          offset
        ≡ found (scaled (exact n) (pos 10) (pos 0)) (offset + 1 + length digits)
  unfolding decode_magnitude sum_of
  magnitude_read fuel octets digits after offset negative n short h safe =
      let count : (length digits * 8 + 7) / 8 ≡ length digits = omega arith in
      let few : leb (length digits) 128 ≡ true = ground arith in
      let result : Option ℕ → ℕ → ℕ → Reading Number = (λ sum c start.
        found
          (scaled (signed negative sum (rounded negative c (take c (drop start octets)))) (pos 10)
            (pos 0))
          (start + c)) in
      ap
        (λ r.
          and_then (as_natural offset r)
            (λ bits start. result (sum_of octets ((bits + 7) / 8) start) ((bits + 7) / 8) start))
        (small_read fuel octets offset (length digits * 8) (digits ++ after) (omega arith) h)
      ∙ ap (λ c. result (sum_of octets c (offset + 1)) c (offset + 1)) count
      ∙ ap (λ sum. result sum (length digits) (offset + 1))
          (ap (λ b. if b then sum_octets octets (length digits) (offset + 1) 0 1 else none) few
            ∙ sum_octets_lem octets digits after (offset + 1) 0 1
                (behind_item octets offset (length digits * 8) (digits ++ after) h)
            ∙ ap some (omega arith))
      ∙ ap (λ sum. found (scaled sum (pos 10) (pos 0)) (offset + 1 + length digits)) (safe _)

  -- An integer by its type and its magnitude.
  typed_read :
      (fuel : ℕ) (octets xs after : List ℕ) (offset m integer_type : ℕ) (negative : Bool) (n : ℤ)
      → IsEncoded integer_type m xs
      → drop offset octets ≡ xs ++ after
      → leb integer_type 0x7F ≡ false
      → leb 0x90 integer_type ≡ false
      → ((decode : ℕ → Reading Number) (start : ℕ)
          → decode_prefixed scaled octets decode integer_type start
            ≡ decode_magnitude scaled octets decode negative (pos 10) (pos 0) start)
      → ((otherwise : Sum) → signed negative (some m) otherwise ≡ exact n)
      → decode_number scaled (suc (suc fuel)) octets offset
        ≡ found (scaled (exact n) (pos 10) (pos 0)) (offset + length xs)
  typed_read fuel octets xs after offset m t negative n encoded h low high dispatched safe =
      let there : drop offset octets ≡ t ∷ length encoded.digits * 8 ∷ encoded.digits ++ after =
        h ∙ ap (λ l. l ++ after) encoded.shape in
      number_at (suc fuel) octets offset t _ there
      ∙ ap (λ b. chosen (suc fuel) octets offset t b (leb 0x90 t)) low
      ∙ ap (λ b. chosen (suc fuel) octets offset t false b) high
      ∙ dispatched (decode_number scaled (suc fuel) octets) (offset + 1)
      ∙ magnitude_read fuel octets encoded.digits after (offset + 1) negative n encoded.short
          (behind_item octets offset t _ there)
          (λ otherwise. ap (λ k. signed negative (some k) otherwise) encoded.value ∙ safe otherwise)
      ∙ ap (found (scaled (exact n) (pos 10) (pos 0))) (omega (arith, ap length encoded.shape))

  module _ (is_exact : (n : ℤ) → IsSafe n → scaled (exact n) (pos 10) (pos 0) ≡ whole n) where
    signed_read :
        (fuel : ℕ) (octets after : List ℕ) (offset : ℕ) (n : ℤ)
        → IsSafe n
        → drop offset octets ≡ encode_signed n ++ after
        → decode_number scaled (suc (suc fuel)) octets offset
          ≡ found (whole n) (offset + length (encode_signed n))
    unfolding encode_signed decode_prefixed
    signed_read fuel octets after offset (pos n) safe h =
        let test : ltb n (2 ^ 53) ≡ true = ground arith in
        let end = offset + length (encode_magnitude 130 n) in
        typed_read fuel octets (encode_magnitude 130 n) after offset n 130 false (pos n)
          (encode_magnitude-IsEncoded 130 n safe) h refl refl (λ _ _. refl)
          (λ otherwise. ap (λ b. if b then exact (pos n) else otherwise) test)
        ∙ ap (λ v. found v end) (is_exact (pos n) safe)
    signed_read fuel octets after offset (negsuc n) safe h =
        let test : ltb (suc n) (2 ^ 53) ≡ true = ground arith in
        let end = offset + length (encode_magnitude 131 (suc n)) in
        typed_read fuel octets (encode_magnitude 131 (suc n)) after offset (suc n) 131 true
          (negsuc n) (encode_magnitude-IsEncoded 131 (suc n) safe) h refl refl (λ _ _. refl)
          (λ otherwise. ap (λ b. if b then exact (negsuc n) else otherwise) test)
        ∙ ap (λ v. found v end) (is_exact (negsuc n) safe)

    -- The octet of a small integer.
    octet_read :
        (fuel : ℕ) (octets after : List ℕ) (offset : ℕ) (n : ℤ)
        → is_small n ≡ true
        → drop offset octets ≡ bit_and (to_uint32 n) 0xFF ∷ after
        → decode_number scaled (suc fuel) octets offset ≡ found (whole n) (offset + 1)
    unfolding to_uint32
    octet_read fuel octets after offset (pos n) small h =
        let le : n ≤ 127 = below n 127 small in
        small_read fuel octets offset n after le
          (h ∙ ap (λ k. k ∷ after) (and_ones 8 (n % 2 ^ 32) ∙ omega arith))
    octet_read fuel octets after offset (negsuc n) small h =
        let le : suc n ≤ 112 = below (suc n) 112 small in
        small_negative_read fuel octets offset n after (omega arith)
          (h ∙ ap (λ k. k ∷ after) (and_ones 8 (2 ^ 32 - 1 - n % 2 ^ 32) ∙ omega arith))

    -- A safe integer is read back wherever its octets stand, with the offset behind them, if its
    -- product with 10 ** 0 is exact.
    pub decode_number-encode_integer :
        (fuel : ℕ) (octets after : List ℕ) (offset : ℕ) (n : ℤ)
        → IsSafe n
        → drop offset octets ≡ encode_integer n ++ after
        → decode_number scaled (suc (suc fuel)) octets offset
          ≡ found (whole n) (offset + length (encode_integer n))
    unfolding encode_integer
    decode_number-encode_integer fuel octets after offset n safe h =
        if_cases
          (λ xs.
            drop offset octets ≡ xs ++ after
            → decode_number scaled (suc (suc fuel)) octets offset
              ≡ found (whole n) (offset + length xs))
          (is_small n) (λ small k. octet_read (suc fuel) octets after offset n small k)
          (λ _ k. signed_read fuel octets after offset n safe k) h

    not_less : (a b : ℕ) → b ≤ a → ltb a b ≡ false
    not_less a b h = ground arith

    -- A blob of fewer than 2^53 octets is read back wherever its octets stand, with the offset behind
    -- them, if the product of its size with 10 ** 0 is exact.
    pub decode_blob-encode_blob :
        (fuel : ℕ) (before blob after : List ℕ)
        → length blob < 2 ^ 53
        → decode_blob scaled
            (suc (suc fuel))
            (before ++ (encode_blob blob ++ after))
            (length before)
          ≡ found blob (length before + length (encode_blob blob))
    unfolding decode_blob read_blob blob_of encode_blob
    decode_blob-encode_blob fuel before blob after safe =
        let size = encode_integer (pos (length blob)) in
        let octets = before ++ (blob_octet ∷ (size ++ blob) ++ after) in
        let first = length before in
        let start = first + 1 + length size in
        let there : drop first octets ≡ blob_octet ∷ ((size ++ blob) ++ after) =
          drop-length_append before _ refl in
        let behind : drop (first + 1) octets ≡ size ++ (blob ++ after) =
          behind_item octets first blob_octet _ there ∙ append_assoc size blob after in
        let left : drop start octets ≡ blob ++ after =
          sym (drop-drop (first + 1) (length size) octets)
          ∙ ap (drop (length size)) behind
          ∙ drop-length_append size (blob ++ after) refl in
        let enough : ltb (length octets) (start + length blob) ≡ false =
          not_less (length octets) (start + length blob) (
            omega (
              arith,
              length-append before (blob_octet ∷ ((size ++ blob) ++ after)),
              length-append (size ++ blob) after,
              length-append size blob,
            )) in
        ap (read_blob octets (decode_number scaled (suc (suc fuel)) octets) first)
          (item_at octets first blob_octet _ there)
        ∙ ap (λ r. and_then (as_natural (first + 1) r) (blob_of octets))
            (decode_number-encode_integer fuel octets (blob ++ after) (first + 1)
              (pos (length blob)) safe behind)
        ∙ ap
            (λ b.
              if b
              then failed offset_out_of_bounds (start + length blob)
              else found (take (length blob) (drop start octets)) (start + length blob))
            enough
        ∙ ap (λ d. found (take (length blob) d) (start + length blob)) left
        ∙ ap (λ d. found d (start + length blob)) (take-length_append blob after refl)
        ∙ ap (found blob) (omega (arith, length-append size blob))
