-- ===== src/Xmodem/Packets.antt =====
-- lib/xmodem.js: the packet that fill_pkt_buf makes, against the packet format.
use u_fork.Prelude.{
  ℕ, zero, suc, ◌+◌, ◌-◌, ◌%◌, ◌^◌, ◌≡◌, refl, ap, ◌∙◌, bit_and, Bool, true, ltb, leb, [], ◌∷◌,
  ◌++◌, length, drop, length-append, arith,
}
use u_fork.Prelude.Int.{pos, ◌+ℤ◌}
use u_fork.Prelude.Masks.{and_ones}
use u_fork.Xmodem.{Bytes, soh, byte_at, fill_payload, fill_pkt_buf}

-- The first `n` bytes, with zeros where there are none.
unfoldable pub padded : ℕ → Bytes → Bytes
padded zero xs = []
padded (suc n) [] = 0 ∷ padded n []
padded (suc n) (x ∷ xs) = x ∷ padded n xs

abbrev pub sum : Bytes → ℕ
sum [] = 0
sum (x ∷ xs) = x + sum xs

-- The packet of number `seq` with a payload of 128 bytes.
unfoldable pub packet : ℕ → Bytes → Bytes
packet seq payload = soh ∷ seq % 256 ∷ (255 - seq % 256) ∷ (payload ++ (sum payload % 256) ∷ [])

length-padded : (n : ℕ) (xs : Bytes) → length (padded n xs) ≡ n
unfolding padded
length-padded zero xs = refl
length-padded (suc n) [] = ap suc (length-padded n [])
length-padded (suc n) (x ∷ xs) = ap suc (length-padded n xs)

pub add_pos : (a b : ℕ) → pos a +ℤ pos b ≡ pos (a + b)
unfolding ◌+ℤ◌
add_pos a b = rw (never (a + b)) (ap pos (omega arith))
  where
    never : (n : ℕ) → leb 0 n ≡ true
    never n = ground arith

padded_step :
    (n q : ℕ) (file : Bytes)
    → padded (suc n) (drop q file) ≡ byte_at file (pos q) ∷ padded n (drop (suc q) file)
unfolding padded
padded_step n zero [] = refl
padded_step n (suc q) [] = rw (out q) refl
  where
    out : (k : ℕ) → ltb (suc k) 0 ≡ Bool.false
    out k = ground arith
padded_step n zero (x ∷ xs) = rw (within (length xs)) refl
  where
    within : (k : ℕ) → ltb 0 (suc k) ≡ true
    within k = ground arith
padded_step n (suc q) (x ∷ xs) = padded_step n q xs ∙ rw (same q (length xs)) refl
  where
    same : (a b : ℕ) → ltb (suc a) (suc b) ≡ ltb a b
    same a b = ground arith

fill_payload-padded :
    (file : Bytes) (p n count : ℕ)
    → fill_payload file (pos p) n count
      ≡ (padded count (drop (p + n) file), sum (padded count (drop (p + n) file)))
unfolding fill_payload padded
fill_payload-padded file p n zero = refl
fill_payload-padded file p n (suc count) =
    rw (add_pos p n, fill_payload-padded file p (n + 1) count, padded_step count (p + n) file)
      (ap
        (λ k.
          let rest = padded count (drop k file) in
          (byte_at file (pos (p + n)) ∷ rest, byte_at file (pos (p + n)) + sum rest))
        (next p n))
  where
    next : (a b : ℕ) → a + (b + 1) ≡ suc (a + b)
    next a b = omega arith

low_byte : (n : ℕ) → bit_and n 0xFF ≡ n % 256
low_byte n = and_ones 8 n

complement_byte : (n : ℕ) → bit_and (2 ^ 32 - 1 - n % 2 ^ 32) 0xFF ≡ 255 - n % 256
complement_byte n = and_ones 8 (2 ^ 32 - 1 - n % 2 ^ 32) ∙ omega arith

length-packet : (seq : ℕ) (payload : Bytes) → length (packet seq payload) ≡ length payload + 4
unfolding packet
length-packet seq payload = omega (arith, length-append payload ((sum payload % 256) ∷ []))

pub fill_pkt_buf_made :
    (file : Bytes) (p seq : ℕ)
    → fill_pkt_buf file (pos p) seq ≡ packet seq (padded 128 (drop p file))
unfolding fill_pkt_buf packet
fill_pkt_buf_made file p seq =
    rw (fill_payload-padded file p 0 128, low_byte seq, complement_byte seq, add_zero p)
      (rw (low_byte (sum (padded 128 (drop p file)))) refl)
  where
    add_zero : (n : ℕ) → n + 0 ≡ n
    add_zero n = omega arith

-- The packet that is made at an offset holds the file's next 128 bytes, filled up with zeros, behind
-- the number and its complement and before the sum of the payload, each modulo 256; it has 132
-- bytes.
pub fill_pkt_buf-packet :
    (file : Bytes) (p seq : ℕ)
    → (fill_pkt_buf file (pos p) seq ≡ packet seq (padded 128 (drop p file)))
      × (length (fill_pkt_buf file (pos p) seq) ≡ 132)
fill_pkt_buf-packet file p seq = (
  fill_pkt_buf_made file p seq,
  omega (
    arith,
    ap length (fill_pkt_buf_made file p seq),
    length-packet seq (padded 128 (drop p file)),
    length-padded 128 (drop p file),
  ),
)
