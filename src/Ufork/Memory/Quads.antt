-- ===== src/Ufork/Memory/Quads.antt =====
-- Quads in memory: a quad that is written is read back, the other quads are kept, and what happens
-- at an offset outside of the memory.
use u_fork.Prelude.{
  ℕ, ◌+◌, ◌-◌, ◌*◌, ◌∙◌, ◌%◌, ◌^◌, ◌≤◌, ◌<◌, ◌≡◌, ◌≢◌, refl, ◌⊎◌, List, none, some, length, arith,
}
use u_fork.Prelude.Int.{pos, negsuc}
use u_fork.Ufork.Raw.{to_int32}
use u_fork.Ufork.Memory.{
  returns, throws, ◌>>=◌, Quad, Fields, or_undef, get_uint32, set_uint32, read_quad, write_quad,
}
use u_fork.Ufork.Memory.Bytes.{length-set_uint32, get_uint32-set_self, get_uint32-set_apart}

-- The fields are raw values.
pub record IsRawFields (quad : Fields) : Type 0 where
  pub t : or_undef quad.t < 2 ^ 32
  pub x : or_undef quad.x < 2 ^ 32
  pub y : or_undef quad.y < 2 ^ 32
  pub z : or_undef quad.z < 2 ^ 32

-- The quad that a memory holds after a write.
abbrev pub stored : Fields → Quad
stored quad = record {
  t = or_undef quad.t;
  x = or_undef quad.x;
  y = or_undef quad.y;
  z = or_undef quad.z;
}

byte_nr_small : (ofs : ℕ) → ofs < 2 ^ 27 → to_int32 (ofs * 16 % 2 ^ 32) ≡ pos (ofs * 16)
unfolding to_int32
byte_nr_small ofs h = ground arith

byte_nr_large :
    (ofs : ℕ) → 2 ^ 27 ≤ ofs → ofs < 2 ^ 28 → (n : ℕ) × (to_int32 (ofs * 16 % 2 ^ 32) ≡ negsuc n)
unfolding to_int32
byte_nr_large ofs h k = (2 ^ 32 - 1 - ofs * 16 % 2 ^ 32, ground arith)

-- Four words in a row, each read through the writes of the others.
abbrev four : List ℕ → ℕ → ℕ → ℕ → ℕ → ℕ → List ℕ
four mem b t x y z =
    set_uint32 (set_uint32 (set_uint32 (set_uint32 mem b t) (b + 4) x) (b + 8) y) (b + 12) z

module _ (mem : List ℕ) (b t x y z : ℕ) where
  length-four : length (four mem b t x y z) ≡ length mem
  length-four = simp length-set_uint32

  get-four_apart :
      (j : ℕ) → (b + 16 ≤ j) ⊎ (j + 4 ≤ b) → get_uint32 (four mem b t x y z) j ≡ get_uint32 mem j
  get-four_apart j h =
      get_uint32-set_apart _ (b + 12) j z (omega arith)
      ∙ get_uint32-set_apart _ (b + 8) j y (omega arith)
      ∙ get_uint32-set_apart _ (b + 4) j x (omega arith)
      ∙ get_uint32-set_apart mem b j t (omega arith)

  module _ (fits : b + 16 ≤ length mem) where
    get-four_t : t < 2 ^ 32 → get_uint32 (four mem b t x y z) b ≡ t
    get-four_t h =
        get_uint32-set_apart _ (b + 12) b z (omega arith)
        ∙ get_uint32-set_apart _ (b + 8) b y (omega arith)
        ∙ get_uint32-set_apart _ (b + 4) b x (omega arith)
        ∙ get_uint32-set_self mem b t (omega arith) h

    get-four_x : x < 2 ^ 32 → get_uint32 (four mem b t x y z) (b + 4) ≡ x
    get-four_x h =
        get_uint32-set_apart _ (b + 12) (b + 4) z (omega arith)
        ∙ get_uint32-set_apart _ (b + 8) (b + 4) y (omega arith)
        ∙ get_uint32-set_self _ (b + 4) x (omega (arith, length-set_uint32 mem b t)) h

    get-four_y : y < 2 ^ 32 → get_uint32 (four mem b t x y z) (b + 8) ≡ y
    get-four_y h =
        get_uint32-set_apart _ (b + 12) (b + 8) z (omega arith)
        ∙ get_uint32-set_self _ (b + 8) y (rw (length-set_uint32, length-set_uint32) (omega arith))
            h

    get-four_z : z < 2 ^ 32 → get_uint32 (four mem b t x y z) (b + 12) ≡ z
    get-four_z h = get_uint32-set_self _ (b + 12) z (simp length-set_uint32 (omega arith)) h

-- A quad that is written within the memory is read back from its offset, a missing field as
-- `undef_raw`; the memory keeps its length.
pub read_quad-write_quad_self :
    (mem : List ℕ) (ofs : ℕ) (quad : Fields)
    → ofs < 2 ^ 27
    → ofs * 16 + 16 ≤ length mem
    → IsRawFields quad
    → ((write_quad mem ofs quad >>= λ mem'. read_quad mem' ofs) ≡ returns (some (stored quad)))
      × ((write_quad mem ofs quad >>= λ mem'. returns (length mem')) ≡ returns (length mem))
unfolding read_quad write_quad
read_quad-write_quad_self mem ofs quad small fits raw = rw (byte_nr_small ofs small) (
    ground (
      arith,
      length-four mem b t x y z,
      get-four_t mem b t x y z fits raw.t,
      get-four_x mem b t x y z fits raw.x,
      get-four_y mem b t x y z fits raw.y,
      get-four_z mem b t x y z fits raw.z,
    ))
  where
    b : ℕ
    b = ofs * 16

    t : ℕ
    t = or_undef quad.t

    x : ℕ
    x = or_undef quad.x

    y : ℕ
    y = or_undef quad.y

    z : ℕ
    z = or_undef quad.z

-- A write leaves every other quad as it was.
pub read_quad-write_quad_ne :
    (mem : List ℕ) (ofs ofs' : ℕ) (quad : Fields)
    → ofs < 2 ^ 27
    → ofs' < 2 ^ 27
    → ofs ≢ ofs'
    → (write_quad mem ofs quad >>= λ mem'. read_quad mem' ofs') ≡ read_quad mem ofs'
unfolding read_quad write_quad
read_quad-write_quad_ne mem ofs ofs' quad small small' ne =
    rw (byte_nr_small ofs small, byte_nr_small ofs' small')
      (ground (
        arith,
        length-four mem b t x y z,
        get-four_apart mem b t x y z b' (ground (arith, apart 0)),
        get-four_apart mem b t x y z (b' + 4) (apart 4 (omega arith)),
        get-four_apart mem b t x y z (b' + 8) (apart 8 (omega arith)),
        get-four_apart mem b t x y z (b' + 12) (apart 12 (omega arith)),
      ))
  where
    b : ℕ
    b = ofs * 16

    b' : ℕ
    b' = ofs' * 16

    t : ℕ
    t = or_undef quad.t

    x : ℕ
    x = or_undef quad.x

    y : ℕ
    y = or_undef quad.y

    z : ℕ
    z = or_undef quad.z

    apart : (k : ℕ) → k ≤ 12 → (b + 16 ≤ b' + k) ⊎ (b' + k + 4 ≤ b)
    apart k h = ground arith

-- Outside of the memory a read finds nothing and a write changes nothing; an offset from 2^27 on
-- makes the byte number negative, and both throw.
pub quad_out_of_bounds :
    (mem : List ℕ) (ofs : ℕ) (quad : Fields)
    → ofs < 2 ^ 28
    → (ofs < 2 ^ 27
        → length mem < ofs * 16 + 16
        → (read_quad mem ofs ≡ returns none) × (write_quad mem ofs quad ≡ returns mem))
      × (2 ^ 27 ≤ ofs → (read_quad mem ofs ≡ throws) × (write_quad mem ofs quad ≡ throws))
unfolding read_quad write_quad
quad_out_of_bounds mem ofs quad h = (
  λ small out. rw (byte_nr_small ofs small) (ground arith),
  λ large. let (n, e) = byte_nr_large ofs large h in rw e (refl, refl),
)
