-- ===== src/Ufork/Memory.antt =====
-- vm/js/ufork.js: quads in a memory of bytes, by way of a DataView. A Uint8Array is the list of its
-- bytes. A read or write outside the array throws, as DataView does.
pub mod Bytes
pub mod Quads
use u_fork.Prelude.{
  ℕ, ◌+◌, ◌*◌, ◌/◌, ◌%◌, ◌^◌, List, Option, none, some, leb, if◌then◌else◌, length, get_or, set,
}
use u_fork.Prelude.Int.{ℤ, pos, negsuc}
use u_fork.Ufork.Constants.{undef_raw, ddeque_ofs}
use u_fork.Ufork.Raw.{rawofs, in_mem, to_int32}

-- What a call does: it returns, or throws a RangeError or a TypeError.
pub data Completion {ℓ} (A : Type ℓ) : Type ℓ where
  returns : A → Completion A
  throws : Completion A

infixl 5 ◌>>=◌
abbrev pub ◌>>=◌ {ℓ κ} :
    {A : Type ℓ} {B : Type κ} → Completion A → (A → Completion B) → Completion B
returns a >>= f = f a
throws >>= f = throws

pub record Quad : Type 0 where
  pub t : ℕ
  pub x : ℕ
  pub y : ℕ
  pub z : ℕ

-- The quad that a caller writes, of which fields may be missing.
pub record Fields : Type 0 where
  pub t : Option ℕ
  pub x : Option ℕ
  pub y : Option ℕ
  pub z : Option ℕ

-- `field ?? UNDEF_RAW`
abbrev pub or_undef : Option ℕ → ℕ
or_undef none = undef_raw
or_undef (some raw) = raw

-- `getUint32(i, true)` and `setUint32(i, v, true)` within the array: four bytes, lowest first.
unfoldable pub get_uint32 : List ℕ → ℕ → ℕ
get_uint32 mem i =
    get_or mem i 0
    + get_or mem (i + 1) 0 * 2 ^ 8
    + get_or mem (i + 2) 0 * 2 ^ 16
    + get_or mem (i + 3) 0 * 2 ^ 24

unfoldable pub set_uint32 : List ℕ → ℕ → ℕ → List ℕ
set_uint32 mem i v =
    set (set (set (set mem i (v % 256)) (i + 1) (v / 2 ^ 8 % 256)) (i + 2) (v / 2 ^ 16 % 256))
      (i + 3) (v / 2 ^ 24 % 256)

-- A negative byte number passes the test against the length, and is out of the DataView's range.
unfoldable pub read_quad_at : List ℕ → ℤ → Completion (Option Quad)
read_quad_at mem (pos byte_nr) =
    if leb (byte_nr + 16) (length mem)
    then returns (
        some (record {
          t = get_uint32 mem byte_nr;
          x = get_uint32 mem (byte_nr + 4);
          y = get_uint32 mem (byte_nr + 8);
          z = get_uint32 mem (byte_nr + 12);
        }))
    else returns none
read_quad_at mem (negsuc _) = throws

-- `ofs << 4` is an int32.
unfoldable pub read_quad : List ℕ → ℕ → Completion (Option Quad)
unfolding read_quad_at to_int32
read_quad mem ofs = read_quad_at mem (to_int32 (ofs * 16 % 2 ^ 32))

unfoldable pub write_quad_at : List ℕ → ℤ → Fields → Completion (List ℕ)
write_quad_at mem (pos byte_nr) quad =
    if leb (byte_nr + 16) (length mem)
    then returns (
        set_uint32
          (set_uint32
            (set_uint32 (set_uint32 mem byte_nr (or_undef quad.t)) (byte_nr + 4) (or_undef quad.x))
            (byte_nr + 8) (or_undef quad.y))
          (byte_nr + 12) (or_undef quad.z))
    else returns mem
write_quad_at mem (negsuc _) quad = throws

unfoldable pub write_quad : List ℕ → ℕ → Fields → Completion (List ℕ)
unfolding write_quad_at to_int32
write_quad mem ofs quad = write_quad_at mem (to_int32 (ofs * 16 % 2 ^ 32)) quad

pub record Continuation : Type 0 where
  pub ip : ℕ
  pub sp : ℕ
  pub ep : ℕ
  pub act : ℕ
  pub msg : ℕ
  pub spn : ℕ

-- A property of `undefined` throws.
abbrev pub defined {ℓ} : {A : Type ℓ} → Option A → Completion A
defined none = throws
defined (some a) = returns a

-- The continuation whose quad `k_first` points to.
unfoldable pub continuation_at : List ℕ → ℕ → Completion (Option Continuation)
unfolding read_quad rawofs
continuation_at ram k_first = do
  k_found ← read_quad ram (rawofs k_first)
  k_quad ← defined k_found
  e_found ← read_quad ram (rawofs k_quad.y)
  e_quad ← defined e_found
  returns (
      some (record {
        ip = k_quad.t;
        sp = k_quad.x;
        ep = k_quad.y;
        act = e_quad.x;
        msg = e_quad.y;
        spn = e_quad.t;
      }))

abbrev first_continuation : List ℕ → Option Quad → Completion (Option Continuation)
first_continuation ram none = returns none
first_continuation ram (some dd_quad) =
    let k_first = dd_quad.y in if in_mem k_first then continuation_at ram k_first else returns none

unfoldable pub current_continuation : List ℕ → Completion (Option Continuation)
unfolding continuation_at in_mem read_quad
current_continuation ram = do dd_quad ← read_quad ram ddeque_ofs; first_continuation ram dd_quad
