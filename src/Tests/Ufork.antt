-- ===== src/Tests/Ufork.antt =====
-- vm/js/ufork.js on concrete raw values and a memory of three quads (test_read_write_quad and
-- test_word16 of the source are among the runs).
use u_fork.Prelude.{ℕ, ◌≡◌, refl, true, false, List, none, some, replicate, length, arith}
use u_fork.Prelude.Int.{pos, negsuc}
use u_fork.Ufork.Raw.{
  is_cap, is_ram, is_ptr, fixnum, fix_to_i32, cap_to_ptr, ptr_to_cap, to_word16, from_word16,
}
use u_fork.Ufork.Raw.RoundTrip.{seal_and_open}
use u_fork.Ufork.Memory.{returns, ◌>>=◌, Fields, read_quad, write_quad, get_uint32, set_uint32}
use u_fork.Ufork.Memory.Quads.{stored, read_quad-write_quad_self, read_quad-write_quad_ne}

word16_runs :
    (to_word16 0x60000ABC ≡ 0x6ABC)
    × (from_word16 0x6ABC ≡ 0x60000ABC)
    × (to_word16 (from_word16 0x802A) ≡ 0x802A)
    × (from_word16 (to_word16 0x8000002A) ≡ 0x8000002A)
unfolding to_word16 from_word16
word16_runs = (refl, refl, refl, refl)

fixnum_runs :
    (fixnum (pos 1) ≡ 0x80000001)
    × (fixnum (negsuc 1) ≡ 0xFFFFFFFE)
    × (fix_to_i32 0xFFFFFFFE ≡ negsuc 1)
unfolding fixnum fix_to_i32
fixnum_runs = (refl, refl, refl)

abbrev mem : List ℕ
mem = replicate 48 0

abbrev quad : Fields
quad = record { t = some 1; x = some 2; y = some 3; z = none }

quad_run :
    (write_quad mem 1 quad >>= λ m. read_quad m 1)
    ≡ returns (some (record { t = 1; x = 2; y = 3; z = 0 }))
unfolding write_quad read_quad get_uint32 set_uint32
quad_run = refl

seal_and_open_example :
    (cap_to_ptr (ptr_to_cap 0x40000003) ≡ 0x40000003)
    × (is_cap (ptr_to_cap 0x40000003) ≡ true)
    × (is_ptr (ptr_to_cap 0x40000003) ≡ false)
    × (ptr_to_cap (cap_to_ptr 0x60000003) ≡ 0x60000003)
    × (is_ram (cap_to_ptr 0x60000003) ≡ true)
unfolding is_ram is_cap
seal_and_open_example = seal_and_open 0x40000003 0x60000003 (omega arith) (omega arith) refl refl

read_quad-write_quad_self_example :
    ((write_quad mem 1 quad >>= λ mem'. read_quad mem' 1) ≡ returns (some (stored quad)))
    × ((write_quad mem 1 quad >>= λ mem'. returns (length mem')) ≡ returns (length mem))
read_quad-write_quad_self_example =
    read_quad-write_quad_self mem 1 quad (omega arith) (omega arith)
      (record { t = omega arith; x = omega arith; y = omega arith; z = omega arith })

read_quad-write_quad_ne_example :
    (write_quad mem 1 quad >>= λ mem'. read_quad mem' 2) ≡ read_quad mem 2
read_quad-write_quad_ne_example =
    read_quad-write_quad_ne mem 1 2 quad (omega arith) (omega arith) (omega arith)
