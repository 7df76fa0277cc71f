-- ===== src/Tests/Core.antt =====
-- vm/js/core.js: a list of two pairs in RAM, and banks of the full lengths.
mod Host
use u_fork.Prelude.{
  ℕ, ◌*◌, ◌^◌, ◌≡◌, refl, [], ◌∷◌, none, some, inl, replicate, length-replicate, arith,
}
use u_fork.Prelude.Int.{pos, negsuc}
use u_fork.Ufork.Constants.{undef_raw}
use u_fork.Ufork.Raw.{is_ram, is_rom, is_ptr, rawofs, to_int32}
use u_fork.Ufork.Memory.{returns, throws, ◌>>=◌, read_quad, read_quad_at, get_uint32}
use u_fork.Core.{Banks, u_read_quad, u_write_quad, pair_at, quad_at, u_nth, u_next}
use u_fork.Core.Pairs.{
  IsList, ends, links, IsSized, u_nth_item, u_nth_tail, u_read_quad-u_write_quad,
}

abbrev small : Banks
small = record {
  rom = replicate 32 0;
  ram =
      12 ∷ 0 ∷ 0 ∷ 0 ∷ 7 ∷ 0 ∷ 0 ∷ 128 ∷ 1 ∷ 0 ∷ 0 ∷ 64 ∷ 0 ∷ 0 ∷ 0 ∷ 0 ∷ 12 ∷ 0 ∷ 0 ∷ 0 ∷ 9 ∷ 0 ∷ 0
      ∷ 128 ∷ 1 ∷ 0 ∷ 0 ∷ 0 ∷ 0 ∷ 0 ∷ 0 ∷ 0 ∷ [];
}

small-IsList : IsList small 0x40000000 (0x80000007 ∷ 0x80000009 ∷ [])
unfolding pair_at quad_at u_read_quad read_quad read_quad_at get_uint32 is_ram is_rom is_ptr rawofs
    to_int32
small-IsList =
    links 0x40000000 (record { t = 12; x = 0x80000007; y = 0x40000001; z = 0 }) (0x80000009 ∷ [])
      refl
      (links 0x40000001 (record { t = 12; x = 0x80000009; y = 1; z = 0 }) [] refl (ends 1 refl))

next_runs :
    (u_next small 0x40000000 ≡ returns 0x40000001)
    × (u_next small 0x80000007 ≡ returns undef_raw)
    × (u_next small 0x00000002 ≡ throws)
unfolding u_next pair_at quad_at u_read_quad read_quad read_quad_at get_uint32 is_ram is_rom is_ptr
    rawofs to_int32
next_runs = (refl, refl, refl)

abbrev full : Banks
full = record { rom = replicate (2 ^ 13 * 16) 0; ram = replicate (2 ^ 12 * 16) 0 }

full-IsSized : IsSized full
full-IsSized = record {
  rom = length-replicate {A = ℕ} (2 ^ 13 * 16) 0;
  ram = length-replicate {A = ℕ} (2 ^ 12 * 16) 0;
}
