-- ===== src/Core/Host/Restored.antt =====
-- vm/js/core.js: h_restore of a memory image.
use u_fork.Prelude.{
  ℕ, ◌+◌, ◌^◌, ◌≤◌, ◌<◌, ◌≡◌, leb, true, false, length, length-append, length-take, length-drop,
  List, ◌++◌, take, drop, none, some, arith, ◌∙◌,
}
use u_fork.Ufork.Constants.{memory_ofs}
use u_fork.Ufork.Raw.{ramptr}
use u_fork.Ufork.Raw.Tags.{ramptr_lem}
use u_fork.Core.Calls.{Call, Core, threw, ◌>>=◌, ◌>>◌}
use u_fork.Core.Host.{Exports, Snapshot, set_bytes, set_memory, replaced, h_restore}

pub length-replaced :
    (ofs : ℕ) (bytes memory : List ℕ)
    → ofs + length bytes ≤ length memory
    → length (replaced ofs bytes memory) ≡ length memory
length-replaced ofs bytes memory h =
    length-append (take ofs memory ++ bytes) (drop (ofs + length bytes) memory)
    ∙ omega (
      arith,
      length-append (take ofs memory) bytes,
      length-take ofs memory,
      length-drop (ofs + length bytes) memory,
    )

set_bytes_lem :
    (ofs : ℕ) (bytes memory : List ℕ)
    → ofs + length bytes ≤ length memory
    → set_bytes ofs bytes memory ≡ some (replaced ofs bytes memory)
unfolding set_bytes
set_bytes_lem ofs bytes memory h = rw (fits (ofs + length bytes) (length memory) h)
  where
    fits : (a b : ℕ) → a ≤ b → leb a b ≡ true
    fits a b h = ground arith

set_bytes_out_of_bounds :
    (ofs : ℕ) (bytes memory : List ℕ) → length memory < ofs → set_bytes ofs bytes memory ≡ none
unfolding set_bytes
set_bytes_out_of_bounds ofs bytes memory h = rw (over ofs (length bytes) (length memory) h)
  where
    over : (a c b : ℕ) → b < a → leb (a + c) b ≡ false
    over a c b h = ground arith

module _ {M C F : Type 0} (perform : C → Call (Core M C F) (Unit {0}))
    (exports : Exports M C F) where
  -- An image whose ROM fits is never restored as a whole if the machine has less than 2^30 bytes of
  -- memory: its ROM is copied, and then h_restore throws. The RAM and the top of ROM stay.
  pub h_restore_throws :
      (snapshot : Snapshot) (core : Core M C F)
      → length core.memory < 2 ^ 30
      → core.initial_rom_ofs + length snapshot.rom ≤ length core.memory
      → h_restore perform exports snapshot core
        ≡ threw (record core { memory = replaced core.initial_rom_ofs snapshot.rom core.memory })
  unfolding h_restore set_memory ◌>>=◌ ◌>>◌
  h_restore_throws snapshot core small fits = rw (
    set_bytes_lem core.initial_rom_ofs snapshot.rom core.memory fits,
    set_bytes_out_of_bounds (ramptr memory_ofs) snapshot.ram
        (replaced core.initial_rom_ofs snapshot.rom core.memory)
        (omega (
          arith,
          length-replaced core.initial_rom_ofs snapshot.rom core.memory fits,
          ramptr_lem memory_ofs,
        )),
  )
