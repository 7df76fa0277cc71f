-- ===== src/Core/Host/Refilled.antt =====
-- vm/js/core.js: what h_refill writes into the quota.
use u_fork.Prelude.{
  ℕ, ◌+◌, ◌*◌, ◌^◌, ◌≤◌, ◌<◌, ◌≡◌, refl, ap, ◌∙◌, true, ltb, List, ◌++◌, Option, none, some, length,
  take, drop, length-take, length-drop, take-length_append, drop-length_append, append_assoc, arith,
}
use u_fork.Prelude.Int.{ℤ}
use u_fork.Ufork.Constants.{quad_rom_max, quad_ram_max, quota_ofs}
use u_fork.Ufork.Raw.{IsU32, is_ram, rawofs, ramptr}
use u_fork.Ufork.Raw.RoundTrip.{IsFixInt, fix_to_i32-fixnum, ptr_of_offset}
use u_fork.Ufork.Memory.{
  Completion, returns, throws, ◌>>=◌ as then_with, Quad, Fields, read_quad, write_quad, or_undef,
}
use u_fork.Ufork.Memory.Quads.{IsRawFields, stored, read_quad-write_quad_self}
use u_fork.Core.{u_read_quad, u_write_quad}
use u_fork.Core.Calls.{Core, returned, ◌>>=◌}
use u_fork.Core.Host.{
  replaced, banks_of, with_banks, completed, core_read, core_write, or_kept, h_refill,
}
use u_fork.Core.Host.Restored.{length-replaced}

-- The banks lie within the memory.
pub record IsLaid {M C F : Type 0} (core : Core M C F) : Type 0 where
  pub rom : core.initial_rom_ofs + quad_rom_max * 16 ≤ length core.memory
  pub ram : core.initial_ram_ofs + quad_ram_max * 16 ≤ length core.memory

pub record IsRawQuad (quad : Quad) : Type 0 where
  pub t : IsU32 quad.t
  pub x : IsU32 quad.x
  pub y : IsU32 quad.y
  pub z : IsU32 quad.z

-- No number, or one of 31 bits.
abbrev pub FitsFixnum : Option ℤ → Type 0
FitsFixnum none = Unit {0}
FitsFixnum (some n) = IsFixInt n

or_kept-IsU32 :
    (n : Option ℤ) (raw : ℕ) → FitsFixnum n → IsU32 raw → or_undef (or_kept n raw) < 2 ^ 32
or_kept-IsU32 none raw f h = h
or_kept-IsU32 (some n) raw f h = (fix_to_i32-fixnum n f).1

-- What is read where bytes were replaced.
take-drop-replaced :
    (ofs : ℕ) (bytes memory : List ℕ) (len : ℕ)
    → length bytes ≡ len
    → ofs + len ≤ length memory
    → take len (drop ofs (replaced ofs bytes memory)) ≡ bytes
take-drop-replaced ofs bytes memory len h fits =
    ap (λ all. take len (drop ofs all))
      (append_assoc (take ofs memory) bytes (drop (ofs + length bytes) memory))
    ∙ ap (take len) (
        drop-length_append (take ofs memory) (bytes ++ drop (ofs + length bytes) memory)
          (length-take ofs memory ∙ omega arith))
    ∙ take-length_append bytes (drop (ofs + length bytes) memory) h

length_of : {a b : ℕ} → returns a ≡ returns b → a ≡ b
length_of h = cc h

module _ {M C F : Type 0} where
  bank_lengths :
      (core : Core M C F)
      → IsLaid core
      → (length (banks_of core).rom ≡ quad_rom_max * 16)
        × (length (banks_of core).ram ≡ quad_ram_max * 16)
  unfolding banks_of
  bank_lengths core laid = (
    length-take (quad_rom_max * 16) (drop core.initial_rom_ofs core.memory)
        ∙ omega (arith, length-drop core.initial_rom_ofs core.memory, laid.rom),
    length-take (quad_ram_max * 16) (drop core.initial_ram_ofs core.memory)
        ∙ omega (arith, length-drop core.initial_ram_ofs core.memory, laid.ram),
  )

  -- The RAM of a core that other banks were written to.
  ram-with_banks :
      (core : Core M C F) (ram : List ℕ)
      → IsLaid core
      → length ram ≡ quad_ram_max * 16
      → (banks_of (with_banks (record (banks_of core) { ram = ram }) core)).ram ≡ ram
  unfolding banks_of with_banks
  ram-with_banks core ram laid h =
      let rom = take (quad_rom_max * 16) (drop core.initial_rom_ofs core.memory) in
      let size : length rom ≡ quad_rom_max * 16 = (bank_lengths core laid).0 in
      take-drop-replaced core.initial_ram_ofs ram (replaced core.initial_rom_ofs rom core.memory)
        (quad_ram_max * 16) h
        (omega (
          arith,
          laid.ram,
          laid.rom,
          size,
          length-replaced core.initial_rom_ofs rom core.memory (omega (arith, laid.rom, size)),
        ))

  -- A quad that is written to RAM through the core's memory is read back.
  core_read-core_write :
      (core : Core M C F) (ptr : ℕ) (quad : Fields)
      → IsLaid core
      → is_ram ptr ≡ true
      → rawofs ptr < quad_ram_max
      → IsRawFields quad
      → (core' : Core M C F) × (core_write ptr quad core ≡ returned tt core')
        × (core_read ptr core' ≡ returned (some (stored quad)) core')
  unfolding core_read core_write u_read_quad u_write_quad completed
  core_read-core_write core ptr quad laid kind small raw =
      from (write_quad (banks_of core).ram (rawofs ptr) quad) refl written.0 written.1
    where
      below : (a b : ℕ) → a < b → ltb a b ≡ true
      below a b h = ground arith

      written :
          ((then_with
              (write_quad (banks_of core).ram (rawofs ptr) quad)
              (λ mem. read_quad mem (rawofs ptr)))
            ≡ returns (some (stored quad)))
          × ((then_with
                (write_quad (banks_of core).ram (rawofs ptr) quad)
                (λ mem. returns (length mem)))
              ≡ returns (length (banks_of core).ram))
      written =
          read_quad-write_quad_self (banks_of core).ram (rawofs ptr) quad (omega arith)
            (omega (arith, (bank_lengths core laid).1)) raw

      from :
          (w : Completion (List ℕ))
          → write_quad (banks_of core).ram (rawofs ptr) quad ≡ w
          → then_with w (λ mem. read_quad mem (rawofs ptr)) ≡ returns (some (stored quad))
          → then_with w (λ mem. returns (length mem)) ≡ returns (length (banks_of core).ram)
          → (core' : Core M C F) × (core_write ptr quad core ≡ returned tt core')
            × (core_read ptr core' ≡ returned (some (stored quad)) core')
      from throws e found size = absurd (cc found)
      from (returns mem) e found size =
          let core' = with_banks (record (banks_of core) { ram = mem }) core in
          let same = ram-with_banks core mem laid (length_of size ∙ (bank_lengths core laid).1) in
          (
            core',
            rw (kind, below (rawofs ptr) quad_ram_max small, e) refl,
            rw (kind, below (rawofs ptr) quad_ram_max small)
                (ap (λ ram. completed (read_quad ram (rawofs ptr)) core') same
                  ∙ ap (λ c. completed c core') found),
          )

  -- The quota of a core that was refilled holds the fixnums of the given numbers, and what it held
  -- before where none is given. The banks lie within the memory, the quota was read as a quad of raw
  -- values, and the numbers have 31 bits.
  pub h_refill_lem :
      (core : Core M C F) (memory events cycles : Option ℤ) (quota : Quad)
      → IsLaid core
      → core_read (ramptr quota_ofs) core ≡ returned (some quota) core
      → IsRawQuad quota
      → FitsFixnum memory × FitsFixnum events × FitsFixnum cycles
      → (core' : Core M C F) × (h_refill memory events cycles core ≡ returned tt core')
        × (core_read (ramptr quota_ofs) core'
            ≡ returned
                (some (record {
                  t = or_undef (or_kept memory quota.t);
                  x = or_undef (or_kept events quota.x);
                  y = or_undef (or_kept cycles quota.y);
                  z = quota.z;
                }))
                core')
  unfolding h_refill ◌>>=◌
  h_refill_lem core memory events cycles quota laid found raw (fm, fe, fc) =
      let (_, is_ram, _, ofs, _, _) = ptr_of_offset quota_ofs in
      let quad : Fields = record {
        t = or_kept memory quota.t;
        x = or_kept events quota.x;
        y = or_kept cycles quota.y;
        z = some quota.z;
      } in
      let (core', written, read) =
        core_read-core_write core (ramptr quota_ofs) quad laid is_ram (omega (arith, ofs)) (record {
          t = or_kept-IsU32 memory quota.t fm raw.t;
          x = or_kept-IsU32 events quota.x fe raw.x;
          y = or_kept-IsU32 cycles quota.y fc raw.y;
          z = raw.z;
        }) in
      (core', rw found written, read)
