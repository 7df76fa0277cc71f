-- ===== src/Core/Host.antt =====
-- vm/js/core.js: what devices and applications ask of the core.
pub mod Restored
pub mod Refilled
use Prim.Native.String.{String}
use u_fork.Prelude.{
  ℕ, zero, suc, ◌+◌, ◌*◌, ◌/◌, ◌%◌, ◌^◌, leb, not, if◌then◌else◌, List, [], ◌∷◌, ◌++◌, Option, none,
  some, length, take, drop,
}
use u_fork.Prelude.Int.{ℤ, pos, negsuc}
use u_fork.Ufork.Constants.{
  undef_raw, nil_raw, actor_t, dict_t, quad_rom_max, quad_ram_max, quota_ofs, memory_ofs,
  sponsor_ofs,
}
use u_fork.Ufork.Raw.{is_ptr, rawofs, romptr, ramptr, fixnum, cap_to_ptr, ptr_to_cap, to_int32}
use u_fork.Ufork.Memory.{Completion, returns, throws, Quad, Fields}
use u_fork.Core.{Banks, u_read_quad, u_write_quad}
use u_fork.Core.Calls.{
  Call, Core, returned, threw, pure, throw, ◌>>=◌, ◌>>◌, for_each, wrap_call, wrap_wasm_call,
}

-- `new Uint8Array(mem_base, ofs, len)`, whose bytes are those of the memory.
unfoldable pub view : ℕ → ℤ → List ℕ → Option (List ℕ)
view ofs (pos len) memory =
    if leb (ofs + len) (length memory) then some (take len (drop ofs memory)) else none
view ofs (negsuc _) memory = none

-- `new Uint8Array(mem_base, ofs, bytes.byteLength).set(bytes)`
unfoldable pub set_bytes : ℕ → List ℕ → List ℕ → Option (List ℕ)
set_bytes ofs bytes memory =
    if leb (ofs + length bytes) (length memory)
    then some (take ofs memory ++ bytes ++ drop (ofs + length bytes) memory)
    else none

unfoldable pub u_cap_to_ptr : ℕ → ℕ
u_cap_to_ptr cap = cap_to_ptr cap

unfoldable pub u_ptr_to_cap : ℕ → ℕ
u_ptr_to_cap ptr = ptr_to_cap ptr

-- A memory image.
pub record Snapshot : Type 0 where
  pub rom : List ℕ
  pub ram : List ℕ

-- A range of the memory with other bytes.
abbrev pub replaced : ℕ → List ℕ → List ℕ → List ℕ
replaced ofs bytes memory = take ofs memory ++ bytes ++ drop (ofs + length bytes) memory

abbrev pub boot_entry : Option ℕ → Option ℕ → List (ℕ × ℕ)
boot_entry (some boot_key) (some boot_value) = (boot_key, boot_value) ∷ []
boot_entry _ _ = []

abbrev pub callbacks_of : {C : Type 0} → Option C → List C
callbacks_of none = []
callbacks_of (some on_dispose) = on_dispose ∷ []

abbrev pub or_kept : Option ℤ → ℕ → Option ℕ
or_kept none raw = some raw
or_kept (some n) raw = some (fixnum n)

module _ {M C F : Type 0} where
  -- The banks as u_rom and u_ram give them; the machine's memory holds both.
  unfoldable pub banks_of : Core M C F → Banks
  banks_of core = record {
    rom = take (quad_rom_max * 16) (drop core.initial_rom_ofs core.memory);
    ram = take (quad_ram_max * 16) (drop core.initial_ram_ofs core.memory);
  }

  unfoldable pub with_banks : Banks → Core M C F → Core M C F
  with_banks banks core = record core {
    memory =
        replaced core.initial_ram_ofs banks.ram
          (replaced core.initial_rom_ofs banks.rom core.memory);
  }

  unfoldable pub completed : {A : Type 0} → Completion A → Call (Core M C F) A
  completed (returns a) = pure a
  completed throws = throw

  unfoldable pub core_read : ℕ → Call (Core M C F) (Option Quad)
  core_read ptr core = completed (u_read_quad (banks_of core) ptr) core

  abbrev pub put_banks : Core M C F → Completion Banks → Call (Core M C F) (Unit {0})
  put_banks core (returns banks) _ = returned tt (with_banks banks core)
  put_banks core throws s = threw s

  unfoldable pub core_write : ℕ → Fields → Call (Core M C F) (Unit {0})
  core_write ptr quad core = put_banks core (u_write_quad (banks_of core) ptr quad) core

  -- `Object.assign(wasm_caps, wasm_imports)`: the entry in front is the one that counts.
  unfoldable pub h_install :
      Option ℕ → Option ℕ → Option C → List (String × F) → Call (Core M C F) (Unit {0})
  h_install boot_key boot_value on_dispose wasm_imports core = returned tt (record core {
    boot_caps_dict = core.boot_caps_dict ++ boot_entry boot_key boot_value;
    on_dispose_callbacks = core.on_dispose_callbacks ++ callbacks_of on_dispose;
    wasm_caps = wasm_imports ++ core.wasm_caps;
  })

  unfoldable pub take_on_dispose : Call (Core M C F) (List C)
  take_on_dispose core =
      returned core.on_dispose_callbacks (record core { on_dispose_callbacks = [] })

  unfoldable pub h_dispose : (C → Call (Core M C F) (Unit {0})) → Call (Core M C F) (Unit {0})
  h_dispose perform = do callbacks ← take_on_dispose; for_each perform callbacks

  -- The quota is a property of `undefined` if its quad cannot be read.
  abbrev pub refilled : Option ℤ → Option ℤ → Option ℤ → Option Quad → Call (Core M C F) (Unit {0})
  refilled memory events cycles none = throw
  refilled memory events cycles (some quota) = core_write (ramptr quota_ofs) (record {
    t = or_kept memory quota.t;
    x = or_kept events quota.x;
    y = or_kept cycles quota.y;
    z = some quota.z;
  })

  unfoldable pub h_refill : Option ℤ → Option ℤ → Option ℤ → Call (Core M C F) (Unit {0})
  h_refill memory events cycles = core_read (ramptr quota_ofs) >>= refilled memory events cycles

-- The exports of the machine, which are called by way of wrap_wasm_call.
pub record Exports (M C F : Type 0) : Type 0 where
  pub h_reserve : Call (Core M C F) ℤ
  pub h_event_enqueue : ℕ → Call (Core M C F) ℤ
  pub h_rom_buffer : Call (Core M C F) ℤ
  pub h_rom_top : Call (Core M C F) ℤ
  pub h_ram_buffer : Call (Core M C F) ℤ
  pub h_ram_top : Call (Core M C F) ℤ
  pub h_set_rom_top : ℕ → Call (Core M C F) (Unit {0})

module _ {M C F : Type 0} (perform : C → Call (Core M C F) (Unit {0}))
    (exports : Exports M C F) where
  unfoldable pub h_reserve_ram : Fields → Call (Core M C F) ℕ
  h_reserve_ram quad = do
    ptr ← wrap_wasm_call perform exports.h_reserve
    core_write ptr quad
    pure ptr

  -- `boot_caps_dict.reduce`
  unfoldable pub reserve_dict : List (ℕ × ℕ) → ℕ → Call (Core M C F) ℕ
  reserve_dict [] dict = pure dict
  reserve_dict ((key_raw, value_raw) ∷ entries) dict =
      h_reserve_ram
        (record { t = some dict_t; x = some key_raw; y = some value_raw; z = some dict })
      >>= reserve_dict entries

  abbrev pub caps_of : Call (Core M C F) (List (ℕ × ℕ))
  caps_of core = returned core.boot_caps_dict core

  unfoldable pub h_boot : ℕ → ℕ → Call (Core M C F) (Unit {0})
  h_boot instr_ptr state_ptr =
      let boot = do
        actor ← h_reserve_ram (record {
          t = some actor_t;
          x = some instr_ptr;
          y = some state_ptr;
          z = some undef_raw;
        })
        caps ← caps_of
        dict ← reserve_dict caps nil_raw
        evt ← h_reserve_ram (record {
          t = some (ramptr sponsor_ofs);
          x = some (u_ptr_to_cap actor);
          y = some dict;
          z = none;
        })
        wrap_wasm_call perform (exports.h_event_enqueue evt)
        pure tt
      in if not (is_ptr instr_ptr) then throw else boot

  -- A result of `undefined` where the application gives no `on_txn`.
  abbrev pub notify :
      Option (ℕ → List ℕ → Call (Core M C F) (Unit {0})) → ℕ → List ℕ → Call (Core M C F) (Unit {0})
  notify none sender events = pure tt
  notify (some on_txn) sender events = on_txn sender events

  unfoldable pub h_wakeup :
      Option (ℕ → List ℕ → Call (Core M C F) (Unit {0})) → ℕ → List ℕ → Call (Core M C F) (Unit {0})
  h_wakeup on_txn sender events = do
    for_each (λ event. wrap_wasm_call perform (exports.h_event_enqueue event) >>= λ _. pure tt)
        events
    notify on_txn sender events

  -- The memory of a call that builds a view, which is out of range or not.
  abbrev pub or_throw : {A : Type 0} → Option A → Call (Core M C F) A
  or_throw none = throw
  or_throw (some a) = pure a

  unfoldable pub viewed : ℕ → ℤ → Call (Core M C F) (List ℕ)
  viewed ofs len core = or_throw (view ofs len core.memory) core

  -- `rawofs(top) << 4`
  abbrev pub bytes_below : ℕ → ℤ
  bytes_below top = to_int32 (rawofs top * 16 % 2 ^ 32)

  unfoldable pub h_rom : Call (Core M C F) (List ℕ)
  h_rom = do
    rom_ofs ← wrap_wasm_call perform exports.h_rom_buffer
    top ← wrap_wasm_call perform exports.h_rom_top
    viewed rom_ofs (bytes_below top)

  unfoldable pub h_ram : Call (Core M C F) (List ℕ)
  h_ram = do
    ram_ofs ← wrap_wasm_call perform exports.h_ram_buffer
    top ← wrap_wasm_call perform exports.h_ram_top
    viewed ram_ofs (bytes_below top)

  unfoldable pub h_snapshot : Call (Core M C F) Snapshot
  h_snapshot = do rom ← h_rom; ram ← h_ram; pure (record { rom = rom; ram = ram })

  unfoldable pub set_memory : ℕ → List ℕ → Call (Core M C F) (Unit {0})
  set_memory ofs bytes core =
      (or_throw (set_bytes ofs bytes core.memory) >>= λ memory _.
      returned tt (record core { memory = memory }))
        core

  abbrev pub rom_ofs_of : Call (Core M C F) ℕ
  rom_ofs_of core = returned core.initial_rom_ofs core

  unfoldable pub h_restore : Snapshot → Call (Core M C F) (Unit {0})
  h_restore snapshot = do
    rom_ofs ← rom_ofs_of
    set_memory rom_ofs snapshot.rom
    set_memory (ramptr memory_ofs) snapshot.ram
    wrap_call perform (exports.h_set_rom_top (romptr (length snapshot.rom / 4)))
