-- ===== src/Tests/Core/Host.antt =====
-- vm/js/core.js: a machine that only counts its calls, with callbacks that are numbers.
use u_fork.Prelude.{
  true, ℕ, ◌+◌, ◌^◌, ◌≡◌, refl, subst, false, List, [], ◌∷◌, none, some, replicate,
  length-replicate, arith,
}
use u_fork.Prelude.Int.{ℤ, pos, negsuc}
use u_fork.Ufork.Raw.{fixnum, ramptr, is_ram, rawofs, to_uint32, to_int32}
use u_fork.Ufork.Constants.{quota_ofs}
use u_fork.Ufork.Memory.{read_quad, read_quad_at, get_uint32}
use u_fork.Core.{u_read_quad}
use u_fork.Core.Calls.{
  Call, Core, returned, threw, pure, ◌>>=◌, ◌>>◌, for_each, u_defer, begin_call, end_call,
  wrap_call, wrap_wasm_call,
}
use u_fork.Core.Deferred.{
  IsIdle, KeepsIdle, Defers, over, changes, defers, state_of, wrap_wasm_call-u_defer,
}
use u_fork.Core.Host.{
  Exports, replaced, h_install, h_dispose, take_on_dispose, core_read, banks_of, completed,
  h_refill, h_restore,
}
use u_fork.Core.Host.Restored.{h_restore_throws}
use u_fork.Core.Host.Refilled.{IsLaid, h_refill_lem}

-- The machine keeps what the callbacks did.
abbrev Small : Type 0
Small = Core (List ℕ) ℕ (Unit {0})

abbrev perform : ℕ → Call Small (Unit {0})
perform n core = returned tt (record core { machine = n ∷ core.machine })

abbrev idle : Small
idle = record {
  machine = [];
  memory = [];
  initial_rom_ofs = 0;
  initial_ram_ofs = 0;
  boot_caps_dict = [];
  wasm_caps = [];
  on_dispose_callbacks = [];
  wasm_call_in_progress = false;
  deferred_queue = [];
}

idle-IsIdle : IsIdle idle
idle-IsIdle = record { no_call = refl; no_callback = refl }

u_defer_outside : u_defer 7 idle ≡ threw idle
unfolding u_defer
u_defer_outside = refl

-- A device's callback is called once.
disposed_twice :
    (h_install none none (some 7) [] >>= λ _. h_dispose perform >>= λ _. h_dispose perform) idle
    ≡ returned tt (record idle { machine = 7 ∷ [] })
unfolding h_install h_dispose take_on_dispose ◌>>=◌ for_each
disposed_twice = refl

-- An export that grows the memory, defers a callback, changes the machine and defers another one.
abbrev busy_export : Call Small ℤ
busy_export core =
    (u_defer 1 >>= λ _ core1.
    (u_defer 2 >>= λ _. pure (negsuc 0)) (record core1 { machine = 9 ∷ core1.machine }))
      (record core { memory = 0 ∷ core.memory })

-- The core in the middle of it, with the callbacks that wait.
abbrev busy : List ℕ → List ℕ → Small
busy machine callbacks = record idle {
  machine = machine;
  memory = 0 ∷ [];
  wasm_call_in_progress = true;
  deferred_queue = callbacks;
}

busy_export-Defers :
    Defers (record idle { wasm_call_in_progress = true }) (1 ∷ 2 ∷ []) (busy (9 ∷ []) (1 ∷ 2 ∷ []))
unfolding u_defer
busy_export-Defers = changes {core1 = busy [] []} refl refl (
    defers {core1 = busy [] (1 ∷ [])} refl (
      changes {core1 = busy (9 ∷ []) (1 ∷ [])} refl refl
        (defers {core1 = busy (9 ∷ []) (1 ∷ 2 ∷ [])} refl over)))

busy_export_returns :
    busy_export (record idle { wasm_call_in_progress = true })
    ≡ returned (negsuc 0) (busy (9 ∷ []) (1 ∷ 2 ∷ []))
unfolding u_defer ◌>>=◌
busy_export_returns = refl

wrap_wasm_call-u_defer_example :
    wrap_wasm_call perform busy_export idle
    ≡ (for_each perform (1 ∷ 2 ∷ []) >>= λ _. pure (to_uint32 (negsuc 0)))
        (record idle { machine = 9 ∷ []; memory = 0 ∷ [] })
wrap_wasm_call-u_defer_example =
    wrap_wasm_call-u_defer perform busy_export (1 ∷ 2 ∷ []) (negsuc 0) idle
      (busy (9 ∷ []) (1 ∷ 2 ∷ [])) idle-IsIdle busy_export_returns busy_export-Defers

-- An export that defers a callback.
abbrev export : Call Small ℤ
export = u_defer 3 >>= λ _. pure (pos 5)

export_runs : wrap_wasm_call perform export idle ≡ returned 5 (record idle { machine = 3 ∷ [] })
unfolding wrap_wasm_call wrap_call begin_call end_call u_defer for_each ◌>>=◌ ◌>>◌ to_uint32
export_runs = refl

perform-KeepsIdle : (n : ℕ) → KeepsIdle (perform n)
perform-KeepsIdle n core core' a h e =
    subst IsIdle (state_of e) (record { no_call = h.no_call; no_callback = h.no_callback })

abbrev no_exports : Exports (List ℕ) ℕ (Unit {0})
no_exports = record {
  h_reserve = pure (pos 0);
  h_event_enqueue = λ _. pure (pos 0);
  h_rom_buffer = pure (pos 0);
  h_rom_top = pure (pos 0);
  h_ram_buffer = pure (pos 0);
  h_ram_top = pure (pos 0);
  h_set_rom_top = λ _. pure tt;
}

abbrev two_quads : Small
two_quads = record idle { memory = replicate 32 0; initial_ram_ofs = 16 }

h_restore_throws_example :
    h_restore perform no_exports (record { rom = 1 ∷ 2 ∷ []; ram = 3 ∷ [] }) two_quads
    ≡ threw (record two_quads { memory = replaced 0 (1 ∷ 2 ∷ []) (replicate 32 0) })
h_restore_throws_example =
    h_restore_throws perform no_exports (record { rom = 1 ∷ 2 ∷ []; ram = 3 ∷ [] }) two_quads
      (omega arith) (omega arith)

-- The RAM is at the beginning, and the ROM behind it.
abbrev full : Small
full = record idle { memory = replicate (2 ^ 16 + 2 ^ 17) 0; initial_rom_ofs = 2 ^ 16 }

full-IsLaid : IsLaid full
full-IsLaid = record {
  rom = omega (arith, length-replicate {A = ℕ} (2 ^ 16 + 2 ^ 17) 0);
  ram = omega (arith, length-replicate {A = ℕ} (2 ^ 16 + 2 ^ 17) 0);
}

quota_read :
    core_read (ramptr quota_ofs) full ≡ returned (some (record { t = 0; x = 0; y = 0; z = 0 })) full
unfolding core_read banks_of u_read_quad read_quad read_quad_at get_uint32 completed is_ram rawofs
    ramptr to_int32
quota_read = refl

h_refill_lem_example :
    (core' : Small) × (h_refill (some (pos 9)) none none full ≡ returned tt core')
    × (core_read (ramptr quota_ofs) core'
        ≡ returned (some (record { t = 0x80000009; x = 0; y = 0; z = 0 })) core')
unfolding fixnum
h_refill_lem_example =
    h_refill_lem full (some (pos 9)) none none (record { t = 0; x = 0; y = 0; z = 0 }) full-IsLaid
      quota_read (record { t = omega arith; x = omega arith; y = omega arith; z = omega arith })
      ((omega arith, omega arith), tt, tt)
