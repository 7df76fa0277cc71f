-- ===== src/Ucode/Machine/Memory.antt =====
-- fpga/ucode/ucode_sim.js: the memory operations on a sound machine.
use u_fork.Prelude.{
  if_both, ℕ, ◌^◌, ◌<◌, ◌≡◌, refl, ◌==◌, if◌then◌else◌, not, ◌||◌, Bool, true, false, bit_and,
  Bool-cases, inl, inr, arith,
}
use u_fork.Ucode.Stack.{Cell}
use u_fork.Ucode.Alu.{int_of}
use u_fork.Ucode.Machine.{
  Machine, Devices, Access, value, error, Bank, update, device_write, device_read, mem_device,
  mem_quad, mem_perform, bank_of,
}
use u_fork.Ucode.Machine.Words.{IsWord, low_bits-lt, address-lt}
use u_fork.Ucode.Machine.Sound.{
  IsWordQuad, IsSound, ReadWords, update_all, set_field-IsWordQuad, get_field-IsWord, with_gcc,
  with_prog, with_qram, with_qrom, with_instr_cnt, with_world,
}

-- A memory access gives a word, undefined, or an error.
abbrev pub IsWordAccess : Access → Type 0
IsWordAccess (value v) = IsWord v
IsWordAccess (error f) = Unit {0}

module _ {W : Type 0} where
  -- The outcome of a memory operation: its value and the machine, whose `pc` has not moved.
  pub record IsSoundAccess (pc : ℕ) (r : Access × Machine W) : Type 0 where
    pub word : IsWordAccess r.0
    pub sound : IsSound r.1
    pub same_pc : r.1.pc ≡ pc

  module _ (m : Machine W) (ok : IsSound m) (devices : Devices W) where
    mem_quad-IsSound :
        (bank : Bank) (wr_en : Bool) (field : ℕ) (v : Cell)
        → IsWord v
        → IsSoundAccess m.pc (mem_quad devices bank wr_en field v m)
    unfolding mem_quad
    mem_quad-IsSound (Bank.ram i) true field v k =
        let q = set_field-IsWordQuad (m.qram i) field v (ok.qram i) k in
        record {
          word = get_field-IsWord _ field q;
          sound = with_qram m ok _ (update_all IsWordQuad m.qram i _ ok.qram q);
          same_pc = refl;
        }
    mem_quad-IsSound (Bank.ram i) false field v k = record {
      word = get_field-IsWord _ field (ok.qram i);
      sound = ok;
      same_pc = refl;
    }
    mem_quad-IsSound (Bank.rom i) true field v k =
        let q = set_field-IsWordQuad (m.qrom i) field v (ok.qrom i) k in
        record {
          word = get_field-IsWord _ field q;
          sound = with_qrom m ok _ (update_all IsWordQuad m.qrom i _ ok.qrom q);
          same_pc = refl;
        }
    mem_quad-IsSound (Bank.rom i) false field v k = record {
      word = get_field-IsWord _ field (ok.qrom i);
      sound = ok;
      same_pc = refl;
    }
    mem_quad-IsSound Bank.nowhere true field v k = record { word = k; sound = ok; same_pc = refl }
    mem_quad-IsSound Bank.nowhere false field v k = record {
      word = omega arith;
      sound = ok;
      same_pc = refl;
    }

    device_write-IsSound :
        (id reg : ℕ) (v : Cell)
        → IsSound (device_write devices id reg v m) × ((device_write devices id reg v m).pc ≡ m.pc)
    unfolding device_write
    device_write-IsSound id reg v = elim (Bool-cases (id == 0xE)) [
      | inl perf ↦ rw perf (elim (Bool-cases (reg == 0x0)) [
        | inl first ↦ rw first (with_instr_cnt m ok _ (low_bits-lt (int_of v)), refl)
        | inr other ↦ rw other (ok, refl)
      ])
      | inr other ↦ rw other (with_world m ok _, refl)
    ]

    device_read-IsSound :
        ReadWords devices
        → (id reg : ℕ)
        → IsWord (device_read devices id reg m).0
          × IsSound (device_read devices id reg m).1
          × ((device_read devices id reg m).1.pc ≡ m.pc)
    unfolding device_read
    device_read-IsSound words id reg = elim (Bool-cases (id == 0xE)) [
      | inl perf ↦ rw perf (if_both IsWord (reg == 0x0) ok.instr_cnt (omega arith), ok, refl)
      | inr other ↦ rw other (words id reg m.world, with_world m ok _, refl)
    ]

    mem_device-IsSound :
        ReadWords devices
        → (wr_en : Bool) (id reg : ℕ) (v : Cell) → IsWord v
        → IsSoundAccess m.pc (mem_device devices wr_en id reg v m)
    unfolding mem_device
    mem_device-IsSound words wr_en id reg v k =
        elim (Bool-cases (id == 0xE || devices.present id)) [
          | inr missing ↦ rw missing (record { word = tt; sound = ok; same_pc = refl })
          | inl here ↦ rw here (access wr_en)
        ]
      where
        access :
            (wr : Bool)
            → IsSoundAccess m.pc (
                if wr
                then (value v, device_write devices id reg v m)
                else (let (r, m') = device_read devices id reg m in (value r, m')))
        access true =
            let (sound, same) = device_write-IsSound id reg v in
            record { word = k; sound = sound; same_pc = same }
        access false =
            let (word, sound, same) = device_read-IsSound words id reg in
            record { word = word; sound = sound; same_pc = same }

    -- The program memory and the colour markers, behind a write or without one.
    mem_uc-IsSound :
        (wr_en : Bool) (addr : ℕ) (v : Cell)
        → addr < 2 ^ 12
        → IsWord v
        → let prog = if wr_en then update m.prog addr v else m.prog in
          IsSoundAccess m.pc (value (prog addr), record m { prog = prog })
    mem_uc-IsSound true addr v a k =
        let words = update_all IsWord m.prog addr v ok.prog k in
        record {
          word = words addr;
          sound =
              with_prog m ok (update m.prog addr v) words (λ j h. ground (arith, ok.prog_end j h));
          same_pc = refl;
        }
    mem_uc-IsSound false addr v a k = record { word = ok.prog addr; sound = ok; same_pc = refl }

    mem_gcc-IsSound :
        (wr_en : Bool) (addr : ℕ) (v : Cell)
        → IsWord v
        → let gcc = if wr_en then update m.gcc addr v else m.gcc in
          IsSoundAccess m.pc (value (gcc addr), record m { gcc = gcc })
    mem_gcc-IsSound true addr v k =
        let words = update_all IsWord m.gcc addr v ok.gcc k in
        record { word = words addr; sound = with_gcc m ok _ words; same_pc = refl }
    mem_gcc-IsSound false addr v k = record { word = ok.gcc addr; sound = ok; same_pc = refl }

    -- Every memory operation on a sound machine gives a word, `undefined` or an error, keeps the
    -- machine sound, and does not move `pc`.
    pub mem_perform-IsSound :
        ReadWords devices
        → (range : ℕ) (wr_en : Bool) (address v : Cell) → IsWord v
        → IsSoundAccess m.pc (mem_perform devices range wr_en address v m)
    unfolding mem_perform
    mem_perform-IsSound words range wr_en address v k =
        let P = IsSoundAccess m.pc in
        let addr = bit_and (int_of address) 0x0FFF in
        if_both P (range == 0) (mem_uc-IsSound wr_en addr v (address-lt _) k) (
          if_both P (range == 1) (record { word = ok.prog m.pc; sound = ok; same_pc = refl })
            (if_both P (range == 2) (mem_gcc-IsSound wr_en addr v k) (
              if_both P (range == 3) (mem_device-IsSound words wr_en _ _ v k) (
                if_both P (not (bit_and range 4 == 0))
                  (mem_quad-IsSound (bank_of (int_of address)) wr_en (bit_and range 3) v k)
                  (record { word = tt; sound = ok; same_pc = refl })))))
