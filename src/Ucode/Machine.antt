-- ===== src/Ucode/Machine.antt =====
-- fpga/ucode/ucode_sim.js: make_machine, the state of the virtual uCode processor and its memory
-- operations. An array is a function from its indices, with `none` for `undefined`. The devices are
-- objects that the caller supplies: a section's parameter, with a world of their own.
pub mod Step
pub mod Words
pub mod Sound
pub mod Memory
pub mod Invariant
pub mod Faults
pub mod Calls
use u_fork.Prelude.{
  ℕ, ◌+◌, ◌/◌, ◌^◌, ◌==◌, ltb, if◌then◌else◌, not, ◌||◌, Bool, bit_and, Option, none, some,
}
use u_fork.Ucode.Stack.{Cell, Stack, make_stack}
use u_fork.Ucode.Alu.{int_of}

-- The ranges of memory.
abbrev pub mem_uc : ℕ
mem_uc = 0x0

abbrev pub mem_pc : ℕ
mem_pc = 0x1

abbrev pub mem_gcc : ℕ
mem_gcc = 0x2

abbrev pub mem_dev : ℕ
mem_dev = 0x3

abbrev pub mem_q_t : ℕ
mem_q_t = 0x4

pub record QuadCells : Type 0 where
  pub t : Cell
  pub x : Cell
  pub y : Cell
  pub z : Cell

pub record Machine (W : Type 0) : Type 0 where
  pub pc : ℕ
  pub instr_cnt : ℕ
  pub dstack : Stack
  pub rstack : Stack
  pub gcc : ℕ → Cell
  pub qram : ℕ → QuadCells
  pub qrom : ℕ → QuadCells
  pub prog : ℕ → Cell
  pub world : W

-- The error objects of the source. Their copies of `pc` and of the stacks are those of the machine
-- that is returned beside them.
pub data Fault : Type 0 where
  unknown_device : ℕ → ℕ → Fault
  illegal_memory_operation : ℕ → ℕ → Fault
  program_address : ℕ → Fault
  illegal_control_instruction : Fault
  illegal_instruction : ℕ → Fault

-- The value of a memory operation, which may be `undefined`, or an error.
pub data Access : Type 0 where
  value : Cell → Access
  error : Fault → Access

-- What `typeof device[id] === "object"` finds, and the methods of such a device.
pub record Devices (W : Type 0) : Type 0 where
  pub present : ℕ → Bool
  pub read : ℕ → ℕ → W → Cell × W
  pub write : ℕ → ℕ → Cell → W → W

abbrev pub update {ℓ} : {A : Type ℓ} → (ℕ → A) → ℕ → A → ℕ → A
update f i v j = if i == j then v else f j

-- `new Array(n).fill(v)`
abbrev pub filled {ℓ} : {A : Type ℓ} → ℕ → A → A → ℕ → A
filled n v missing i = if ltb i n then v else missing

abbrev dead : QuadCells
dead = record { t = some 0xDEAD; x = some 0xDEAD; y = some 0xDEAD; z = some 0xDEAD }

abbrev no_quad : QuadCells
no_quad = record { t = none; x = none; y = none; z = none }

module _ {W : Type 0} where
  unfoldable pub make_machine : (ℕ → Cell) → W → Machine W
  unfolding make_stack
  make_machine prog world = record {
    pc = 0;
    instr_cnt = 0;
    dstack = make_stack 12;
    rstack = make_stack 12;
    gcc = filled (2 ^ 12) (some 0) none;
    qram = filled (2 ^ 12) dead no_quad;
    qrom = filled (2 ^ 13) dead no_quad;
    prog = prog;
    world = world;
  }

-- `quad[field]`, for the field of number 0 to 3.
abbrev pub get_field : QuadCells → ℕ → Cell
get_field quad field =
    if field == 0
    then quad.t
    else if field == 1
    then quad.x
    else if field == 2
    then quad.y
    else quad.z

abbrev pub set_field : QuadCells → ℕ → Cell → QuadCells
set_field quad field v =
    if field == 0
    then record quad { t = v }
    else if field == 1
    then record quad { x = v }
    else if field == 2
    then record quad { y = v }
    else record quad { z = v }

-- Where a quad address leads.
pub data Bank : Type 0 where
  ram : ℕ → Bank
  rom : ℕ → Bank
  nowhere : Bank

unfoldable pub bank_of : ℕ → Bank
bank_of addr =
    if bit_and addr 0xC000 == 0x4000
    then Bank.ram (bit_and addr 0x0FFF)
    else if bit_and addr 0xC000 == 0x0000
    then Bank.rom (bit_and addr 0x1FFF)
    else Bank.nowhere

module _ {W : Type 0} (devices : Devices W) where
  -- The performance device, which is installed as number 14, and the caller's devices.
  unfoldable pub device_write : ℕ → ℕ → Cell → Machine W → Machine W
  device_write id reg v m =
      if id == 0xE
      then (if reg == 0x0 then record m { instr_cnt = bit_and (int_of v) 0xFFFF } else m)
      else record m { world = devices.write id reg v m.world }

  unfoldable pub device_read : ℕ → ℕ → Machine W → Cell × Machine W
  device_read id reg m =
      if id == 0xE
      then ((if reg == 0x0 then some m.instr_cnt else some 0), m)
      else (let (v, w) = devices.read id reg m.world in (v, record m { world = w }))

  unfoldable pub mem_device : Bool → ℕ → ℕ → Cell → Machine W → Access × Machine W
  unfolding device_write device_read
  mem_device wr_en id reg v m =
      if id == 0xE || devices.present id
      then (if wr_en
          then (value v, device_write id reg v m)
          else (let (r, m') = device_read id reg m in (value r, m')))
      else (error (unknown_device id reg), m)

  unfoldable pub mem_quad : Bank → Bool → ℕ → Cell → Machine W → Access × Machine W
  mem_quad (Bank.ram i) wr_en field v m =
      let quad = if wr_en then set_field (m.qram i) field v else m.qram i in
      (
        value (get_field quad field),
        record m { qram = if wr_en then update m.qram i quad else m.qram },
      )
  mem_quad (Bank.rom i) wr_en field v m =
      let quad = if wr_en then set_field (m.qrom i) field v else m.qrom i in
      (
        value (get_field quad field),
        record m { qrom = if wr_en then update m.qrom i quad else m.qrom },
      )
  mem_quad Bank.nowhere wr_en field v m = (value (if wr_en then v else some 0), m)

  unfoldable pub mem_perform : ℕ → Bool → Cell → Cell → Machine W → Access × Machine W
  unfolding mem_device mem_quad bank_of
  mem_perform range wr_en address v m =
      let addr = bit_and (int_of address) 0x0FFF in
      if range == mem_uc
      then (let prog = if wr_en then update m.prog addr v else m.prog in
          (value (prog addr), record m { prog = prog }))
      else if range == mem_pc
      then (value (m.prog m.pc), m)
      else if range == mem_gcc
      then (let gcc = if wr_en then update m.gcc addr v else m.gcc in
          (value (gcc addr), record m { gcc = gcc }))
      else if range == mem_dev
      then mem_device wr_en (bit_and (int_of address) 0xF0 / 2 ^ 4) (bit_and (int_of address) 0x0F)
          v m
      else if not (bit_and range mem_q_t == 0)
      then mem_quad (bank_of (int_of address)) wr_en (bit_and range 0x3) v m
      else (error (illegal_memory_operation range (int_of address)), m)
