-- ===== src/Ucode/Machine/Sound.antt =====
-- fpga/ucode/ucode_sim.js: a machine whose memory and stacks hold words of 16 bits, and the memory
-- operations on it.
use u_fork.Prelude.{if_both, ℕ, ◌^◌, ◌≤◌, ◌<◌, ◌≡◌, ◌==◌, none}
use u_fork.Ucode.Stack.{Cell, Stack}
use u_fork.Ucode.Machine.{QuadCells, Machine, Devices, update, get_field, set_field}
use u_fork.Ucode.Machine.Words.{IsWord, IsWordStack}

pub record IsWordQuad (q : QuadCells) : Type 0 where
  pub t : IsWord q.t
  pub x : IsWord q.x
  pub y : IsWord q.y
  pub z : IsWord q.z

-- What a machine's memory and stacks hold, whatever its program counter.
pub record IsSound {W : Type 0} (m : Machine W) : Type 0 where
  pub instr_cnt : m.instr_cnt < 2 ^ 16
  pub dstack : IsWordStack m.dstack
  pub rstack : IsWordStack m.rstack
  pub gcc : (i : ℕ) → IsWord (m.gcc i)
  pub qram : (i : ℕ) → IsWordQuad (m.qram i)
  pub qrom : (i : ℕ) → IsWordQuad (m.qrom i)
  pub prog : (i : ℕ) → IsWord (m.prog i)
  pub prog_end : (i : ℕ) → 2 ^ 12 ≤ i → m.prog i ≡ none

-- The caller's devices are read as words.
abbrev pub ReadWords : {W : Type 0} → Devices W → Type 0
ReadWords {W} devices = (id reg : ℕ) (w : W) → IsWord (devices.read id reg w).0

pub update_all {ℓ κ} :
    {A : Type ℓ} (P : A → Type κ) (f : ℕ → A) (i : ℕ) (v : A)
    → ((j : ℕ) → P (f j))
    → P v
    → (j : ℕ) → P (update f i v j)
update_all P f i v h k j = if_both P (i == j) k (h j)

pub set_field-IsWordQuad :
    (q : QuadCells) (field : ℕ) (v : Cell)
    → IsWordQuad q
    → IsWord v
    → IsWordQuad (set_field q field v)
set_field-IsWordQuad q field v h k =
    if_both IsWordQuad (field == 0) (record { t = k; x = h.x; y = h.y; z = h.z })
      (if_both IsWordQuad (field == 1) (record { t = h.t; x = k; y = h.y; z = h.z })
        (if_both IsWordQuad (field == 2) (record { t = h.t; x = h.x; y = k; z = h.z })
          (record { t = h.t; x = h.x; y = h.y; z = k })))

pub get_field-IsWord : (q : QuadCells) (field : ℕ) → IsWordQuad q → IsWord (get_field q field)
get_field-IsWord q field h =
    if_both IsWord (field == 0) h.t
      (if_both IsWord (field == 1) h.x (if_both IsWord (field == 2) h.y h.z))

-- A sound machine with one part replaced.
module _ {W : Type 0} (m : Machine W) (ok : IsSound m) where
  pub with_instr_cnt : (n : ℕ) → n < 2 ^ 16 → IsSound (record m { instr_cnt = n })
  with_instr_cnt n h = record {
    instr_cnt = h;
    dstack = ok.dstack;
    rstack = ok.rstack;
    gcc = ok.gcc;
    qram = ok.qram;
    qrom = ok.qrom;
    prog = ok.prog;
    prog_end = ok.prog_end;
  }

  pub with_dstack : (s : Stack) → IsWordStack s → IsSound (record m { dstack = s })
  with_dstack s h = record {
    instr_cnt = ok.instr_cnt;
    dstack = h;
    rstack = ok.rstack;
    gcc = ok.gcc;
    qram = ok.qram;
    qrom = ok.qrom;
    prog = ok.prog;
    prog_end = ok.prog_end;
  }

  pub with_rstack : (s : Stack) → IsWordStack s → IsSound (record m { rstack = s })
  with_rstack s h = record {
    instr_cnt = ok.instr_cnt;
    dstack = ok.dstack;
    rstack = h;
    gcc = ok.gcc;
    qram = ok.qram;
    qrom = ok.qrom;
    prog = ok.prog;
    prog_end = ok.prog_end;
  }

  pub with_gcc : (f : ℕ → Cell) → ((i : ℕ) → IsWord (f i)) → IsSound (record m { gcc = f })
  with_gcc f h = record {
    instr_cnt = ok.instr_cnt;
    dstack = ok.dstack;
    rstack = ok.rstack;
    gcc = h;
    qram = ok.qram;
    qrom = ok.qrom;
    prog = ok.prog;
    prog_end = ok.prog_end;
  }

  pub with_qram :
      (f : ℕ → QuadCells) → ((i : ℕ) → IsWordQuad (f i)) → IsSound (record m { qram = f })
  with_qram f h = record {
    instr_cnt = ok.instr_cnt;
    dstack = ok.dstack;
    rstack = ok.rstack;
    gcc = ok.gcc;
    qram = h;
    qrom = ok.qrom;
    prog = ok.prog;
    prog_end = ok.prog_end;
  }

  pub with_qrom :
      (f : ℕ → QuadCells) → ((i : ℕ) → IsWordQuad (f i)) → IsSound (record m { qrom = f })
  with_qrom f h = record {
    instr_cnt = ok.instr_cnt;
    dstack = ok.dstack;
    rstack = ok.rstack;
    gcc = ok.gcc;
    qram = ok.qram;
    qrom = h;
    prog = ok.prog;
    prog_end = ok.prog_end;
  }

  pub with_prog :
      (f : ℕ → Cell)
      → ((i : ℕ) → IsWord (f i))
      → ((i : ℕ) → 2 ^ 12 ≤ i → f i ≡ none)
      → IsSound (record m { prog = f })
  with_prog f h k = record {
    instr_cnt = ok.instr_cnt;
    dstack = ok.dstack;
    rstack = ok.rstack;
    gcc = ok.gcc;
    qram = ok.qram;
    qrom = ok.qrom;
    prog = h;
    prog_end = k;
  }

  pub with_pc : (n : ℕ) → IsSound (record m { pc = n })
  with_pc n = record {
    instr_cnt = ok.instr_cnt;
    dstack = ok.dstack;
    rstack = ok.rstack;
    gcc = ok.gcc;
    qram = ok.qram;
    qrom = ok.qrom;
    prog = ok.prog;
    prog_end = ok.prog_end;
  }

  pub with_world : (w : W) → IsSound (record m { world = w })
  with_world w = record {
    instr_cnt = ok.instr_cnt;
    dstack = ok.dstack;
    rstack = ok.rstack;
    gcc = ok.gcc;
    qram = ok.qram;
    qrom = ok.qrom;
    prog = ok.prog;
    prog_end = ok.prog_end;
  }
