-- ===== src/Ucode.antt =====
-- fpga/ucode/ucode.js and fpga/ucode/ucode_sim.js: the uCode compiler, the machine, its stacks and
-- its instructions.
pub mod Alu
pub mod Compiler
pub mod Machine
pub mod Stack
