-- ===== src/Lib.antt =====
-- uFork: the JavaScript side of the uFork virtual machine, which runs actors as quads of memory.
--
-- The program's parts and the files that model them. Paths are from the repository's root.
--   vm/js/ufork.js          Ufork: the constants (Constants), the raw values of 32 bits and their
--                           conversions (Raw), quads in a memory of bytes and the current
--                           continuation (Memory), the labels of instructions (Labels).
--   vm/js/loader.js         Loader: load_module, which puts the nodes of an IR module (Nodes) into
--                           ROM. Its variables and its errors (Actions), the values of nodes and
--                           the quads they need (Populate), the references between definitions
--                           (Refs), the checks at the end (Checks), and the steps in their order
--                           (Module). `label` is in Ufork/Labels.
--   vm/js/core.js           Core: quads of ROM and RAM by their pointers, and lists of them. The
--                           calls of the WebAssembly machine and the callbacks that wait for them
--                           (Core/Calls), and what devices and applications ask for (Core/Host).
--   vm/js/compact_memory.js Ufork/Compact: a memory image without the unused quads at its end.
--   fpga/ucode/ucode_sim.js Ucode: the simulator of the uCode processor of the FPGA. Its bounded
--                           stacks (Stack), the ALU (Alu), the memories and devices (Machine), one
--                           step and the run loop (Machine/Step).
--   fpga/ucode/ucode.js     Ucode/Compiler: the compiler of uCode words, whose programs the simulator
--                           runs. The text's characters and tokens (Streams), instruction words
--                           (Codes), the dictionary (Entries, Table), the variables of `compile`
--                           (States), the compiler functions (Directives), the disassembler and the
--                           memory image (Printer), and the parser of an image (Reader). What the
--                           stack comments of its table say is written down in Meanings.
--   vm/js/fs_memory.js      FsMemory: files in memory, and handles that share them.
--   lib/concat_bytes.js     FsMemory: `concat_bytes`.
--   lib/xmodem.js           Xmodem: the sender of the XMODEM protocol, used by
--                           apps/playground/fomu.js.
--   lib/oed_lite.js         Oed: integers and blobs as octets, and how numbers are read.
--   lib/hex.js              Hex: bytes as hexadecimal text, a list of UTF-16 code units.
--   vm/js/random_dev.js     Random: the device that gives random fixnums.
--   lib/prng.js             Random: a pseudo-random generator.
-- Prelude holds what all share: tests on numbers, lists by native numbers, integers, and the bit
-- operators as arithmetic. Tests holds runs of the models and the theorems at concrete inputs.
--
-- How the code corresponds to the models. A function has the name it has in the source. A 32-bit
-- raw value is a number below 2^32; an int32 result of `&`, `|` or `<<` is the pattern of its
-- bits, and an integer where the source reads it with a sign. `undefined` is `none`. What throws
-- is a value of its own: `Completion` for quads, `Reply` for requestors, a `Fault` for an error
-- that a step returns, `Result` for the loader and `Outcome`, which keeps what was changed
-- before the throw, for the core. An error that is an object of the source is a value, too:
-- `Outcome` of the uCode compiler, and `Reading` of octets. A closure's variables are a record
-- that each call takes and gives back: Stack and Machine for the simulator, Handle and Files for
-- the files, Loading for load_module, Core for make_core, Sender for XMODEM, whose callbacks are
-- called by `respond` with the next value. The loader's `value` and `populate` call each other;
-- here `value` is the recursion on the node, and each branch of `populate` takes the values of
-- its children, which it evaluates in its order.
--
-- Bounds and fuel. `run_loop` has fuel, since a program may run for ever; `none` then says that
-- the machine still runs. `u_flatten` has fuel, since a list may be cyclic. `compact_memory` has
-- fuel too, and the length of the bytes is enough. The recursion of `ref_depth` and the loop
-- over a chain of quads have fuel; one more than the number of references, and more than the
-- number of quads that can be read, are enough. The digits of a number of at most 53 bits are at
-- most fourteen. The loops of XMODEM and of the files' reads are recursions on the number of
-- rounds, and what bounds that number is proved. The simulator's stacks have a depth of more
-- than two, as all effects assume; its machine has twelve cells in each.
--
-- `compile` has fuel for its tokens and its nested comments, two more than the characters of the
-- text, which is enough; `parse_memh` has one more than the characters of the image.
--
-- The compiler's texts are lists of code points. Its objects `words` and `unused` are lists of
-- entries in the order of `Object.entries`, and what `words` inherits from Object.prototype is a
-- table. An item of `ctrl_ctx` that is missing is read as 0, as the bit operators read
-- `undefined`; a 32-bit number of an image is the pattern of its bits.
--
-- `decode_number` has fuel for the numbers in front of a number; as much as there are octets,
-- and one more, is enough.
--
-- Parameters. `compose_number` is one of Oed: its product is one in floating point. `Number` of
-- a token is one of the compiler: a safe integer, or none. The loader takes the memory as an
-- interface, RomOps, whose three operations the core gives it; a theorem on what it writes adds
-- a list of the writes to any such memory. The exports of the WebAssembly machine, the callbacks
-- of devices, the devices of a machine, the comparison and the parsing of a file's url, and the
-- word that webcrypto gives are arguments of the definitions that use them.
--
-- Not modelled: strings, arrays, objects and fractions as octets; the trace output of the simulator;
-- `print` and `print_quad`, which make texts of raw values; import_module, h_initialize and
-- h_import, which wait for fetches; h_load, which gives the core's memory to the loader; the
-- core's logging and debugging aids, and its other devices; the assembler and the other
-- compilers; the transports and the user interface, which are input and output of the platform;
-- and the machine's other implementations, in Rust and Verilog.
pub mod Prelude
pub mod Ufork
pub mod Core
pub mod Loader
pub mod Ucode
pub mod FsMemory
pub mod Hex
pub mod Xmodem
pub mod Oed
pub mod Random
pub mod Tests
