-- ===== src/Tests.antt =====
-- Runs of the models on concrete inputs, and the theorems at concrete inputs.
mod Ufork
mod Labels
mod Compact
mod Compiler
mod Core
mod Loader
mod Ucode
mod FsMemory
mod Hex
mod Xmodem
mod Oed
mod Random
