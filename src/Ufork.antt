-- ===== src/Ufork.antt =====
-- vm/js/ufork.js: the constants and helper functions of the 32-bit uFork implementations.
pub mod Constants
pub mod Raw
pub mod Memory
pub mod Labels
pub mod Compact
