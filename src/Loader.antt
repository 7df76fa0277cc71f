-- ===== src/Loader.antt =====
-- vm/js/loader.js: load_module, which puts a module's definitions into ROM. Nodes and the monad that
-- threads the loader's variables are in Loader/Nodes and Loader/Actions.
pub mod Nodes
pub mod Actions
pub mod Populate
pub mod Refs
pub mod Checks
pub mod Module
