-- ===== src/Gdtf.antt =====
-- The parts of native/src/gdtf_runtime that read the values of a GDTF file and decide which of its
-- channel functions are active.
pub mod Tokens
pub mod Values
pub mod Chains
pub mod Conditions
pub mod Graph
mod Tests
