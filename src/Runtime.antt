-- ===== src/Runtime.antt =====
-- The parts of native/src/runtime that stand between the mailbox and the evaluation of a scene.
pub mod Dirty
pub mod Coordinator
pub mod Pool
mod Tests
