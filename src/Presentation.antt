-- ===== src/Presentation.antt =====
-- The parts of native/src/presentation that hand values between the main thread and the evaluation.
pub mod Pipeline
mod Tests
