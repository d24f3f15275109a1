-- ===== src/Nnue.antt =====
-- nnue/: the value cache and the training records.
pub mod Floats
pub mod EvalCache
pub mod Record
mod Tests
