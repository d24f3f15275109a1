-- ===== src/Usi.antt =====
-- The clock of the USI engine, usi/time_manager.cc.
pub mod Floats
pub mod TimeManager
pub mod TimeController
mod Tests
