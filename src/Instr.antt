-- ===== src/Instr.antt =====
-- The instrumentation of src/instr and include/warpsim/instr.
pub mod Timing
mod Tests
