-- ===== src/Core.antt =====
-- The SIMT core and the memory system: include/warpsim/core and src/core.
pub mod Types
pub mod Signed
pub mod Registers
pub mod Alu
pub mod Memory
pub mod Warp
pub mod Device
pub mod Tests
