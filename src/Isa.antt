-- ===== src/Isa.antt =====
-- The instruction set: include/warpsim/isa and src/isa.
pub mod Opcode
pub mod Instruction
pub mod Encoding
pub mod Table
pub mod Validity
pub mod Packing
pub mod Roundtrip
pub mod Branch
mod Tests
