-- ===== src/Asm/Roundtrip.antt =====
-- What src/asm/disassembler.cpp prints for an instruction, read by src/asm/lexer.cpp and
-- src/asm/assembler.cpp.
pub mod Texts
pub mod Numerals
pub mod Steps
pub mod Addresses
pub mod Operands
pub mod Immediates
pub mod Names
pub mod Guards
pub mod Shapes
pub mod Operations
pub mod Statements
pub mod Starts
pub mod Lines
