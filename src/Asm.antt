-- ===== src/Asm.antt =====
-- The assembler's side: include/warpsim/asm and src/asm.
pub mod Program
pub mod Lexer
pub mod BlockSet
pub mod Cfg
pub mod Dominators
pub mod Annotate
pub mod Numbers
pub mod Operands
pub mod Assembler
pub mod Printing
pub mod Disassembler
pub mod Roundtrip
mod Tests
