-- ===== src/Lib.antt =====
-- warp-sim: a functional simulator of a SIMT processor (a 32-lane warp machine with its own
-- instruction set WISA). This library models the instruction set and the core of the simulator, from
-- the C++ of include/warpsim and src, and proves what they promise.
--
-- The parts and how they interact. The lexer splits a source into tokens, which the parser turns
-- into words; it then resolves the labels of branches and runs the reconvergence analysis on the
-- decoded words. The reconvergence analysis divides a program into basic blocks, finds the post-
-- dominators of each and writes into every guarded branch where its lanes meet again. An assembled
-- program is a list of 64-bit words. `Device::launch` decodes the words, then runs the blocks of the
-- grid one after the other. For a block it makes the warps and the block's memory, and issues the
-- warps round robin; each issue is one `Warp::step`. A step settles the divergence stack, applies
-- the guard, and executes a branch, an exit, a barrier, a memory access through the memory port, or
-- an ALU operation in every lane that executes. The memory feeds an analyzer that counts segments
-- and bank conflicts. The Python extension wraps all this: it copies arrays into and out of a device's
-- memory, launches, and turns errors into exceptions; a session is a sequence of such calls.
--
-- Where the code is modelled:
--   Isa/Opcode        include/warpsim/isa/opcode.hpp: opcodes, shapes, special registers, tables
--   Isa/Instruction   include/warpsim/isa/instruction.hpp and `validate` of src/isa/instruction.cpp
--   Isa/Encoding      `encode`, `decode` of src/isa/instruction.cpp
--   Asm/Program       include/warpsim/asm/program.hpp
--   Asm/Lexer         src/asm/lexer.cpp, src/asm/lexer.hpp, include/warpsim/asm/error.hpp
--   Asm/Numbers       `parse_number`, `register_index`, `integer_literal` of src/asm/assembler.cpp
--   Asm/Operands      the operand parsers of `Parser` in the same file, as steps on a cursor
--   Asm/Assembler     directives, statements, the passes after parsing and `assemble` of the same file
--   Asm/Printing      numbers and registers as text in src/asm/disassembler.cpp
--   Asm/Disassembler  the rest of that file, and include/warpsim/asm/disassembler.hpp
--   Asm/BlockSet      `BlockSet` of src/asm/reconvergence.cpp
--   Asm/Cfg           `build_cfg` of the same file, `ReconvergenceError` of its header; Asm/Cfg/Graph and
--                     Asm/Cfg/Leaders state the graph of docs/wisa-spec.md section 8.1
--   Asm/Dominators    `post_dominators` and `immediate_post_dominator` of the same file
--   Asm/Annotate      `annotate_reconvergence` of the same file
--   Core/Types        include/warpsim/core/types.hpp, lane_context.hpp: masks, dimensions, contexts
--   Core/Registers    include/warpsim/core/register_file.hpp
--   Core/Signed       `as_s32`, `from_s32` of src/core/alu.cpp and C++'s signed division
--   Core/Alu          src/core/alu.cpp
--   Core/Memory       src/core/memory.cpp, include/warpsim/core/memory.hpp, memory_port.hpp
--   Core/Memory/Analysis  src/core/memory_analysis.cpp, include/warpsim/core/memory_stats.hpp
--   Core/Warp, Core/Warp/Step  src/core/warp.cpp, include/warpsim/core/warp.hpp, warp_state.hpp, fault.hpp
--   Core/Device       the counters and one pass of `run_block` in src/core/device.cpp
--   Core/Device/Block, Core/Device/Launch  the rest of `run_block`, and `Device::launch`
--   Instr/Timing      src/instr/timing.cpp, include/warpsim/instr/timing.hpp
--   Python/Report     `stats_to_dict`, the exceptions and their translator in python/bindings/module.cpp,
--                     `Fault::describe` of src/core/warp.cpp
--   Python/Bindings   the functions and the classes `Program` and `Device` of python/bindings/module.cpp
-- Asm/Roundtrip relates the printer, the lexer and the parser: a text is read as tokens that are given
-- but for their places, and a parser's step uses such tokens up. The other modules of these
-- directories hold proofs, and Tests modules hold concrete runs. Base has the shared notation, results,
-- tests and lists; Bits has the lemmas on bit operations.
--
-- How state and operations correspond. A machine integer is a natural number with its wrap-around
-- written out. A class is a record, a mutating method a function to the new record; a method that
-- can fail returns a Result. The back of the divergence stack's vector is the head of a list. The
-- memory port is a record of operations on a state of its own, and `block_port` is the port that the
-- device gives its warps. A fault keeps what the access did in the lanes before it.
--
-- Fuel. `resolve_stack` has 2 * (stack depth) + 1 rounds and the loop at the head of `Warp::step`
-- has 2 * (stack depth) + 2: each round lowers a weight of the stack, and both are proved to be
-- enough. The loop of `post_dominators` has one pass more than the sets have elements, since every
-- pass but the last takes an element out, the lexer has one round more than the source has
-- characters, and the parser has as many as there are tokens. The loop of `run_block` has a fuel
-- that the caller chooses, since a kernel may run for ever; if it runs out, a launch gives no result and,
-- by convention, the memory as it was before the block.
--
-- Undefined behaviour. `Device.write` and `Device.read` index `bytes()` at the offset; the model has the
-- outcome `undefined_index` where the offset is not below the size, and says nothing of what follows.
--
-- Parameters. The binary32 operations of the processor and of <cmath> are the record Binary32, of
-- which nothing is assumed. `std::from_chars` for a float literal is the function parse_float, of
-- which nothing is assumed either; `std::to_chars` for a float is the function float_text, likewise.
-- `std::memcpy` of a word is little-endian, as on the hosts the project builds for.
--
-- NumPy is the record Numpy: which dtypes there are and which arrays it makes; that an array holds as
-- many bytes as its elements need and less than 2 ^ 63 is a named hypothesis where it is used.
--
-- Not modelled: the version string, the Python scripts, and the glue of pybind11 around the bindings.
-- `InvalidOpcode` of `validate` cannot be reached in the model, where an opcode is always one of the
-- enumerators. The assertions of `check_invariants` are a test that is proved to hold.
pub mod Base
pub mod Bits
pub mod Isa
pub mod Asm
pub mod Core
pub mod Instr
pub mod Python
