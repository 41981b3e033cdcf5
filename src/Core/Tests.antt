-- ===== src/Core/Tests.antt =====
-- Concrete values for the tests of the core.
mod Warps
mod Launches
mod Words
use warp_sim.Base.{true, false, ◌==◌, [], ◌∷◌}
use warp_sim.Isa.Opcode.{Opcode}
use warp_sim.Isa.Instruction.{Guard, Instruction}
use warp_sim.Core.Types.{LaneContext, Dim2}
use warp_sim.Core.Registers.{fresh}
use warp_sim.Core.Alu.{Binary32}
use warp_sim.Core.Memory.{zeroed, BlockMemory, block_memory}
use warp_sim.Core.Warp.{Warp}
use warp_sim.Core.Signed.{pos}

-- An arithmetic in which every operation gives the pattern 0: the tests run no binary32 operation.
abbrev pub no_floats : Binary32
no_floats = record {
  add = λ a b. 0;
  sub = λ a b. 0;
  mul = λ a b. 0;
  fma = λ a b c. 0;
  fmin = λ a b. 0;
  fmax = λ a b. 0;
  eq = λ a b. a == b;
  lt = λ a b. false;
  le = λ a b. a == b;
  is_nan = λ a. false;
  from_int = λ a. 0;
  to_int = λ a. pos 0;
}

abbrev no_guard : Guard
no_guard = record { present = false; negate = false; pred = 0 }

-- `exit`
abbrev pub exit_instruction : Instruction
exit_instruction = record {
  opcode = Opcode.exit;
  guard = no_guard;
  dst = 0;
  src0 = 0;
  src1 = 0;
  imm_flag = false;
  imm = 0;
}

-- `add r1, r2, 5`
abbrev pub add_instruction : Instruction
add_instruction = record {
  opcode = Opcode.add;
  guard = no_guard;
  dst = 1;
  src0 = 2;
  src1 = 0;
  imm_flag = true;
  imm = 5;
}

-- `@p0 add r1, r2, 5`
abbrev pub guarded_instruction : Instruction
guarded_instruction = record add_instruction {
  guard = record { present = true; negate = false; pred = 0 };
}

abbrev pub one_lane : Dim2
one_lane = record { x = 1; y = 1 }

abbrev pub context : LaneContext
context = record { ntid = one_lane; nctaid = one_lane; ctaid = record { x = 0; y = 0 }; warp = 0 }

-- A warp in which lanes 0 and 1 run at the end of the program, and lanes 2 and 3 are deferred to pc 0.
abbrev pub diverged : Warp
diverged = record {
  state = record {
    pc = 1;
    active = 3;
    live = 15;
    stack = record { reconvergence_pc = 65535; resume_pc = 0; mask = 12 } ∷ [];
    registers = fresh;
    warp_id = 0;
    parked = false;
  };
  context = context;
  last_exec = 0;
  divergent = 1;
  reconverged = 0;
  last_opcode = Opcode.exit;
}

abbrev pub memory : BlockMemory
memory = block_memory (zeroed 16) 0 []
