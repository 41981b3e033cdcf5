-- ===== src/Core/Device/Launch.antt =====
-- `Device::launch` of src/core/device.cpp.
use Prim.Native.String.{◌++◌}
use warp_sim.Base.{
  ℕ, zero, suc, ◌+◌, ◌%◌, ◌^◌, ◌==◌, if◌then◌else◌, ◌||◌, Option, none, some, List, [], ◌∷◌, Result,
  ok, fail,
}
use warp_sim.Isa.Instruction.{Instruction, to_string}
use warp_sim.Isa.Encoding.{decode}
use warp_sim.Asm.Program.{Program}
use warp_sim.Core.Types.{LaneContext, Dim2, count}
use warp_sim.Core.Alu.{Binary32}
use warp_sim.Core.Memory.{ByteMemory, block_memory}
use warp_sim.Core.Memory.Analysis.{MemoryStats, add64}
use warp_sim.Core.Warp.{Fault}
use warp_sim.Core.Device.{LaunchStats, fresh_launch_stats, value, faulted, out_of_fuel, add32}
use warp_sim.Core.Device.Block.{plain_fault, run_block}

-- The decoding loop: the instructions, or a fault at the first word that is none.
unfoldable pub decode_words : ℕ → List ℕ → Result (List Instruction) Fault
decode_words pc [] = ok []
decode_words pc (w ∷ ws) = elim (decode w) [
  | fail e ↦ fail (plain_fault ("invalid instruction word: " ++ to_string e) (pc % 2 ^ 16))
  | ok i ↦ elim (decode_words (pc + 1) ws) [ ok is ↦ ok (i ∷ is) | fail f ↦ fail f ]
]

-- The totals of one block's memory.
unfoldable pub add_memory : MemoryStats → MemoryStats → MemoryStats
add_memory t m = record {
  global_loads = add64 t.global_loads m.global_loads;
  global_stores = add64 t.global_stores m.global_stores;
  global_lane_accesses = add64 t.global_lane_accesses m.global_lane_accesses;
  global_segments = add64 t.global_segments m.global_segments;
  shared_accesses = add64 t.shared_accesses m.shared_accesses;
  shared_lane_accesses = add64 t.shared_lane_accesses m.shared_lane_accesses;
  shared_wavefronts = add64 t.shared_wavefronts m.shared_wavefronts;
  shared_conflicted_accesses = add64 t.shared_conflicted_accesses m.shared_conflicted_accesses;
}

-- What a launch leaves: the device's memory and the totals or the first fault; no result when the
-- fuel of a block ran out.
pub record Launched : Type 0 where
  pub memory : ByteMemory
  pub result : Option (Result LaunchStats Fault)

-- What the blocks so far have left, or where the launch stopped.
pub data Blocks : Type 0 where
  going : ByteMemory → LaunchStats → Blocks
  stopped : Launched → Blocks

module _ (fp : Binary32) (fuel : ℕ) (program : List Instruction) (shared_bytes : ℕ)
    (params : List ℕ) (grid block : Dim2) where
  -- One block: its own shared memory and analyzer, the device's global memory. Out of fuel has no
  -- counterpart in the code; by convention the memory is then the one before the block.
  unfoldable pub run_one : ℕ → ℕ → ByteMemory → LaunchStats → Blocks
  unfolding run_block add_memory count
  run_one bx by g s =
      let context : LaneContext = record {
        ntid = block;
        nctaid = grid;
        ctaid = record { x = bx; y = by };
        warp = 0;
      } in
      elim (run_block fp program fuel (block_memory g shared_bytes params) context (count block)
        s) [
          | out_of_fuel ↦ stopped (record { memory = g; result = none })
          | faulted f m ↦ stopped (record { memory = m.global_memory; result = some (fail f) })
          | value (m, t) ↦ going m.global_memory (record t {
            blocks_executed = add32 t.blocks_executed 1;
            lanes_launched = add32 t.lanes_launched (count block);
            memory = add_memory t.memory m.stats;
          })
        ]

  -- The loops over `bx` and `by`.
  unfoldable pub run_row : ℕ → ℕ → ℕ → Blocks → Blocks
  unfolding run_one
  run_row rounds bx by (stopped l) = stopped l
  run_row zero bx by (going g s) = going g s
  run_row (suc rounds) bx by (going g s) = run_row rounds (bx + 1) by (run_one bx by g s)

  unfoldable pub run_grid : ℕ → ℕ → Blocks → Blocks
  unfolding run_row
  run_grid zero by b = b
  run_grid (suc rounds) by b = run_grid rounds (by + 1) (run_row grid.x 0 by b)

unfoldable pub finish : Blocks → Launched
finish (going g s) = record { memory = g; result = some (ok s) }
finish (stopped l) = l

-- `Device::launch`
unfoldable pub launch : Binary32 → ℕ → Program → Dim2 → Dim2 → List ℕ → ByteMemory → Launched
unfolding decode_words run_grid finish count
launch fp fuel program grid block params g = elim (decode_words 0 program.words) [
  | fail f ↦ record { memory = g; result = some (fail f) }
  | ok decoded ↦
      if count block == 0 || count grid == 0
      then record { memory = g; result = some (fail (plain_fault "empty grid or block" 0)) }
      else finish (
          run_grid fp fuel decoded program.shared_bytes params grid block grid.y 0
            (going g fresh_launch_stats))
]
