-- ===== src/Core/Device.antt =====
-- src/core/device.cpp and device.hpp: the launch of a grid. Blocks run one after the other; the warps
-- of a block are issued round robin. The scheduler's loop takes fuel, since a kernel may loop for ever:
-- `none` means that the fuel ran out. Counters wrap at their widths.
pub mod Block
pub mod Counters
pub mod Progress
pub mod Passes
pub mod Totals
pub mod Lanes
pub mod Launch
pub mod Frames
pub mod Memories
use warp_sim.Base.{
  ℕ, zero, suc, ◌+◌, ◌-◌, ◌*◌, ◌%◌, ◌^◌, ltb, ◌==◌, if◌then◌else◌, Bool, not, ◌||◌, none, some,
  List, [], ◌∷◌, get_or, set, replicate, ok, fail,
}
use warp_sim.Isa.Opcode.{Opcode}
use warp_sim.Isa.Instruction.{Instruction}
use warp_sim.Core.Types.{LaneMask, LaneContext, lane_bit, lane_count, full_mask}
use warp_sim.Core.Alu.{Binary32}
use warp_sim.Core.Memory.{BlockMemory, block_port}
use warp_sim.Core.Memory.Analysis.{MemoryStats, fresh_stats, add64}
use warp_sim.Core.Warp.{Warp, Fault, new_warp, finished}
use warp_sim.Core.Warp.Step.{StepOutcome, issued, barrier, done, step}

pub record LaunchStats : Type 0 where
  pub instructions_issued : ℕ
  pub alu_instructions : ℕ
  pub memory_instructions : ℕ
  pub control_instructions : ℕ
  pub barrier_instructions : ℕ
  pub divergent_branches : ℕ
  pub reconvergence_events : ℕ
  pub barriers_completed : ℕ
  pub active_lane_sum : ℕ
  pub active_lane_histogram : List ℕ
  pub blocks_executed : ℕ
  pub warps_launched : ℕ
  pub lanes_launched : ℕ
  pub memory : MemoryStats

abbrev pub fresh_launch_stats : LaunchStats
fresh_launch_stats = record {
  instructions_issued = 0;
  alu_instructions = 0;
  memory_instructions = 0;
  control_instructions = 0;
  barrier_instructions = 0;
  divergent_branches = 0;
  reconvergence_events = 0;
  barriers_completed = 0;
  active_lane_sum = 0;
  active_lane_histogram = replicate 33 0;
  blocks_executed = 0;
  warps_launched = 0;
  lanes_launched = 0;
  memory = fresh_stats;
}

-- Addition on a `std::uint32_t` counter.
abbrev pub add32 : ℕ → ℕ → ℕ
add32 a b = (a + b) % 2 ^ 32

-- The live mask of warp w in a block of the given size, in the arithmetic of `std::uint32_t`.
unfoldable pub live_mask : ℕ → ℕ → LaneMask
unfolding lane_bit
live_mask lanes_in_block w =
    let left = (lanes_in_block + 2 ^ 32 - w * 32 % 2 ^ 32) % 2 ^ 32 in
    let in_warp = if ltb left 32 then left else 32 in
    if in_warp == 32 then full_mask else lane_bit in_warp - 1

-- The warps w, w + 1, …, as the first loop of `run_block` makes them.
unfoldable pub make_warps : ℕ → ℕ → ℕ → LaneContext → List Warp
unfolding live_mask
make_warps zero w lanes_in_block base = []
make_warps (suc rounds) w lanes_in_block base =
    new_warp w (live_mask lanes_in_block w) (record base { warp = w })
    ∷ make_warps rounds (w + 1) lanes_in_block base

-- The counter of the class of an opcode.
unfoldable pub count_class : Opcode → LaunchStats → LaunchStats
count_class Opcode.bra s = record s { control_instructions = add64 s.control_instructions 1 }
count_class Opcode.exit s = record s { control_instructions = add64 s.control_instructions 1 }
count_class Opcode.bar_sync s = record s { barrier_instructions = add64 s.barrier_instructions 1 }
count_class Opcode.ld_global s = record s { memory_instructions = add64 s.memory_instructions 1 }
count_class Opcode.st_global s = record s { memory_instructions = add64 s.memory_instructions 1 }
count_class Opcode.ld_shared s = record s { memory_instructions = add64 s.memory_instructions 1 }
count_class Opcode.st_shared s = record s { memory_instructions = add64 s.memory_instructions 1 }
count_class Opcode.ld_param s = record s { memory_instructions = add64 s.memory_instructions 1 }
count_class _ s = record s { alu_instructions = add64 s.alu_instructions 1 }

-- What the scheduler counts of one issue.
unfoldable pub count_issue : Warp → LaunchStats → LaunchStats
unfolding count_class lane_count
count_issue w s =
    let lanes = lane_count w.last_exec in
    let h = s.active_lane_histogram in
    count_class w.last_opcode (record s {
      instructions_issued = add64 s.instructions_issued 1;
      active_lane_sum = add64 s.active_lane_sum lanes;
      active_lane_histogram = set h lanes (add64 (get_or h lanes 0) 1);
    })

-- What a pass over the warps carries: the warps already passed are in `passed`, in order.
pub record Pass : Type 0 where
  pub warps : List Warp
  pub memory : BlockMemory
  pub stats : LaunchStats
  pub any_runnable : Bool

unfoldable pub is_waiting : Warp → Bool
unfolding finished
is_waiting w = finished w.state || w.state.parked

unfoldable pub count_outcome : StepOutcome → Warp → LaunchStats → LaunchStats
unfolding count_issue
count_outcome done w s = s
count_outcome issued w s = count_issue w s
count_outcome barrier w s = count_issue w s

-- How a pass or a block ends: with a value, with a fault (and the memory as it then is), or out of fuel.
pub data Ended (A : Type 0) : Type 0 where
  value : A → Ended A
  faulted : Fault → BlockMemory → Ended A
  out_of_fuel : Ended A

unfoldable pub prepend : Warp → Ended Pass → Ended Pass
prepend w (value p) = value (record p { warps = w ∷ p.warps })
prepend w (faulted f m) = faulted f m
prepend w out_of_fuel = out_of_fuel

module _ (fp : Binary32) (program : List Instruction) where
  -- One step of one runnable warp.
  unfoldable pub step_warp :
      Warp → BlockMemory → LaunchStats → Ended (Warp × BlockMemory × LaunchStats)
  step_warp w m s = elim (step fp block_port program w m) [
    | none ↦ out_of_fuel
    | some r ↦ elim r.outcome [
      | fail f ↦ faulted f r.memory
      | ok o ↦ value (r.warp, r.memory, count_outcome o r.warp s)
    ]
  ]

  -- The turn of one warp: a warp that has finished or is parked is passed over.
  unfoldable pub turn : Warp → BlockMemory → LaunchStats → Ended (Warp × BlockMemory × LaunchStats)
  unfolding is_waiting step_warp count_outcome
  turn w m s = if is_waiting w then value (w, m, s) else step_warp w m s

  -- The `for` loop over the warps: each runnable warp issues one instruction.
  unfoldable pub pass : List Warp → BlockMemory → LaunchStats → Bool → Ended Pass
  unfolding turn prepend
  pass [] m s any = value (record { warps = []; memory = m; stats = s; any_runnable = any })
  pass (w ∷ ws) m s any = elim (turn w m s) [
    | value (w', m', s') ↦ prepend w' (pass ws m' s' (any || not (is_waiting w)))
    | faulted f m' ↦ faulted f m'
    | out_of_fuel ↦ out_of_fuel
  ]
