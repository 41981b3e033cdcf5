-- ===== src/Core/Tests/Launches.antt =====
-- A pass, the run of a block and a launch.
use warp_sim.Base.{
  ℕ, length, ◌⊎◌, get_or-replicate, ltb, ◌<◌, ◌+◌, ◌*◌, true, false, ◌≡◌, refl, arith, some, ◌≢◌,
  set, replicate, [], ◌∷◌, ok,
}
use warp_sim.Isa.Opcode.{tid_x, tid_y, number, opcode_info}
use warp_sim.Core.Types.{has_lane, LaneContext, special, Dim2, count}
use warp_sim.Core.Tests.{context, no_floats, exit_instruction, one_lane, memory}
use warp_sim.Core.Device.{live_mask, make_warps, LaunchStats, fresh_launch_stats, Pass, pass, value}
use warp_sim.Core.Device.Lanes.{live_mask_lane, special-linear_index}
use warp_sim.Isa.Instruction.{validate}
use warp_sim.Isa.Encoding.{decode, unpack}
use warp_sim.Asm.Program.{Program}
use warp_sim.Core.Memory.{zeroed, block_memory}
use warp_sim.Core.Warp.{Warp, new_warp, finished, resolve_stack}
use warp_sim.Core.Warp.Step.{step, exec_mask}
use warp_sim.Core.Warp.Steps.{new_warp-Partition}
use warp_sim.Core.Device.Block.{run, run_block, any_unfinished, verdict, no_progress}
use warp_sim.Core.Device.Counters.{Consistent, fresh-Consistent}
use warp_sim.Core.Device.Passes.{AllPartition, EndsWith, SoundPass, pass-SoundPass, run_complete}
use warp_sim.Core.Device.Totals.{Tally, launch-Tally}
use warp_sim.Core.Device.Progress.{verdict-progress}
use warp_sim.Core.Device.Launch.{launch}
use warp_sim.Core.Device.Memories.{StoresGlobal, launch-memory}
use warp_sim.Core.Memory.Bytes.{IsBytes}

-- The pass in which a warp of one lane executes `exit`.
abbrev one_warp : Warp
one_warp = new_warp 0 1 context

abbrev exit_stats : LaunchStats
exit_stats = record fresh_launch_stats {
  instructions_issued = 1;
  control_instructions = 1;
  active_lane_sum = 1;
  active_lane_histogram = set (replicate 33 0) 1 1;
}

abbrev exit_pass : Pass
exit_pass = record {
  warps =
      record one_warp {
        state = record one_warp.state { pc = 1; active = 0; live = 0 };
        last_exec = 1;
      }
      ∷ [];
  memory = memory;
  stats = exit_stats;
  any_runnable = true;
}

pass_exit :
    pass no_floats (exit_instruction ∷ []) (one_warp ∷ []) memory fresh_launch_stats false
    ≡ value exit_pass
unfolding pass new_warp finished step resolve_stack exec_mask
pass_exit = refl

verdict-progress_example : verdict exit_pass ≢ no_progress
verdict-progress_example =
    verdict-progress no_floats (exit_instruction ∷ []) (one_warp ∷ []) memory fresh_launch_stats
      exit_pass pass_exit

one_warp-AllPartition : AllPartition (one_warp ∷ [])
one_warp-AllPartition = (new_warp-Partition 0 1 context (omega arith), tt)

pass-SoundPass_example :
    EndsWith
      (SoundPass 0 0)
      (pass no_floats (exit_instruction ∷ []) (one_warp ∷ []) memory fresh_launch_stats false)
pass-SoundPass_example =
    pass-SoundPass no_floats (exit_instruction ∷ []) 0 0 (one_warp ∷ []) memory fresh_launch_stats
      false one_warp-AllPartition fresh-Consistent

run_exit :
    run no_floats (exit_instruction ∷ []) 1 (one_warp ∷ []) memory fresh_launch_stats
    ≡ value exit_pass
unfolding run pass new_warp finished step resolve_stack exec_mask
run_exit = refl

run_complete_example :
    (any_unfinished exit_pass.warps ≡ false)
    × AllPartition exit_pass.warps
    × Consistent 0 0 exit_pass.stats
run_complete_example =
    run_complete no_floats (exit_instruction ∷ []) 0 0 1 (one_warp ∷ []) memory fresh_launch_stats
      exit_pass one_warp-AllPartition fresh-Consistent run_exit

-- A launch of `exit` on one block of three lanes.
abbrev exit_program : Program
exit_program = record {
  entry = "main";
  params = [];
  shared_bytes = 0;
  words = 2882303761517117440 ∷ [];
  labels = [];
}

abbrev three_lanes : Dim2
three_lanes = record { x = 3; y = 1 }

abbrev three_stats : LaunchStats
three_stats = record fresh_launch_stats {
  instructions_issued = 1;
  control_instructions = 1;
  active_lane_sum = 3;
  active_lane_histogram = set (replicate 33 0) 3 1;
  blocks_executed = 1;
  warps_launched = 1;
  lanes_launched = 3;
}

launch_exit :
    (launch no_floats 1 exit_program one_lane three_lanes [] (zeroed 16)).result
    ≡ some (ok three_stats)
unfolding launch decode opcode_info number validate unpack pass new_warp finished step resolve_stack
    exec_mask zeroed run_block make_warps block_memory
launch_exit = refl

launch-Tally_example : Tally (count three_lanes) (1 * 1) three_stats
launch-Tally_example =
    launch-Tally no_floats 1 exit_program one_lane three_lanes [] (zeroed 16) three_stats
      launch_exit

-- A block of 40 lanes: warp 1 has the lanes 0 to 7.
live_mask_lane_example : has_lane (live_mask 40 1) 7 ≡ ltb (1 * 32 + 7) 40
live_mask_lane_example = live_mask_lane 40 1 7 (omega arith) (omega arith) (omega arith)

-- Lane 5 of warp 1 in a block 3 lanes wide.
abbrev wide : LaneContext
wide = record context { ntid = three_lanes; warp = 1 }

special-linear_index_example :
    (special wide tid_x 5 + special wide tid_y 5 * 3 ≡ 1 * 32 + 5) × (special wide tid_x 5 < 3)
special-linear_index_example = special-linear_index wide 5 (omega arith) (omega arith)

zeroed_16-IsBytes : IsBytes (zeroed 16).bytes
unfolding zeroed
zeroed_16-IsBytes j = omega (arith, get_or-replicate {A = ℕ} 16 j 0)

launch-memory_example :
    (length (launch no_floats 1 exit_program one_lane three_lanes [] (zeroed 16)).memory.bytes
      ≡ length (zeroed 16).bytes)
    × IsBytes (launch no_floats 1 exit_program one_lane three_lanes [] (zeroed 16)).memory.bytes
    × (((launch no_floats 1 exit_program one_lane three_lanes [] (zeroed 16)).memory ≡ zeroed 16)
        ⊎ StoresGlobal exit_program)
launch-memory_example =
    launch-memory no_floats 1 exit_program one_lane three_lanes [] (zeroed 16) zeroed_16-IsBytes
