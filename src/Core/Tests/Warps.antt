-- ===== src/Core/Tests/Warps.antt =====
-- A warp that diverges, step by step.
use warp_sim.Base.{ℕ, ◌+◌, true, false, ◌≡◌, refl, arith, some, zero, suc, ◌&&◌, ◌||◌, [], ◌∷◌, ok}
use warp_sim.Core.Registers.{fresh, read_pred}
use warp_sim.Core.Memory.{BlockMemory, block_port}
use warp_sim.Core.Warp.{Warp, finished, check_invariants, resolve_stack}
use warp_sim.Core.Warp.Step.{step, Stepped, exec_mask, differs, done}
use warp_sim.Core.Types.{has_lane}
use warp_sim.Core.Warp.Masks.{exec_mask_lane}
use warp_sim.Core.Warp.Partition.{Partition, occurrences}
use warp_sim.Core.Warp.Steps.{step-Partition, step_done}
use warp_sim.Bits.{bit, bit-zero}
use warp_sim.Core.Tests.{no_floats, exit_instruction, guarded_instruction, diverged, memory}

four_lanes : (l : ℕ) → bit 3 l + (bit 12 l + 0) ≡ bit 15 l
unfolding bit
four_lanes zero = refl
four_lanes (suc zero) = refl
four_lanes (suc (suc zero)) = refl
four_lanes (suc (suc (suc zero))) = refl
four_lanes (suc (suc (suc (suc l)))) = omega (arith, bit-zero l)

diverged-Partition : Partition diverged.state
diverged-Partition = record {
  active_fits = omega arith;
  live_fits = omega arith;
  stack_fits = (omega arith, tt);
  lanes = λ l lt. unfold occurrences in four_lanes l;
}

step-Partition_example :
    (r : Stepped BlockMemory) × (step no_floats block_port (exit_instruction ∷ []) diverged memory
      ≡ some r)
    × Partition r.warp.state
    × (check_invariants r.warp.state ≡ true)
step-Partition_example =
    step-Partition no_floats block_port (exit_instruction ∷ []) diverged memory diverged-Partition

-- The warp once every lane has fallen off the end of an empty program.
abbrev drained_warp : Warp
drained_warp = record diverged {
  state = record diverged.state { pc = 0; active = 0; live = 0; stack = [] };
}

abbrev drained_step : Stepped BlockMemory
drained_step = record { warp = drained_warp; memory = memory; outcome = ok done }

step_drained : step no_floats block_port [] diverged memory ≡ some drained_step
unfolding step resolve_stack
step_drained = refl

step_done_example : finished drained_warp.state ≡ true
step_done_example =
    step_done no_floats block_port [] diverged memory drained_step diverged-Partition step_drained
      refl

exec_mask_lane_example :
    has_lane (exec_mask guarded_instruction diverged.state) 2
    ≡ (has_lane 3 2 && (false || differs (read_pred fresh 2 0) false))
exec_mask_lane_example = exec_mask_lane guarded_instruction diverged.state 2 (omega arith)
