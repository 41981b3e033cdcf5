-- ===== src/Core/Device/Block.antt =====
-- `run_block` of src/core/device.cpp: passes over the warps until every warp has finished.
use warp_sim.Base.{
  ℕ, zero, suc, ◌+◌, ◌-◌, ◌/◌, ◌%◌, ◌^◌, String, if◌then◌else◌, Bool, true, false, not, ◌&&◌, ◌||◌,
  List, [], ◌∷◌, map,
}
use warp_sim.Isa.Instruction.{Instruction}
use warp_sim.Core.Types.{LaneContext}
use warp_sim.Core.Alu.{Binary32}
use warp_sim.Core.Memory.{BlockMemory}
use warp_sim.Core.Memory.Analysis.{add64}
use warp_sim.Core.Warp.{Warp, Fault, finished}
use warp_sim.Core.Device.{
  LaunchStats, Pass, Ended, value, faulted, out_of_fuel, pass, make_warps, add32,
}

-- The two flags of the barrier check.
unfoldable pub any_unfinished : List Warp → Bool
any_unfinished [] = false
any_unfinished (w ∷ ws) = not (finished w.state) || any_unfinished ws

unfoldable pub all_parked : List Warp → Bool
all_parked [] = true
all_parked (w ∷ ws) = (finished w.state || w.state.parked) && all_parked ws

-- What the loop does after a pass.
pub data Verdict : Type 0 where
  complete release no_progress next_pass : Verdict

unfoldable pub verdict : Pass → Verdict
unfolding any_unfinished all_parked
verdict p =
    if not (any_unfinished p.warps)
    then complete
    else if all_parked p.warps
    then release
    else if not p.any_runnable
    then no_progress
    else next_pass

unfoldable pub unpark : Warp → Warp
unpark w = record w { state = record w.state { parked = false } }

-- `Fault{.message = …}`: every other field is zero.
abbrev pub plain_fault : String → ℕ → Fault
plain_fault message pc = record {
  message = message;
  block = 0;
  warp = 0;
  lane = 0;
  pc = pc;
  address = 0;
}

-- The totals of the warps, added when the block has ended.
unfoldable pub add_warps : List Warp → LaunchStats → LaunchStats
add_warps [] s = s
add_warps (w ∷ ws) s = add_warps ws (record s {
  divergent_branches = add64 s.divergent_branches w.divergent;
  reconvergence_events = add64 s.reconvergence_events w.reconverged;
})

module _ (fp : Binary32) (program : List Instruction) where
  -- The `while (true)` loop.
  unfoldable pub run : ℕ → List Warp → BlockMemory → LaunchStats → Ended Pass
  unfolding verdict unpark
  run zero ws m s = out_of_fuel
  run (suc fuel) ws m s = elim (pass fp program ws m s false) [
    | out_of_fuel ↦ out_of_fuel
    | faulted f m' ↦ faulted f m'
    | value p ↦ elim (verdict p) [
      | complete ↦ value p
      | release ↦
          run fuel (map unpark p.warps) p.memory
            (record p.stats { barriers_completed = add64 p.stats.barriers_completed 1 })
      | no_progress ↦ faulted (plain_fault "scheduler made no progress" 0) p.memory
      | next_pass ↦ run fuel p.warps p.memory p.stats
    ]
  ]

  unfoldable pub run_block :
      ℕ → BlockMemory → LaneContext → ℕ → LaunchStats → Ended (BlockMemory × LaunchStats)
  unfolding run add_warps
  run_block fuel m base lanes s =
      let warp_count = ((lanes + 32) % 2 ^ 32 + 2 ^ 32 - 1) % 2 ^ 32 / 32 in
      let launched = record s { warps_launched = add32 s.warps_launched warp_count } in
      elim (run fuel (make_warps warp_count 0 lanes base) m launched) [
        | out_of_fuel ↦ out_of_fuel
        | faulted f m' ↦ faulted f m'
        | value p ↦ value (p.memory, add_warps p.warps p.stats)
      ]
