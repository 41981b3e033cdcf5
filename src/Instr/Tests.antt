-- ===== src/Instr/Tests.antt =====
-- Two launches that differ in their global segments.
use warp_sim.Base.{ℕ, ◌<◌, ◌≡◌, ◌+◌, refl, arith}
use warp_sim.Core.Device.{LaunchStats, fresh_launch_stats}
use warp_sim.Core.Memory.Analysis.{fresh_stats}
use warp_sim.Instr.Timing.{
  default_model, estimate, exact_cost, estimate-exact_cost, estimate_ranking,
}

abbrev with_segments : ℕ → LaunchStats
with_segments n = record fresh_launch_stats {
  instructions_issued = 10;
  memory = record fresh_stats { global_segments = n; shared_wavefronts = 4 };
}

estimate_ranking_example :
    (estimate (with_segments 1) default_model).total
    < (estimate (with_segments 32) default_model).total
estimate_ranking_example =
    estimate_ranking (with_segments 1) (with_segments 32) default_model refl refl (omega arith)
      (omega arith) (omega arith)

estimate-exact_cost_example :
    ((estimate (with_segments 3) default_model).total ≡ exact_cost (with_segments 3) default_model)
    × ((estimate (with_segments 3) default_model).issue
          + (estimate (with_segments 3) default_model).global
          + (estimate (with_segments 3) default_model).shared
        ≡ (estimate (with_segments 3) default_model).total)
estimate-exact_cost_example = estimate-exact_cost (with_segments 3) default_model (omega arith)
