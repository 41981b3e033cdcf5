-- ===== src/Instr/Timing.antt =====
-- src/instr/timing.cpp and include/warpsim/instr/timing.hpp: the cost of a launch in ordinal units, on
-- 64-bit counters, and the ranking that it gives.
use warp_sim.Base.{ℕ, ◌+◌, ◌-◌, ◌*◌, ◌%◌, ◌^◌, ◌<◌, ◌≤◌, ◌≡◌, arith, subst}
use warp_sim.Core.Device.{LaunchStats}

pub record CostModel : Type 0 where
  pub issue_slot : ℕ
  pub global_segment : ℕ
  pub shared_wavefront : ℕ

-- The member initialisers of `CostModel`.
abbrev pub default_model : CostModel
default_model = record { issue_slot = 1; global_segment = 8; shared_wavefront = 1 }

pub record CostBreakdown : Type 0 where
  pub issue : ℕ
  pub global : ℕ
  pub shared : ℕ
  pub total : ℕ

unfoldable pub estimate : LaunchStats → CostModel → CostBreakdown
estimate stats model =
    let issue = stats.instructions_issued * model.issue_slot % 2 ^ 64 in
    let global = stats.memory.global_segments * model.global_segment % 2 ^ 64 in
    let shared = stats.memory.shared_wavefronts * model.shared_wavefront % 2 ^ 64 in
    record {
      issue = issue;
      global = global;
      shared = shared;
      total = ((issue + global) % 2 ^ 64 + shared) % 2 ^ 64;
    }

-- The cost without the wrap-around of the counters.
abbrev pub exact_cost : LaunchStats → CostModel → ℕ
exact_cost stats model =
    stats.instructions_issued * model.issue_slot
    + stats.memory.global_segments * model.global_segment
    + stats.memory.shared_wavefronts * model.shared_wavefront

-- If the exact cost fits 64 bits, it is the total of the estimate, and the parts add up to the total.
pub estimate-exact_cost :
    (s : LaunchStats) (m : CostModel)
    → exact_cost s m < 2 ^ 64
    → ((estimate s m).total ≡ exact_cost s m)
      × ((estimate s m).issue + (estimate s m).global + (estimate s m).shared
          ≡ (estimate s m).total)
unfolding estimate
estimate-exact_cost s m h = (omega (arith, h), omega (arith, h))

scaled_less : (a more k : ℕ) → 1 ≤ k → a * k < (a + 1 + more) * k
scaled_less a more k positive = omega (arith, positive)

-- Of two launches with the same issues and shared wavefronts, the one that touches fewer global segments
-- has the smaller total, for every model that charges a segment at all, if the exact cost of the other
-- fits 64 bits.
pub estimate_ranking :
    (s t : LaunchStats) (m : CostModel)
    → s.instructions_issued ≡ t.instructions_issued
    → s.memory.shared_wavefronts ≡ t.memory.shared_wavefronts
    → s.memory.global_segments < t.memory.global_segments
    → 1 ≤ m.global_segment
    → exact_cost t m < 2 ^ 64
    → (estimate s m).total < (estimate t m).total
estimate_ranking s t m issues wavefronts fewer charged fits =
    let segments : s.memory.global_segments * m.global_segment
        < t.memory.global_segments * m.global_segment =
      subst (λ n. s.memory.global_segments * m.global_segment < n * m.global_segment)
        (omega (arith, fewer))
        (scaled_less s.memory.global_segments
          (t.memory.global_segments - s.memory.global_segments - 1) m.global_segment charged) in
    let less : exact_cost s m < exact_cost t m =
      rw (issues, wavefronts) (omega (arith, segments)) in
    let (es, ps) = estimate-exact_cost s m (omega (arith, less, fits)) in
    let (et, pt) = estimate-exact_cost t m fits in omega (arith, es, et, less)
