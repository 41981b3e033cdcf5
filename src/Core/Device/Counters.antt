-- ===== src/Core/Device/Counters.antt =====
-- The counters of src/core/device.cpp agree with each other: issues, their classes, and the histogram
-- of active lanes, all modulo 2 ^ 64, the width of the counters.
use warp_sim.Base.{
  ℕ, zero, suc, ◌+◌, ◌%◌, ◌^◌, ◌<◌, ◌≡◌, refl, ap, arith, List, [], ◌∷◌, length, get_or, set,
  length-set, ◌∙◌,
}
use warp_sim.Isa.Opcode.{Opcode}
use warp_sim.Core.Types.{lane_count}
use warp_sim.Core.Types.Masks.{lane_count-le}
use warp_sim.Core.Memory.Analysis.{add64}
use warp_sim.Core.Warp.{Warp}
use warp_sim.Core.Device.{LaunchStats, fresh_launch_stats, count_class, count_issue}

-- The sum of the entries of a histogram.
unfoldable pub total : List ℕ → ℕ
total [] = 0
total (x ∷ xs) = x + total xs

-- The sum of the entries, each times its index.
unfoldable pub weighted : List ℕ → ℕ
unfolding total
weighted [] = 0
weighted (x ∷ xs) = weighted xs + total xs

total-set :
    (h : List ℕ) (i : ℕ)
    → i < length h
    → total (set h i (add64 (get_or h i 0) 1)) % 2 ^ 64 ≡ (total h + 1) % 2 ^ 64
unfolding total
total-set [] i lt = omega (arith, lt)
total-set (x ∷ xs) zero lt = omega arith
total-set (x ∷ xs) (suc i) lt = omega (arith, total-set xs i (omega (arith, lt)))

weighted-set :
    (h : List ℕ) (i : ℕ)
    → i < length h
    → weighted (set h i (add64 (get_or h i 0) 1)) % 2 ^ 64 ≡ (weighted h + i) % 2 ^ 64
unfolding weighted
weighted-set [] i lt = omega (arith, lt)
weighted-set (x ∷ xs) zero lt = omega arith
weighted-set (x ∷ xs) (suc i) lt =
    omega (arith, weighted-set xs i (omega (arith, lt)), total-set xs i (omega (arith, lt)))

-- The counters agree: every issue is of one class and stands in the histogram under its lanes;
-- so many blocks were executed, with so many lanes.
pub record Consistent (blocks launched : ℕ) (s : LaunchStats) : Type 0 where
  pub classes :
      (s.alu_instructions + s.memory_instructions + s.control_instructions + s.barrier_instructions)
        % 2 ^ 64
      ≡ s.instructions_issued % 2 ^ 64
  pub entries : length s.active_lane_histogram ≡ 33
  pub issues : total s.active_lane_histogram % 2 ^ 64 ≡ s.instructions_issued % 2 ^ 64
  pub blocks_are : s.blocks_executed ≡ blocks
  pub lanes_are : s.lanes_launched ≡ launched
  pub lane_sum : weighted s.active_lane_histogram % 2 ^ 64 ≡ s.active_lane_sum % 2 ^ 64

-- The sum of the four class counters.
abbrev classes_sum : LaunchStats → ℕ
classes_sum s =
    s.alu_instructions + s.memory_instructions + s.control_instructions + s.barrier_instructions

count_class-sum :
    (op : Opcode) (s : LaunchStats)
    → classes_sum (count_class op s) % 2 ^ 64 ≡ (classes_sum s + 1) % 2 ^ 64
unfolding count_class
count_class-sum Opcode.bra s = omega arith
count_class-sum Opcode.exit s = omega arith
count_class-sum Opcode.bar_sync s = omega arith
count_class-sum Opcode.ld_global s = omega arith
count_class-sum Opcode.st_global s = omega arith
count_class-sum Opcode.ld_shared s = omega arith
count_class-sum Opcode.st_shared s = omega arith
count_class-sum Opcode.ld_param s = omega arith
count_class-sum _ s = omega arith

-- The other counters that `Consistent` reads.
count_class-rest :
    (op : Opcode) (s : LaunchStats)
    → ((count_class op s).instructions_issued ≡ s.instructions_issued)
      × ((count_class op s).active_lane_sum ≡ s.active_lane_sum)
      × ((count_class op s).active_lane_histogram ≡ s.active_lane_histogram)
      × ((count_class op s).blocks_executed ≡ s.blocks_executed)
      × ((count_class op s).lanes_launched ≡ s.lanes_launched)
unfolding count_class
count_class-rest Opcode.bra s = (refl, refl, refl, refl, refl)
count_class-rest Opcode.exit s = (refl, refl, refl, refl, refl)
count_class-rest Opcode.bar_sync s = (refl, refl, refl, refl, refl)
count_class-rest Opcode.ld_global s = (refl, refl, refl, refl, refl)
count_class-rest Opcode.st_global s = (refl, refl, refl, refl, refl)
count_class-rest Opcode.ld_shared s = (refl, refl, refl, refl, refl)
count_class-rest Opcode.st_shared s = (refl, refl, refl, refl, refl)
count_class-rest Opcode.ld_param s = (refl, refl, refl, refl, refl)
count_class-rest _ s = (refl, refl, refl, refl, refl)

pub count_issue-Consistent :
    {b l : ℕ} (w : Warp) (s : LaunchStats) → Consistent b l s → Consistent b l (count_issue w s)
unfolding count_issue
count_issue-Consistent w s c =
    let lanes = lane_count w.last_exec in
    let h = s.active_lane_histogram in
    let t : LaunchStats = record s {
      instructions_issued = add64 s.instructions_issued 1;
      active_lane_sum = add64 s.active_lane_sum lanes;
      active_lane_histogram = set h lanes (add64 (get_or h lanes 0) 1);
    } in
    let (issues, sum, histogram, blocks, launched) = count_class-rest w.last_opcode t in
    let lt : lanes < length h = omega (arith, c.entries, lane_count-le w.last_exec) in
    record {
      classes = omega (arith, count_class-sum w.last_opcode t, issues, c.classes);
      entries = ap length histogram ∙ length-set h lanes (add64 (get_or h lanes 0) 1) ∙ c.entries;
      issues = omega (arith, issues, ap total histogram, total-set h lanes lt, c.issues);
      blocks_are = blocks ∙ c.blocks_are;
      lanes_are = launched ∙ c.lanes_are;
      lane_sum = omega (arith, sum, ap weighted histogram, weighted-set h lanes lt, c.lane_sum);
    }

pub fresh-Consistent : Consistent 0 0 fresh_launch_stats
fresh-Consistent = record {
  classes = refl;
  entries = refl;
  issues = unfold total in refl;
  blocks_are = refl;
  lanes_are = refl;
  lane_sum = unfold weighted in refl;
}
