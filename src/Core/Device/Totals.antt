-- ===== src/Core/Device/Totals.antt =====
-- What a launch of src/core/device.cpp counts: the totals of a launch that succeeds.
use warp_sim.Base.{
  ℕ, zero, suc, ◌+◌, ◌*◌, ◌%◌, ◌^◌, ◌<◌, ◌==◌, ◌||◌, ◌≡◌, ◌≢◌, refl, subst, arith, Option, none,
  some, List, [], ◌∷◌, Bool-cases, inl, inr, ok, fail, Result,
}
use warp_sim.Isa.Instruction.{Instruction}
use warp_sim.Asm.Program.{Program}
use warp_sim.Core.Types.{LaneContext, Dim2, count, lane_bit}
use warp_sim.Core.Alu.{Binary32}
use warp_sim.Core.Memory.{ByteMemory, BlockMemory}
use warp_sim.Core.Warp.{Warp, Fault}
use warp_sim.Core.Warp.Steps.{new_warp-Partition}
use warp_sim.Core.Device.{
  LaunchStats, fresh_launch_stats, Pass, Ended, value, faulted, out_of_fuel, live_mask, make_warps,
  add32,
}
use warp_sim.Core.Device.Block.{run_block, add_warps}
use warp_sim.Core.Device.Counters.{Consistent, fresh-Consistent}
use warp_sim.Core.Device.Passes.{AllPartition, Sound, Completed, run-Completed}
use warp_sim.Core.Device.Launch.{
  Blocks, going, stopped, add_memory, run_one, run_row, run_grid, finish, decode_words, launch,
}

live_mask-lt : (lanes w : ℕ) → live_mask lanes w < 2 ^ 32
unfolding live_mask lane_bit
live_mask-lt lanes w = ground arith

make_warps-AllPartition :
    (n w lanes : ℕ) (base : LaneContext) → AllPartition (make_warps n w lanes base)
unfolding make_warps
make_warps-AllPartition zero w lanes base = tt
make_warps-AllPartition (suc n) w lanes base = (
  new_warp-Partition w (live_mask lanes w) _ (live_mask-lt lanes w),
  make_warps-AllPartition n (w + 1) lanes base,
)

add_warps-Consistent :
    {b l : ℕ} (ws : List Warp) (s : LaunchStats)
    → Consistent b l s
    → Consistent b l (add_warps ws s)
unfolding add_warps
add_warps-Consistent [] s c = c
add_warps-Consistent (w ∷ ws) s c = add_warps-Consistent ws _ (record {
  classes = c.classes;
  entries = c.entries;
  issues = c.issues;
  lane_sum = c.lane_sum;
  blocks_are = c.blocks_are;
  lanes_are = c.lanes_are;
})

abbrev SoundBlock : ℕ → ℕ → BlockMemory × LaunchStats → Type 0
SoundBlock b l (m, s) = Consistent b l s

module _ (fp : Binary32) (program : List Instruction) (b l : ℕ) where
  after_run :
      (r : Ended Pass)
      → Sound (Completed fp program b l) r
      → Sound (SoundBlock b l) (elim r [
        | out_of_fuel ↦ out_of_fuel
        | faulted f m' ↦ faulted f m'
        | value p ↦ value (p.memory, add_warps p.warps p.stats)
      ])
  after_run (value p) h = add_warps-Consistent p.warps p.stats h.0.1
  after_run (faulted f m) h = tt
  after_run out_of_fuel h = tt

  run_block-SoundBlock :
      (fuel : ℕ) (m : BlockMemory) (base : LaneContext) (lanes : ℕ) (s : LaunchStats)
      → Consistent b l s
      → Sound (SoundBlock b l) (run_block fp program fuel m base lanes s)
  unfolding run_block
  run_block-SoundBlock fuel m base lanes s c = after_run _ (
      run-Completed fp program b l fuel _ m _ (make_warps-AllPartition _ 0 lanes base) (record {
        classes = c.classes;
        entries = c.entries;
        issues = c.issues;
        lane_sum = c.lane_sum;
        blocks_are = c.blocks_are;
        lanes_are = c.lanes_are;
      }))

-- The counters after n blocks of c lanes each.
abbrev pub Tally : ℕ → ℕ → LaunchStats → Type 0
Tally c n s = Consistent (n % 2 ^ 32) (n * c % 2 ^ 32) s

-- The counters after n blocks, or a launch that stopped without a result to return.
abbrev TallyBlocks : ℕ → ℕ → Blocks → Type 0
TallyBlocks c n (going g s) = Tally c n s
TallyBlocks c n (stopped l) = (s : LaunchStats) → l.result ≢ some (ok s)

no_blocks : (c : ℕ) → Tally c 0 fresh_launch_stats
no_blocks c = subst (λ l. Consistent 0 l fresh_launch_stats) (omega arith) fresh-Consistent

next_product : (n c : ℕ) → (n * c % 2 ^ 32 + c) % 2 ^ 32 ≡ (n + 1) * c % 2 ^ 32
next_product n c = omega arith

module _ (fp : Binary32) (fuel : ℕ) (program : List Instruction) (shared_bytes : ℕ)
    (params : List ℕ) (grid block : Dim2) where
  after_block :
      (n : ℕ) (g : ByteMemory) (r : Ended (BlockMemory × LaunchStats))
      → Sound (SoundBlock (n % 2 ^ 32) (n * count block % 2 ^ 32)) r
      → TallyBlocks (count block) (n + 1) (elim r [
        | out_of_fuel ↦ stopped (record { memory = g; result = none })
        | faulted f m ↦ stopped (record { memory = m.global_memory; result = some (fail f) })
        | value (m, t) ↦ going m.global_memory (record t {
          blocks_executed = add32 t.blocks_executed 1;
          lanes_launched = add32 t.lanes_launched (count block);
          memory = add_memory t.memory m.stats;
        })
      ])
  after_block n g (value (m, t)) c = record {
    classes = c.classes;
    entries = c.entries;
    issues = c.issues;
    lane_sum = c.lane_sum;
    blocks_are = omega (arith, c.blocks_are);
    lanes_are = rw c.lanes_are (next_product n (count block));
  }
  after_block n g (faulted f m) c = λ s h. cc
  after_block n g out_of_fuel c = λ s h. cc

  run_one-TallyBlocks :
      (bx by n : ℕ) (g : ByteMemory) (s : LaunchStats)
      → Tally (count block) n s
      → TallyBlocks
          (count block)
          (n + 1)
          (run_one fp fuel program shared_bytes params grid block bx by g s)
  unfolding run_one
  run_one-TallyBlocks bx by n g s c =
      after_block n g _ (run_block-SoundBlock fp program _ _ fuel _ _ _ s c)

  run_row-TallyBlocks :
      (rounds bx by n : ℕ) (b : Blocks)
      → TallyBlocks (count block) n b
      → TallyBlocks
          (count block)
          (n + rounds)
          (run_row fp fuel program shared_bytes params grid block rounds bx by b)
  unfolding run_row
  run_row-TallyBlocks zero bx by n (stopped l) h = h
  run_row-TallyBlocks (suc rounds) bx by n (stopped l) h = h
  run_row-TallyBlocks zero bx by n (going g s) h =
      subst (λ t. Tally (count block) t s) (omega arith) h
  run_row-TallyBlocks (suc rounds) bx by n (going g s) h =
      subst
        (λ t. TallyBlocks (count block) t (
          run_row fp fuel program shared_bytes params grid block rounds (bx + 1) by
            (run_one fp fuel program shared_bytes params grid block bx by g s)))
        (omega arith)
        (run_row-TallyBlocks rounds (bx + 1) by (n + 1) _ (run_one-TallyBlocks bx by n g s h))

  run_grid-TallyBlocks :
      (rounds by n : ℕ) (b : Blocks)
      → TallyBlocks (count block) n b
      → TallyBlocks
          (count block)
          (n + rounds * grid.x)
          (run_grid fp fuel program shared_bytes params grid block rounds by b)
  unfolding run_grid
  run_grid-TallyBlocks zero by n b h = subst (λ t. TallyBlocks (count block) t b) (omega arith) h
  run_grid-TallyBlocks (suc rounds) by n b h =
      subst
        (λ t. TallyBlocks (count block) t (
          run_grid fp fuel program shared_bytes params grid block rounds (by + 1)
            (run_row fp fuel program shared_bytes params grid block grid.x 0 by b)))
        (omega arith)
        (run_grid-TallyBlocks rounds (by + 1) (n + grid.x) _
          (run_row-TallyBlocks grid.x 0 by n b h))

  whole_grid :
      (g : ByteMemory)
      → TallyBlocks (count block) (grid.y * grid.x) (
          run_grid fp fuel program shared_bytes params grid block grid.y 0
            (going g fresh_launch_stats))
  whole_grid g =
      subst
        (λ t. TallyBlocks (count block) t (
          run_grid fp fuel program shared_bytes params grid block grid.y 0
            (going g fresh_launch_stats)))
        (omega arith)
        (run_grid-TallyBlocks grid.y 0 0 (going g fresh_launch_stats) (no_blocks (count block)))

finish-Tally :
    (c n : ℕ) (b : Blocks) (s : LaunchStats)
    → TallyBlocks c n b
    → (finish b).result ≡ some (ok s)
    → Tally c n s
unfolding finish
finish-Tally c n (going g t) s h e = subst (λ u. Tally c n u) (cc e) h
finish-Tally c n (stopped l) s h e = absurd (h s e)

failed-not_ok :
    {f : Fault} {s : LaunchStats}
    → ◌≢◌ {A = Option (Result LaunchStats Fault)} (some (fail f)) (some (ok s))
failed-not_ok e = cc

-- The counters of a launch that returns some: blocks_executed is the number of blocks of the grid and
-- lanes_launched that number times the 32-bit product of the block's sizes, both modulo 2 ^ 32; and
-- modulo 2 ^ 64 the class counters and the histogram of active lanes each add up to
-- instructions_issued, and the histogram weighted by its indices to active_lane_sum. It is about the
-- counters: a block whose sizes' product wraps is counted by the wrapped product.
pub launch-Tally :
    (fp : Binary32) (fuel : ℕ) (program : Program) (grid block : Dim2) (params : List ℕ)
    (g : ByteMemory) (s : LaunchStats)
    → (launch fp fuel program grid block params g).result ≡ some (ok s)
    → Tally (count block) (grid.y * grid.x) s
unfolding launch
launch-Tally fp fuel program grid block params g s h =
    after_decode (decode_words 0 program.words) refl
  where
    after_decode :
        (r : Result (List Instruction) Fault)
        → decode_words 0 program.words ≡ r
        → Tally (count block) (grid.y * grid.x) s
    after_decode (fail f) e = absurd (failed-not_ok {f = f} {s = s} (rw (e, launch) at h))
    after_decode (ok decoded) e = elim (Bool-cases (count block == 0 || count grid == 0)) [
      | inl empty ↦ absurd (failed-not_ok {s = s} (rw (e, launch, empty) at h))
      | inr some_lanes ↦
          finish-Tally (count block) (grid.y * grid.x) _ s
            (whole_grid fp fuel decoded program.shared_bytes params grid block g)
            (rw (e, launch, some_lanes) at h)
    ]
