-- ===== src/Core/Device/Passes.antt =====
-- A pass of the scheduler of src/core/device.cpp, and the loop around it: every step of a pass ends,
-- every warp keeps its partition, and the counters stay consistent.
use warp_sim.Base.{
  ℕ, zero, suc, Bool, false, not, ◌||◌, ◌≡◌, refl, subst, arith, List, [], ◌∷◌, map, Bool-cases,
  inl, inr, ok, fail, Result,
}
use warp_sim.Isa.Instruction.{Instruction}
use warp_sim.Core.Alu.{Binary32}
use warp_sim.Core.Memory.{BlockMemory, block_port}
use warp_sim.Core.Warp.{Warp, Fault}
use warp_sim.Core.Warp.Step.{Stepped, StepOutcome, issued, barrier, done}
use warp_sim.Core.Warp.Partition.{Partition}
use warp_sim.Core.Warp.Steps.{step-Partition}
use warp_sim.Core.Device.{
  LaunchStats, Pass, Ended, value, faulted, out_of_fuel, pass, turn, is_waiting, step_warp, prepend,
  count_outcome,
}
use warp_sim.Core.Memory.Analysis.{add64}
use warp_sim.Core.Device.Block.{
  any_unfinished, Verdict, complete, release, no_progress, next_pass, verdict, unpark, plain_fault,
  run,
}
use warp_sim.Core.Device.Counters.{Consistent, count_issue-Consistent}

-- Every warp of a block keeps its lanes partitioned.
abbrev pub AllPartition : List Warp → Type 0
AllPartition [] = Unit {0}
AllPartition (w ∷ ws) = Partition w.state × AllPartition ws

count_outcome-Consistent :
    {b l : ℕ} (o : StepOutcome) (w : Warp) (s : LaunchStats)
    → Consistent b l s
    → Consistent b l (count_outcome o w s)
unfolding count_outcome
count_outcome-Consistent done w s c = c
count_outcome-Consistent issued w s c = count_issue-Consistent w s c
count_outcome-Consistent barrier w s c = count_issue-Consistent w s c

-- A call ends with a value of which P holds or with a fault; it does not run out of fuel.
abbrev pub EndsWith : {A : Type 0} → (A → Type 0) → Ended A → Type 0
EndsWith P (value a) = P a
EndsWith P (faulted f m) = Unit {0}
EndsWith P out_of_fuel = ⊥

-- A call that may run out of fuel: P holds of the value that it ends with.
abbrev pub Sound : {A : Type 0} → (A → Type 0) → Ended A → Type 0
Sound P (value a) = P a
Sound P (faulted f m) = Unit {0}
Sound P out_of_fuel = Unit {0}

abbrev SoundTurn : ℕ → ℕ → Warp × BlockMemory × LaunchStats → Type 0
SoundTurn b l (w, m, s) = Partition w.state × Consistent b l s

-- What a pass keeps.
abbrev pub SoundPass : ℕ → ℕ → Pass → Type 0
SoundPass b l p = AllPartition p.warps × Consistent b l p.stats

unparked : (ws : List Warp) → AllPartition ws → AllPartition (map unpark ws)
unfolding unpark
unparked [] p = tt
unparked (w ∷ ws) (p, ps) = (
  record {
    active_fits = p.active_fits;
    live_fits = p.live_fits;
    stack_fits = p.stack_fits;
    lanes = p.lanes;
  },
  unparked ws ps,
)

verdict-complete : (p : Pass) → verdict p ≡ complete → any_unfinished p.warps ≡ false
unfolding verdict
verdict-complete p h = ground (arith, h)

module _ (fp : Binary32) (program : List Instruction) (b l : ℕ) where
  prepend-SoundPass :
      (w : Warp) (r : Ended Pass)
      → Partition w.state
      → EndsWith (SoundPass b l) r
      → EndsWith (SoundPass b l) (prepend w r)
  unfolding prepend
  prepend-SoundPass w (value q) p h = ((p, h.0), h.1)
  prepend-SoundPass w (faulted f m) p h = tt
  prepend-SoundPass w out_of_fuel p h = elim h [ ]

  after_step :
      (r : Stepped BlockMemory) (o : Result StepOutcome Fault) (s : LaunchStats)
      → Partition r.warp.state
      → Consistent b l s
      → EndsWith (SoundTurn b l) (elim o [
        | fail f ↦ faulted f r.memory
        | ok o ↦ value (r.warp, r.memory, count_outcome o r.warp s)
      ])
  after_step r (ok o) s p c = (p, count_outcome-Consistent o r.warp s c)
  after_step r (fail f) s p c = tt

  turn-SoundTurn :
      (w : Warp) (m : BlockMemory) (s : LaunchStats)
      → Partition w.state
      → Consistent b l s
      → EndsWith (SoundTurn b l) (turn fp program w m s)
  unfolding turn step_warp
  turn-SoundTurn w m s p c = elim (Bool-cases (is_waiting w)) [
    | inl waits ↦ rw waits (p, c)
    | inr runs ↦
        let (r, e, q, checked) = step-Partition fp block_port program w m p in
        rw (runs, step_warp, e) (after_step r r.outcome s q c)
  ]

  after_turn :
      (t : Ended (Warp × BlockMemory × LaunchStats)) (w : Warp) (ws : List Warp) (any : Bool)
      → EndsWith (SoundTurn b l) t
      → ((m : BlockMemory) (s : LaunchStats)
          → Consistent b l s
          → EndsWith (SoundPass b l) (pass fp program ws m s (any || not (is_waiting w))))
      → EndsWith (SoundPass b l) (elim t [
        | value (w', m', s') ↦ prepend w' (pass fp program ws m' s' (any || not (is_waiting w)))
        | faulted f m' ↦ faulted f m'
        | out_of_fuel ↦ out_of_fuel
      ])
  after_turn (value (w', m', s')) w ws any (p, c) rest = prepend-SoundPass w' _ p (rest m' s' c)
  after_turn (faulted f m') w ws any h rest = tt
  after_turn out_of_fuel w ws any h rest = elim h [ ]

  -- A pass over warps whose masks partition their live lanes, with counters that agree, does not
  -- run out of fuel: it ends with a fault, or with warps and counters of which the same holds.
  pub pass-SoundPass :
      (ws : List Warp) (m : BlockMemory) (s : LaunchStats) (any : Bool)
      → AllPartition ws
      → Consistent b l s
      → EndsWith (SoundPass b l) (pass fp program ws m s any)
  unfolding pass
  pass-SoundPass [] m s any p c = (tt, c)
  pass-SoundPass (w ∷ ws) m s any (p, ps) c =
      after_turn (turn fp program w m s) w ws any (turn-SoundTurn w m s p c)
        λ m' s' c'. pass-SoundPass ws m' s' (any || not (is_waiting w)) ps c'

  barrier-Consistent :
      (s : LaunchStats) (n : ℕ)
      → Consistent b l s
      → Consistent b l (record s { barriers_completed = n })
  barrier-Consistent s n c = record {
    classes = c.classes;
    entries = c.entries;
    issues = c.issues;
    lane_sum = c.lane_sum;
    blocks_are = c.blocks_are;
    lanes_are = c.lanes_are;
  }

  -- What a completed block leaves: no warp is unfinished.
  abbrev pub Completed : Pass → Type 0
  Completed p = SoundPass b l p × (any_unfinished p.warps ≡ false)

  -- The loop with the given fuel is sound from any sound warps and counters.
  abbrev pub RunSound : ℕ → Type 0
  RunSound fuel =
      (ws : List Warp) (m : BlockMemory) (s : LaunchStats)
      → AllPartition ws
      → Consistent b l s
      → Sound Completed (run fp program fuel ws m s)

  after_verdict :
      (fuel : ℕ) (p : Pass) (v : Verdict)
      → verdict p ≡ v
      → SoundPass b l p
      → RunSound fuel
      → Sound Completed (elim v [
        | complete ↦ value p
        | release ↦
            run fp program fuel
              (map unpark p.warps)
              p.memory
              (record p.stats { barriers_completed = add64 p.stats.barriers_completed 1 })
        | no_progress ↦ faulted (plain_fault "scheduler made no progress" 0) p.memory
        | next_pass ↦ run fp program fuel p.warps p.memory p.stats
      ])
  after_verdict fuel p complete e h rest = (h, verdict-complete p e)
  after_verdict fuel p release e h rest =
      rest _ p.memory _ (unparked p.warps h.0) (barrier-Consistent p.stats _ h.1)
  after_verdict fuel p no_progress e h rest = tt
  after_verdict fuel p next_pass e h rest = rest p.warps p.memory p.stats h.0 h.1

  after_pass :
      (fuel : ℕ) (r : Ended Pass)
      → EndsWith (SoundPass b l) r
      → RunSound fuel
      → Sound Completed (elim r [
        | out_of_fuel ↦ out_of_fuel
        | faulted f m' ↦ faulted f m'
        | value p ↦ elim (verdict p) [
          | complete ↦ value p
          | release ↦
              run fp program fuel
                (map unpark p.warps)
                p.memory
                (record p.stats { barriers_completed = add64 p.stats.barriers_completed 1 })
          | no_progress ↦ faulted (plain_fault "scheduler made no progress" 0) p.memory
          | next_pass ↦ run fp program fuel p.warps p.memory p.stats
        ]
      ])
  after_pass fuel (value p) h rest = after_verdict fuel p (verdict p) refl h rest
  after_pass fuel (faulted f m) h rest = tt
  after_pass fuel out_of_fuel h rest = tt

  pub run-Completed : (fuel : ℕ) → RunSound fuel
  unfolding run
  run-Completed zero ws m s p c = tt
  run-Completed (suc fuel) ws m s p c =
      after_pass fuel (pass fp program ws m s false) (pass-SoundPass ws m s false p c)
        (run-Completed fuel)

-- If the loop of `run_block` ends without a fault, on warps whose masks partitioned their live
-- lanes and with counters that agreed, then every warp has finished, and the same holds of the
-- warps and counters that it leaves.
pub run_complete :
    (fp : Binary32) (program : List Instruction) (b l fuel : ℕ) (ws : List Warp) (m : BlockMemory)
    (s : LaunchStats) (p : Pass)
    → AllPartition ws
    → Consistent b l s
    → run fp program fuel ws m s ≡ value p
    → (any_unfinished p.warps ≡ false) × AllPartition p.warps × Consistent b l p.stats
run_complete fp program b l fuel ws m s p h c e =
    let ((partitions, counters), all_done) =
      subst (λ r. Sound (Completed fp program b l) r) e
        (run-Completed fp program b l fuel ws m s h c) in
    (all_done, partitions, counters)
