-- ===== src/Core/Warp/Steps.antt =====
-- `Warp::step` of src/core/warp.cpp as a whole: it ends, keeps the partition of the lanes, and reports
-- `Finished` only when no lane is left.
use mathlib.Core.Option.{some-injective}
use warp_sim.Base.{
  ℕ, ◌+◌, ◌*◌, ◌^◌, ◌<◌, ◌≤◌, ◌==◌, Bool, true, ◌≡◌, refl, arith, List, [], ◌∷◌, length, Bool-cases,
  ==_iff, inl, inr, bit_and, bit_or, Option, none, some, ok, sym, subst,
}
use warp_sim.Bits.{bit, bit-le-one, bit-bit_and, bit-bit_or, bit_and-lt, bit_or-lt, bit_ext_zero}
use warp_sim.Isa.Opcode.{Opcode}
use warp_sim.Isa.Instruction.{Instruction}
use warp_sim.Core.Types.{LaneMask, LaneContext, complement}
use warp_sim.Core.Types.Masks.{bit-and_not}
use warp_sim.Core.Registers.{RegisterFile}
use warp_sim.Core.Alu.{Binary32}
use warp_sim.Core.Memory.{AccessFault, MemoryPort}
use warp_sim.Core.Warp.{
  DivergenceEntry, WarpState, Warp, new_warp, Next, no_lanes, issue, next_instruction, retire,
  check_stack, check_invariants, finished,
}
use warp_sim.Core.Warp.Step.{
  exec_mask, branch, Stepped, done, finish_access, memory_access, lane_accesses, execute,
  issue_instruction, step_from, step,
}
use warp_sim.Core.Warp.Masks.{exec_mask-lt, exec_mask-le}
use warp_sim.Core.Warp.Partition.{
  Partition, MasksFit, occurrences, resolve_round-Partition, retire-Partition, drained-finished,
}
use warp_sim.Core.Warp.Termination.{next_instruction_total, Handed}

-- The program counter, the registers and the barrier flag do not matter to the partition.
Partition-rest :
    (s : WarpState) (pc : ℕ) (registers : RegisterFile) (parked : Bool)
    → Partition s
    → Partition (record s { pc = pc; registers = registers; parked = parked })
Partition-rest s pc registers parked p = record {
  active_fits = p.active_fits;
  live_fits = p.live_fits;
  stack_fits = p.stack_fits;
  lanes = p.lanes;
}

branch-Partition :
    (i : Instruction) (exec : LaneMask) (w : Warp)
    → exec < 2 ^ 32
    → ((l : ℕ) → l < 32 → bit exec l ≤ bit w.state.active l)
    → Partition w.state
    → Partition (branch i exec w).state
unfolding branch
branch-Partition i exec w fits below p = elim (Bool-cases i.guard.present) [
  | inr e ↦ rw e (Partition-rest w.state _ _ _ p)
  | inl e ↦ rw e (elim (Bool-cases (exec == 0)) [
    | inl none' ↦ rw none' (Partition-rest w.state _ _ _ p)
    | inr taken ↦ rw taken (elim (Bool-cases (bit_and w.state.active (complement exec) == 0)) [
      | inl all ↦ rw all (Partition-rest w.state _ _ _ p)
      | inr split ↦ rw split (record {
        active_fits = fits;
        live_fits = p.live_fits;
        stack_fits = (bit_and-lt 32 w.state.active (complement exec) p.active_fits, p.stack_fits);
        lanes = λ l lt.
            unfold occurrences in
            omega (
              arith,
              below l lt,
              p.lanes l lt,
              bit-and_not w.state.active exec l fits lt,
              bit-le-one w.state.active l,
            );
      })
    ])
  ])
]

module _ (fp : Binary32) {M : Type 0} (port : MemoryPort M) where
  finish_access-Partition :
      (f : Option AccessFault) (w : Warp) (m : M)
      → Partition w.state
      → Partition (finish_access fp port f w m).warp.state
  unfolding finish_access
  finish_access-Partition none w m p = Partition-rest w.state _ _ _ p
  finish_access-Partition (some f) w m p = p

  memory_access-Partition :
      (i : Instruction) (exec : LaneMask) (w : Warp) (m : M)
      → Partition w.state
      → Partition (memory_access fp port i exec w m).warp.state
  unfolding memory_access
  memory_access-Partition i exec w m p =
      let r = lane_accesses fp port i exec w m in
      finish_access-Partition r.failure
        (record w { state = record w.state { registers = r.registers } }) r.memory
        (Partition-rest w.state w.state.pc r.registers w.state.parked p)

  execute-Partition :
      (op : Opcode) (i : Instruction) (exec : LaneMask) (w : Warp) (m : M)
      → exec < 2 ^ 32
      → ((l : ℕ) → l < 32 → bit exec l ≤ bit w.state.active l)
      → Partition w.state
      → Partition (execute fp port op i exec w m).warp.state
  unfolding execute
  execute-Partition Opcode.bra i exec w m h k p = branch-Partition i exec w h k p
  execute-Partition Opcode.exit i exec w m h k p =
      Partition-rest (retire exec w.state) _ _ _ (retire-Partition exec h w.state p)
  execute-Partition Opcode.bar_sync i exec w m h k p =
      elim (Bool-cases (w.state.active == w.state.live)) [
        | inl e ↦ rw e (Partition-rest w.state _ _ _ p)
        | inr e ↦ rw e p
      ]
  execute-Partition Opcode.ld_global i exec w m h k p = memory_access-Partition i exec w m p
  execute-Partition Opcode.st_global i exec w m h k p = memory_access-Partition i exec w m p
  execute-Partition Opcode.ld_shared i exec w m h k p = memory_access-Partition i exec w m p
  execute-Partition Opcode.st_shared i exec w m h k p = memory_access-Partition i exec w m p
  execute-Partition Opcode.ld_param i exec w m h k p = memory_access-Partition i exec w m p
  execute-Partition _ i exec w m h k p = Partition-rest w.state _ _ _ p

  issue_instruction-Partition :
      (i : Instruction) (w : Warp) (m : M)
      → Partition w.state
      → Partition (issue_instruction fp port i w m).warp.state
  unfolding issue_instruction
  issue_instruction-Partition i w m p =
      execute-Partition i.opcode i (exec_mask i w.state)
        (record w { last_exec = exec_mask i w.state; last_opcode = i.opcode }) m
        (exec_mask-lt i w.state p.active_fits) (λ l lt. exec_mask-le i w.state l lt) p

-- The masks of a partition pass both assertions of `check_invariants`.
check_stack-holds :
    (es : List DivergenceEntry) (seen live : LaneMask)
    → seen < 2 ^ 32
    → live < 2 ^ 32
    → MasksFit es
    → ((l : ℕ) → l < 32 → bit seen l + occurrences es l ≤ bit live l)
    → check_stack seen es live ≡ true
unfolding check_stack occurrences
check_stack-holds [] seen live hs hl f h = (==_iff _ 0).1 (
    bit_ext_zero 32 (bit_and seen (complement live)) (bit_and-lt 32 seen (complement live) hs)
      λ l lt. omega (arith, h l lt, bit-and_not seen live l hl lt, bit-le-one live l))
check_stack-holds (e ∷ es) seen live hs hl f h =
    let apart : bit_and seen e.mask ≡ 0 =
      bit_ext_zero 32 (bit_and seen e.mask) (bit_and-lt 32 seen e.mask hs)
        λ l lt. omega (arith, h l lt, bit-bit_and seen e.mask l, bit-le-one live l) in
    rw ((==_iff (bit_and seen e.mask) 0).1 apart) (
      check_stack-holds es (bit_or seen e.mask) live (bit_or-lt 32 seen e.mask hs f.0) hl f.1
        λ l lt. omega (arith, h l lt, bit-bit_or seen e.mask l))

-- In a state whose masks partition the live lanes, the assertions of `check_invariants` hold.
check_invariants-holds : (s : WarpState) → Partition s → check_invariants s ≡ true
unfolding check_invariants
check_invariants-holds s p =
    check_stack-holds s.stack s.active s.live p.active_fits p.live_fits p.stack_fits
      λ l lt. omega (arith, p.lanes l lt)

module _ (fp : Binary32) {M : Type 0} (port : MemoryPort M) (program : List Instruction) where
  next_Partition :
      (w : Warp)
      → Partition w.state
      → (n : Next) × (next_instruction (2 * length w.state.stack + 2) program w ≡ some n)
        × Handed (λ v. Partition v.state) program n
  next_Partition =
      next_instruction_total (λ v. Partition v.state) (λ v p. p.active_fits) resolve_round-Partition
        (λ v p. retire-Partition v.state.active p.active_fits v.state p) program

  step_from-Partition :
      (n : Next) (m : M)
      → Handed (λ v. Partition v.state) program n
      → (r : Stepped M) × (step_from fp port (some n) m ≡ some r) × Partition r.warp.state
  unfolding step_from
  step_from-Partition (no_lanes w) m h = (_, refl, h.0)
  step_from-Partition (issue w i) m h =
      (issue_instruction fp port i w m, refl, issue_instruction-Partition fp port i w m h.0)

-- From a warp whose active mask and stack masks partition its live lanes, `Warp::step` on any
-- program and any memory port ends (the fuel is enough), and in the warp that it leaves, after a
-- fault too, the masks partition the live lanes and the assertions of `check_invariants` hold.
pub step-Partition :
    (fp : Binary32) {M : Type 0} (port : MemoryPort M) (program : List Instruction) (w : Warp)
    (m : M)
    → Partition w.state
    → (r : Stepped M) × (step fp port program w m ≡ some r)
      × Partition r.warp.state
      × (check_invariants r.warp.state ≡ true)
unfolding step
step-Partition fp port program w m p =
    let (n, e, h) = next_Partition fp port program w p in
    let (r, s, q) = step_from-Partition fp port program n m h in
    (r, rw e s, q, check_invariants-holds r.warp.state q)

module _ (fp : Binary32) {M : Type 0} (port : MemoryPort M) where
  finish_access-not_done :
      (f : Option AccessFault) (w : Warp) (m : M)
      → ¬ ((finish_access fp port f w m).outcome ≡ ok done)
  unfolding finish_access
  finish_access-not_done none w m h = cc
  finish_access-not_done (some f) w m h = cc

  execute-not_done :
      (op : Opcode) (i : Instruction) (exec : LaneMask) (w : Warp) (m : M)
      → ¬ ((execute fp port op i exec w m).outcome ≡ ok done)
  unfolding execute memory_access
  execute-not_done Opcode.bra i exec w m h = cc
  execute-not_done Opcode.exit i exec w m h = cc
  execute-not_done Opcode.bar_sync i exec w m h = ground (arith, h)
  execute-not_done Opcode.ld_global i exec w m h = finish_access-not_done _ _ _ h
  execute-not_done Opcode.st_global i exec w m h = finish_access-not_done _ _ _ h
  execute-not_done Opcode.ld_shared i exec w m h = finish_access-not_done _ _ _ h
  execute-not_done Opcode.st_shared i exec w m h = finish_access-not_done _ _ _ h
  execute-not_done Opcode.ld_param i exec w m h = finish_access-not_done _ _ _ h
  execute-not_done _ i exec w m h = cc

  step_from-done :
      (program : List Instruction) (n : Next) (m : M) (r : Stepped M)
      → Handed (λ v. Partition v.state) program n
      → step_from fp port (some n) m ≡ some r
      → r.outcome ≡ ok done
      → r.warp.state.live ≡ 0
  unfolding step_from issue_instruction
  step_from-done program (no_lanes w) m r h e d =
      subst (λ (v : Stepped M). v.warp.state.live ≡ 0) (some-injective _ _ e)
        (drained-finished w h.0 h.1)
  step_from-done program (issue w i) m r h e d = absurd (
      execute-not_done i.opcode i (exec_mask i w.state) _ m
        (subst (λ (v : Stepped M). v.outcome ≡ ok done) (sym (some-injective _ _ e)) d))

-- If the masks of a warp partition its live lanes, then a step that reports `Finished` leaves a
-- warp with no live lane.
pub step_done :
    (fp : Binary32) {M : Type 0} (port : MemoryPort M) (program : List Instruction) (w : Warp)
    (m : M) (r : Stepped M)
    → Partition w.state
    → step fp port program w m ≡ some r
    → r.outcome ≡ ok done
    → finished r.warp.state ≡ true
unfolding step finished
step_done fp port program w m r p e d =
    let (n, found, h) = next_Partition fp port program w p in
    (==_iff r.warp.state.live 0).1 (step_from-done fp port program n m r h (rw found at e) d)

-- The masks of a new warp partition its live lanes, if these fit a 32-bit mask.
pub new_warp-Partition :
    (id : ℕ) (live : LaneMask) (c : LaneContext)
    → live < 2 ^ 32
    → Partition (new_warp id live c).state
unfolding new_warp
new_warp-Partition id live c h = record {
  active_fits = h;
  live_fits = h;
  stack_fits = tt;
  lanes = λ l lt. unfold occurrences in omega arith;
}
