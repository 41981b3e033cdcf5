-- ===== src/Core/Warp/Step.antt =====
-- `Warp::step` and `Warp::memory_access` of src/core/warp.cpp. A step returns the warp, the memory and
-- the outcome or the fault; after a fault, what the instruction did to lower lanes stays done.
use warp_sim.Base.{
  ℕ, zero, suc, ◌+◌, ◌*◌, ◌==◌, if◌then◌else◌, Bool, true, false, not, ◌&&◌, bit_and, bit_or,
  Option, none, some, List, ◌∷◌, length, Result, ok, fail, ◌>>=◌,
}
use warp_sim.Isa.Opcode.{Opcode}
use warp_sim.Isa.Instruction.{Instruction, branch_target, reconvergence_pc}
use warp_sim.Core.Types.{LaneMask, has_lane, lane_bit, complement, for_range}
use warp_sim.Core.Registers.{RegisterFile, read, write, read_pred}
use warp_sim.Core.Alu.{Binary32, wrap_add, execute_alu}
use warp_sim.Core.Memory.{Space, global, shared, param, AccessFault, MemoryPort}
use warp_sim.Core.Warp.{
  WarpState, Warp, Fault, Next, no_lanes, issue, next_instruction, retire, make_fault, inc16, inc64,
}

-- `a != b` on `bool`.
unfoldable pub differs : Bool → Bool → Bool
differs true b = not b
differs false b = b

-- The lanes that execute: the active mask, or those of it whose predicate passes the guard.
unfoldable pub guard_mask : Instruction → WarpState → LaneMask
unfolding for_range lane_bit has_lane read_pred differs
guard_mask i s =
    for_range 32 0
      (λ lane mask.
        if has_lane s.active lane
          && differs (read_pred s.registers lane i.guard.pred) i.guard.negate
        then bit_or mask (lane_bit lane)
        else mask)
      0

unfoldable pub exec_mask : Instruction → WarpState → LaneMask
unfolding guard_mask
exec_mask i s = if i.guard.present then guard_mask i s else s.active

-- The case `Opcode::Bra` of `Warp::step`.
unfoldable pub branch : Instruction → LaneMask → Warp → Warp
unfolding complement branch_target reconvergence_pc
branch i exec w =
    let s = w.state in
    let fall_through = bit_and s.active (complement exec) in
    if not i.guard.present
    then record w { state = record s { pc = branch_target i } }
    else if exec == 0
    then record w { state = record s { pc = inc16 s.pc } }
    else if fall_through == 0
    then record w { state = record s { pc = branch_target i } }
    else record w {
      divergent = inc64 w.divergent;
      state = record s {
        stack =
            record {
              reconvergence_pc = reconvergence_pc i;
              resume_pc = inc16 s.pc;
              mask = fall_through;
            }
            ∷ s.stack;
        active = exec;
        pc = branch_target i;
      };
    }

-- `StepOutcome`; `done` is `Finished`.
pub data StepOutcome : Type 0 where
  issued barrier done : StepOutcome

pub record Stepped (M : Type 0) : Type 0 where
  pub warp : Warp
  pub memory : M
  pub outcome : Result StepOutcome Fault

unfoldable pub space_of : Opcode → Space
space_of Opcode.ld_shared = shared
space_of Opcode.st_shared = shared
space_of Opcode.ld_param = param
space_of _ = global

unfoldable pub is_store : Opcode → Bool
is_store Opcode.st_global = true
is_store Opcode.st_shared = true
is_store _ = false

-- The array `addresses`: zero for a lane that does not execute.
unfoldable pub lane_address : Instruction → LaneMask → RegisterFile → ℕ → ℕ
lane_address i exec rf lane =
    if has_lane exec lane
    then (elim (space_of i.opcode) [ param ↦ i.imm | _ ↦ wrap_add (read rf lane i.src0) i.imm ])
    else 0

pub record Accessed (M : Type 0) : Type 0 where
  pub registers : RegisterFile
  pub memory : M
  pub failure : Option AccessFault

module _ {M : Type 0} (port : MemoryPort M) (i : Instruction) (addresses : ℕ → ℕ) where
  -- The access of one lane.
  unfoldable pub access_lane : ℕ → RegisterFile → M → Result (RegisterFile × M) AccessFault
  unfolding space_of is_store
  access_lane lane rf m =
      if is_store i.opcode
      then (do
        m' ← port.store m (space_of i.opcode) (addresses lane) (read rf lane i.src1) lane
        ok (rf, m'))
      else (do
        v ← port.load m (space_of i.opcode) (addresses lane) lane
        ok (write rf lane i.dst v, m))

  -- The loop over the lanes, in lane order, from `lane` on; it stops at the first fault, which gets
  -- the lane and its address.
  unfoldable pub access_lanes : ℕ → ℕ → LaneMask → RegisterFile → M → Accessed M
  unfolding access_lane
  access_lanes zero lane exec rf m = record { registers = rf; memory = m; failure = none }
  access_lanes (suc rounds) lane exec rf m =
      elim (if has_lane exec lane then access_lane lane rf m else ok (rf, m)) [
        | ok (rf', m') ↦ access_lanes rounds (lane + 1) exec rf' m'
        | fail f ↦ record {
          registers = rf;
          memory = m;
          failure = some (record { message = f.message; lane = lane; address = addresses lane });
        }
      ]

module _ (fp : Binary32) {M : Type 0} (port : MemoryPort M) where
  -- After the lanes: the program counter advances, or the fault names the warp and the lane.
  unfoldable pub finish_access : Option AccessFault → Warp → M → Stepped M
  finish_access none w m = record {
    warp = record w { state = record w.state { pc = inc16 w.state.pc } };
    memory = m;
    outcome = ok issued;
  }
  finish_access (some f) w m = record {
    warp = w;
    memory = m;
    outcome = fail (make_fault w f.message f.lane f.address);
  }

  -- The analyzer's hook, then the accesses of the lanes.
  unfoldable pub lane_accesses : Instruction → LaneMask → Warp → M → Accessed M
  unfolding access_lanes lane_address
  lane_accesses i exec w m =
      let addresses = lane_address i exec w.state.registers in
      let observed =
        if exec == 0
        then m
        else port.on_warp_access m (space_of i.opcode) (is_store i.opcode) addresses exec in
      access_lanes port i addresses 32 0 exec w.state.registers observed

  -- `Warp::memory_access`
  unfoldable pub memory_access : Instruction → LaneMask → Warp → M → Stepped M
  unfolding lane_accesses finish_access
  memory_access i exec w m =
      let r = lane_accesses i exec w m in
      finish_access r.failure (record w { state = record w.state { registers = r.registers } })
        r.memory

  -- The switch of `Warp::step`.
  unfoldable pub execute : Opcode → Instruction → LaneMask → Warp → M → Stepped M
  unfolding branch retire memory_access
  execute Opcode.bra i exec w m = record { warp = branch i exec w; memory = m; outcome = ok issued }
  execute Opcode.exit i exec w m = record {
    warp = record w { state = record (retire exec w.state) { pc = inc16 w.state.pc } };
    memory = m;
    outcome = ok issued;
  }
  execute Opcode.bar_sync i exec w m =
      if w.state.active == w.state.live
      then record {
        warp = record w { state = record w.state { parked = true; pc = inc16 w.state.pc } };
        memory = m;
        outcome = ok barrier;
      }
      else record {
        warp = w;
        memory = m;
        outcome = fail (make_fault w "bar.sync executed in divergent code" 0 0);
      }
  execute Opcode.ld_global i exec w m = memory_access i exec w m
  execute Opcode.st_global i exec w m = memory_access i exec w m
  execute Opcode.ld_shared i exec w m = memory_access i exec w m
  execute Opcode.st_shared i exec w m = memory_access i exec w m
  execute Opcode.ld_param i exec w m = memory_access i exec w m
  execute _ i exec w m = record {
    warp = record w {
      state = record w.state {
        registers = execute_alu fp i w.context exec w.state.registers;
        pc = inc16 w.state.pc;
      };
    };
    memory = m;
    outcome = ok issued;
  }

  unfoldable pub issue_instruction : Instruction → Warp → M → Stepped M
  unfolding execute exec_mask
  issue_instruction i w m =
      let exec = exec_mask i w.state in
      execute i.opcode i exec (record w { last_exec = exec; last_opcode = i.opcode }) m

  unfoldable pub step_from : Option Next → M → Option (Stepped M)
  step_from none m = none
  step_from (some (no_lanes w)) m = some (record { warp = w; memory = m; outcome = ok done })
  step_from (some (issue w i)) m = some (issue_instruction i w m)

  -- `Warp::step`
  unfoldable pub step : List Instruction → Warp → M → Option (Stepped M)
  unfolding step_from next_instruction issue_instruction
  step program w m = step_from (next_instruction (2 * length w.state.stack + 2) program w) m
