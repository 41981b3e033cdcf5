-- ===== src/Core/Warp.antt =====
-- include/warpsim/core/warp_state.hpp, warp.hpp, fault.hpp and src/core/warp.cpp: one warp, its
-- divergence stack and its scheduling step. The back of the stack's vector is the head of the list.
-- Loops take fuel; `Warp.Termination` is about it.
pub mod Step
pub mod Masks
pub mod Termination
pub mod Partition
pub mod Steps
pub mod Frames
use warp_sim.Base.{
  ℕ, zero, suc, String, ◌+◌, ◌*◌, ◌%◌, ◌^◌, ◌==◌, if◌then◌else◌, Bool, true, false, ◌&&◌, bit_and,
  bit_or, Option, none, some, List, [], ◌∷◌, map, length, get_elem?,
}
use warp_sim.Isa.Opcode.{Opcode}
use warp_sim.Isa.Instruction.{Instruction, reconvergence_pc}
use warp_sim.Core.Types.{LaneMask, LaneContext, complement}
use warp_sim.Core.Registers.{RegisterFile, fresh}

pub record DivergenceEntry : Type 0 where
  pub reconvergence_pc : ℕ
  pub resume_pc : ℕ
  pub mask : LaneMask

unfoldable pub is_join : DivergenceEntry → Bool
is_join e = e.resume_pc == e.reconvergence_pc

pub record WarpState : Type 0 where
  pub pc : ℕ
  pub active : LaneMask
  pub live : LaneMask
  pub stack : List DivergenceEntry
  pub registers : RegisterFile
  pub warp_id : ℕ
  pub parked : Bool

unfoldable pub finished : WarpState → Bool
finished s = s.live == 0

pub record Warp : Type 0 where
  pub state : WarpState
  pub context : LaneContext
  pub last_exec : LaneMask
  pub divergent : ℕ
  pub reconverged : ℕ
  pub last_opcode : Opcode

-- The constructor `Warp::Warp`.
unfoldable pub new_warp : ℕ → LaneMask → LaneContext → Warp
new_warp warp_id live context = record {
  state = record {
    pc = 0;
    active = live;
    live = live;
    stack = [];
    registers = fresh;
    warp_id = warp_id;
    parked = false;
  };
  context = context;
  last_exec = 0;
  divergent = 0;
  reconverged = 0;
  last_opcode = Opcode.exit;
}

pub record Fault : Type 0 where
  pub message : String
  pub block : ℕ
  pub warp : ℕ
  pub lane : ℕ
  pub pc : ℕ
  pub address : ℕ

unfoldable pub make_fault : Warp → String → ℕ → ℕ → Fault
make_fault w message lane address = record {
  message = message;
  block = (w.context.ctaid.y * w.context.nctaid.x % 2 ^ 32 + w.context.ctaid.x) % 2 ^ 32;
  warp = w.state.warp_id;
  lane = lane;
  pc = w.state.pc;
  address = address;
}

-- `++x` on a `std::uint64_t` counter and on the 16-bit program counter.
abbrev pub inc64 : ℕ → ℕ
inc64 n = (n + 1) % 2 ^ 64

abbrev pub inc16 : ℕ → ℕ
inc16 n = (n + 1) % 2 ^ 16

abbrev join_entry : ℕ → LaneMask → DivergenceEntry
join_entry pc mask = record { reconvergence_pc = pc; resume_pc = pc; mask = mask }

-- `Warp::switch_to`, on a state whose top entry has been popped.
unfoldable pub switch_to : DivergenceEntry → LaneMask → WarpState → WarpState
unfolding is_join
switch_to e arrived s =
    if is_join e
    then record s { active = bit_or arrived e.mask; pc = e.reconvergence_pc }
    else record s {
      stack = if arrived == 0 then s.stack else join_entry e.reconvergence_pc arrived ∷ s.stack;
      active = e.mask;
      pc = e.resume_pc;
    }

-- One round of the loop in `resolve_stack`: it returns false, returns true, or goes on.
pub data Round : Type 0 where
  drained ready : Round
  again : Warp → Round

-- Rule 4: every active lane retired.
unfoldable pub resume_deferred : List DivergenceEntry → Warp → Round
resume_deferred [] w = drained
resume_deferred (e ∷ rest) w =
    again (record w { state = switch_to e 0 (record w.state { stack = rest }) })

-- Rule 3: the current path may have reached its reconvergence point.
unfoldable pub reconverge : List DivergenceEntry → Warp → Round
reconverge [] w = ready
reconverge (e ∷ rest) w =
    if e.reconvergence_pc == w.state.pc
    then again (record w {
      state = switch_to e w.state.active (record w.state { stack = rest });
      reconverged = inc64 w.reconverged;
    })
    else ready

unfoldable pub resolve_round : Warp → Round
unfolding resume_deferred reconverge
resolve_round w =
    if w.state.active == 0 then resume_deferred w.state.stack w else reconverge w.state.stack w

unfoldable pub resolve : ℕ → Warp → Option (Bool × Warp)
resolve zero w = none
resolve (suc fuel) w = elim (resolve_round w) [
  | drained ↦ some (false, w)
  | ready ↦ some (true, w)
  | again w' ↦ resolve fuel w'
]

-- `Warp::resolve_stack`
unfoldable pub resolve_stack : Warp → Option (Bool × Warp)
unfolding resolve resolve_round switch_to
resolve_stack w = resolve (2 * length w.state.stack + 1) w

unfoldable pub clear_entry : LaneMask → DivergenceEntry → DivergenceEntry
clear_entry lanes e = record e { mask = bit_and e.mask (complement lanes) }

-- `Warp::retire`
unfoldable pub retire : LaneMask → WarpState → WarpState
unfolding clear_entry complement
retire lanes s = record s {
  live = bit_and s.live (complement lanes);
  active = bit_and s.active (complement lanes);
  stack = map (clear_entry lanes) s.stack;
}

-- `Warp::check_invariants`: the two assertions, as a test.
unfoldable pub check_stack : LaneMask → List DivergenceEntry → LaneMask → Bool
check_stack seen [] live = bit_and seen (complement live) == 0
check_stack seen (e ∷ rest) live =
    bit_and seen e.mask == 0 && check_stack (bit_or seen e.mask) rest live

unfoldable pub check_invariants : WarpState → Bool
unfolding check_stack complement
check_invariants s = check_stack s.active s.stack s.live

-- The loop at the head of `Warp::step`: the warp at its next instruction, or with no lane left.
pub data Next : Type 0 where
  no_lanes : Warp → Next
  issue : Warp → Instruction → Next

unfoldable pub next_instruction : ℕ → List Instruction → Warp → Option Next
next_instruction zero program w = none
next_instruction (suc fuel) program w = elim (resolve_stack w) [
  | none ↦ none
  | some (false, w') ↦ some (no_lanes w')
  | some (true, w') ↦ elim (get_elem? program w'.state.pc) [
    | some i ↦ some (issue w' i)
    | none ↦ next_instruction fuel program (record w' { state = retire w'.state.active w'.state })
  ]
]
