-- ===== src/Asm/Cfg.antt =====
-- The control-flow graph of src/asm/reconvergence.cpp (docs/wisa-spec.md section 8.1): `build_cfg`.
pub mod Edges
pub mod Leaders
pub mod Partition
pub mod Ends
pub mod Successors
pub mod Graph
use warp_sim.Base.{
  ℕ, zero, suc, String, ◌+◌, ◌-◌, ltb, leb, ◌==◌, if◌then◌else◌, Bool, true, false, ◌&&◌, ◌||◌,
  List, [], ◌∷◌, ◌++◌, get_or, set, replicate, length, Result, ok, fail, fail_if, ◌>>◌,
}
use warp_sim.Isa.Opcode.{Opcode}
use warp_sim.Isa.Instruction.{Instruction, branch_target}

pub record ReconvergenceError : Type 0 where
  pub pc : ℕ
  pub message : String

abbrev pub is_bra : Instruction → Bool
is_bra i = elim i.opcode [ Opcode.bra ↦ true | _ ↦ false ]

abbrev pub is_exit : Instruction → Bool
is_exit i = elim i.opcode [ Opcode.exit ↦ true | _ ↦ false ]

abbrev pub is_terminator : Instruction → Bool
is_terminator i = is_bra i || is_exit i

pub record Cfg : Type 0 where
  pub leaders : List ℕ
  pub block_of : List ℕ
  pub succs : List (List ℕ)
  pub exit_node : ℕ

-- `Instruction{}`: the value that `get_or` is given, for an index that is never out of range.
abbrev pub default_instruction : Instruction
default_instruction = record {
  opcode = Opcode.exit;
  guard = record { present = false; negate = false; pred = 0 };
  dst = 0;
  src0 = 0;
  src1 = 0;
  imm_flag = false;
  imm = 0;
}

-- What one instruction marks: the target of a `bra`, and the instruction after a terminator.
unfoldable pub mark_one : ℕ → ℕ → Instruction → List Bool → List Bool
mark_one n pc i flags =
    let marked = if is_bra i then set flags (branch_target i) true else flags in
    if is_terminator i && ltb (pc + 1) n then set marked (pc + 1) true else marked

-- The first loop of `build_cfg`, from `pc` on.
unfoldable pub mark_leaders :
    ℕ → ℕ → List Instruction → List Bool → Result (List Bool) ReconvergenceError
unfolding mark_one
mark_leaders n pc [] flags = ok flags
mark_leaders n pc (i ∷ is) flags = do
  fail_if (is_bra i && leb n (branch_target i))
      (record { pc = pc; message = "branch target out of range" })
  mark_leaders n (pc + 1) is (mark_one n pc i flags)

-- `leaders` and `block_of` as the second loop builds them.
pub record Blocks : Type 0 where
  pub leaders : List ℕ
  pub block_of : List ℕ

-- The body of the second loop.
unfoldable pub add_pc : List Bool → ℕ → Blocks → Blocks
add_pc flags pc s =
    let leaders = if pc == 0 || get_or flags pc false then s.leaders ++ (pc ∷ []) else s.leaders in
    record { leaders = leaders; block_of = s.block_of ++ ((length leaders - 1) ∷ []) }

unfoldable pub collect : ℕ → ℕ → List Bool → Blocks → Blocks
unfolding add_pc
collect zero pc flags s = s
collect (suc rounds) pc flags s = collect rounds (pc + 1) flags (add_pc flags pc s)

module _ (program : List Instruction) (s : Blocks) where
  -- `fallthrough`, after the instruction at `last`.
  unfoldable pub fallthrough : ℕ → ℕ
  fallthrough last =
      if ltb (last + 1) (length program) then get_or s.block_of (last + 1) 0 else length s.leaders

  -- The last instruction of block b.
  unfoldable pub last_of : ℕ → ℕ
  last_of b =
      (if ltb (b + 1) (length s.leaders) then get_or s.leaders (b + 1) 0 else length program) - 1

  -- The successors of a block that ends in instruction i at `last`.
  unfoldable pub edges : Instruction → ℕ → List ℕ
  unfolding fallthrough
  edges i last =
      if is_bra i
      then get_or s.block_of (branch_target i) 0
        ∷ (if i.guard.present then fallthrough last ∷ [] else [])
      else if is_exit i
      then length s.leaders ∷ (if i.guard.present then fallthrough last ∷ [] else [])
      else fallthrough last ∷ []

  -- The third loop, from block b on; the virtual exit node, last, has no successor.
  unfoldable pub successors : ℕ → ℕ → List (List ℕ)
  unfolding edges last_of
  successors zero b = [] ∷ []
  successors (suc rounds) b =
      edges (get_or program (last_of b) default_instruction) (last_of b) ∷ successors rounds (b + 1)

unfoldable pub cfg_of : List Instruction → Blocks → Cfg
unfolding successors
cfg_of program s = record {
  leaders = s.leaders;
  block_of = s.block_of;
  succs = successors program s (length s.leaders) 0;
  exit_node = length s.leaders;
}

unfoldable pub build_cfg : List Instruction → Result Cfg ReconvergenceError
unfolding mark_leaders collect cfg_of
build_cfg program =
    elim (mark_leaders (length program) 0 program (replicate (length program + 1) false)) [
      | fail e ↦ fail e
      | ok flags ↦ ok (
          cfg_of program
            (collect (length program) 0 flags (record { leaders = []; block_of = [] })))
    ]
