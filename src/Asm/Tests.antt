-- ===== src/Asm/Tests.antt =====
-- Concrete sources and programs: the theorems of the assembler's side at work.
mod Printed
use mathlib.Core.List.{Memᴰ}
use warp_sim.Base.{
  ℕ, String, none, Option, ◌≤◌, ◌==◌, true, false, not, ◌&&◌, ◌||◌, ◌≡◌, ◌↔◌, ◌⊎◌, refl, arith,
  some, List, [], ◌∷◌, length, get_elem?, Result, ok, fail,
}
use warp_sim.Isa.Opcode.{Opcode}
use warp_sim.Isa.Instruction.{Instruction, branch_target}
use warp_sim.Asm.Lexer.{AssemblyError}
use warp_sim.Asm.BlockSet.{BlockSet, new_set, contains, insert, erase, intersect, same_set}
use warp_sim.Asm.BlockSet.Members.{Sized-new_set}
use warp_sim.Asm.BlockSet.Sets.{block_set_lem}
use warp_sim.Asm.Cfg.{Cfg, ReconvergenceError, build_cfg}
use warp_sim.Asm.Cfg.Edges.{build_cfg-fits}
use warp_sim.Asm.Cfg.Graph.{IsCfg, build_cfg_lem}
use warp_sim.Asm.Dominators.{Sets, post_dominators, immediate_post_dominator}
use warp_sim.Asm.Dominators.Paths.{ToExit, PostDominates, EdgesFit}
use warp_sim.Asm.Dominators.Fixed.{post_dominators_lem}
use warp_sim.Asm.Dominators.Immediate.{IsImmediate, immediate_post_dominator_lem}
use warp_sim.Asm.Program.{Program}
use warp_sim.Asm.Operands.Cursors.{Holds}
use warp_sim.Asm.Assembler.{assemble}
use warp_sim.Asm.Assembler.Total.{Assembled, assemble_lem}
use warp_sim.Asm.Numbers.{integer_value, register_index, predicate_name}
use warp_sim.Asm.Printing.{decimal_text, hex, reg, pred}
use warp_sim.Asm.Printing.Reading.{integer_value-text, register_index-reg}
use warp_sim.Asm.Disassembler.{DisassemblyError, disassemble}
use warp_sim.Asm.Disassembler.Errors.{Explained, disassemble_lem}
use warp_sim.Asm.Annotate.{annotate_reconvergence}
use warp_sim.Asm.Annotate.Targets.{FirstStray, Stray}
use warp_sim.Asm.Annotate.Points.{IsAnnotation, annotate_reconvergence_lem}

abbrev plain : Opcode → ℕ → Instruction
plain op imm = record {
  opcode = op;
  guard = record { present = false; negate = false; pred = 0 };
  dst = 0;
  src0 = 0;
  src1 = 0;
  imm_flag = false;
  imm = imm;
}

-- `@p1 bra 2`, `bar.sync`, `exit`
abbrev branching : List Instruction
branching =
    record (plain Opcode.bra 2) { guard = record { present = true; negate = false; pred = 1 } }
    ∷ plain Opcode.bar_sync 0
    ∷ plain Opcode.exit 0
    ∷ []

abbrev graph : Cfg
graph = record {
  leaders = 0 ∷ 1 ∷ 2 ∷ [];
  block_of = 0 ∷ 1 ∷ 2 ∷ [];
  succs = (2 ∷ 1 ∷ []) ∷ (2 ∷ []) ∷ (3 ∷ []) ∷ [] ∷ [];
  exit_node = 3;
}

build_cfg-branching : build_cfg branching ≡ ok graph
unfolding build_cfg branch_target
build_cfg-branching = refl

graph-EdgesFit : EdgesFit graph
graph-EdgesFit = (build_cfg-fits branching graph build_cfg-branching).1

build_cfg_lem_example : IsCfg branching graph
build_cfg_lem_example = build_cfg_lem branching graph build_cfg-branching

post_dominators_lem_example :
    (q : Sets) × (post_dominators graph ≡ some q)
    × ((b x : ℕ)
        → b ≤ graph.exit_node
        → x ≤ graph.exit_node
        → (contains (q b) x ≡ true) ↔ PostDominates graph x b)
post_dominators_lem_example = post_dominators_lem graph graph-EdgesFit

graph-ToExit : ToExit graph 0 2
graph-ToExit = ToExit.edge (Memᴰ.head refl) (ToExit.edge (Memᴰ.head refl) ToExit.at_exit)

immediate_post_dominator_lem_example :
    (q : Sets) × (post_dominators graph ≡ some q)
    × IsImmediate graph (immediate_post_dominator q 0) 0
immediate_post_dominator_lem_example =
    immediate_post_dominator_lem graph 0 2 graph-EdgesFit (omega arith) graph-ToExit

annotate_reconvergence_lem_example :
    ((e : ReconvergenceError) × (annotate_reconvergence branching ≡ some (fail e))
      × FirstStray (length branching) branching e.pc)
    ⊎ ((cfg : Cfg) × (out : List Instruction) × (build_cfg branching ≡ ok cfg)
        × (annotate_reconvergence branching ≡ some (ok out))
        × IsCfg branching cfg
        × IsAnnotation cfg branching out
        × ((k : ℕ) (i : Instruction)
            → get_elem? branching k ≡ some i
            → ¬ Stray (length branching) i))
annotate_reconvergence_lem_example = annotate_reconvergence_lem branching

abbrev small : BlockSet
small = new_set 70 false

abbrev full : BlockSet
full = new_set 70 true

block_set_lem_example :
    (contains (new_set 70 false) 65 ≡ false)
    × (contains (new_set 70 true) 65 ≡ true)
    × (contains (insert 66 small) 65 ≡ (65 == 66 || contains small 65))
    × (contains (erase 66 small) 65 ≡ (not (65 == 66) && contains small 65))
    × (contains (intersect small full) 65 ≡ (contains small 65 && contains full 65))
    × (same_set small full ≡ true → contains small 65 ≡ contains full 65)
block_set_lem_example =
    block_set_lem 70 66 65 small full (Sized-new_set 70 false) (Sized-new_set 70 true) (omega arith)
      (omega arith)

abbrev no_floats : String → Option ℕ
no_floats text = none

-- A kernel with a guarded branch over one instruction.
abbrev source : String
source = ".entry k\n.param n\nld.param r1, [n]\n@p0 bra done\nadd r2, r1, -1\ndone: exit"

assemble_lem_example :
    (r : Result Program AssemblyError) × (assemble no_floats source ≡ some r) × Holds Assembled r
assemble_lem_example = assemble_lem no_floats source

integer_value-text_example :
    (integer_value (decimal_text 4294967295) ≡ some 4294967295)
    × (integer_value (hex 4294967295) ≡ some 4294967295)
integer_value-text_example = integer_value-text 4294967295 (omega arith)

register_index-reg_example :
    (register_index (reg 63) b'r' 64 ≡ some 63)
    × (predicate_name (pred 7) ≡ some 7)
    × (predicate_name (reg 63) ≡ none)
    × (register_index (pred 7) b'r' 64 ≡ none)
register_index-reg_example = register_index-reg 63 7 (omega arith) (omega arith)

abbrev zero_text : ℕ → String
zero_text bits = "0.0"

-- A load of a parameter that is not declared.
abbrev bad_program : Program
bad_program = record {
  entry = "k";
  params = [];
  shared_bytes = 0;
  words = 3314684514411741184 ∷ [];
  labels = [];
}

disassemble_lem_example :
    (r : Result String DisassemblyError) × (disassemble zero_text bad_program ≡ some r)
    × Explained bad_program r
disassemble_lem_example = disassemble_lem zero_text bad_program
