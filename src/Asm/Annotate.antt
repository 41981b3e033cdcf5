-- ===== src/Asm/Annotate.antt =====
-- `annotate_reconvergence` of src/asm/reconvergence.cpp. The result is `none` if the fuel of the
-- dataflow runs out; `Annotate.Points` is about that.
pub mod Points
pub mod Targets
use warp_sim.Base.{
  ℕ, ◌+◌, ◌%◌, ◌^◌, ◌==◌, if◌then◌else◌, not, Option, none, some, List, [], ◌∷◌, get_or, Result, ok,
  fail,
}
use warp_sim.Isa.Instruction.{Instruction, branch_target, make_branch_imm, no_reconvergence}
use warp_sim.Asm.Cfg.{Cfg, ReconvergenceError, build_cfg, is_bra}
use warp_sim.Asm.Dominators.{Sets, post_dominators, immediate_post_dominator}

module _ (cfg : Cfg) (pdom : Sets) where
  -- The reconvergence PC of a branch.
  unfoldable pub reconvergence_of : ℕ → Instruction → ℕ
  reconvergence_of pc i =
      let ipdom = immediate_post_dominator pdom (get_or cfg.block_of pc 0) in
      if not i.guard.present
      then no_reconvergence
      else if ipdom == cfg.exit_node
      then no_reconvergence
      else get_or cfg.leaders ipdom 0 % 2 ^ 16

  unfoldable pub annotate_one : ℕ → Instruction → Instruction
  unfolding reconvergence_of
  annotate_one pc i =
      if is_bra i
      then record i { imm = make_branch_imm (branch_target i) (reconvergence_of pc i) }
      else i

  -- The loop over the program, from `pc` on.
  unfoldable pub annotate_from : ℕ → List Instruction → List Instruction
  unfolding annotate_one
  annotate_from pc [] = []
  annotate_from pc (i ∷ is) = annotate_one pc i ∷ annotate_from (pc + 1) is

unfoldable pub annotate_reconvergence :
    List Instruction → Option (Result (List Instruction) ReconvergenceError)
unfolding annotate_from
annotate_reconvergence program = elim (build_cfg program) [
  | fail e ↦ some (fail e)
  | ok cfg ↦ elim (post_dominators cfg) [
    | none ↦ none
    | some pdom ↦ some (ok (annotate_from cfg pdom 0 program))
  ]
]
