-- ===== src/Asm/Annotate/Points.antt =====
-- What `annotate_reconvergence` (src/asm/reconvergence.cpp) writes: docs/wisa-spec.md section 8.2.
use mathlib.Core.Option.{some-injective}
use warp_sim.Base.{
  ℕ, zero, suc, ◌+◌, ◌%◌, ◌^◌, ◌<◌, ◌==◌, ◌≡◌, ◌⊎◌, inl, inr, refl, sym, ◌∙◌, ap, arith,
  if◌then◌else◌, true, false, List, [], ◌∷◌, get_or, get_elem?, length, Bool-cases, some, ok, fail,
  subst,
}
use warp_sim.Isa.Instruction.{
  Instruction, branch_target, reconvergence_pc, make_branch_imm, no_reconvergence,
}
use warp_sim.Isa.Branch.{make_branch_imm_fields}
use warp_sim.Asm.Cfg.{Cfg, ReconvergenceError, build_cfg, is_bra}
use warp_sim.Asm.Cfg.Edges.{build_cfg-fits}
use warp_sim.Asm.Cfg.Graph.{IsCfg, build_cfg_lem}
use warp_sim.Asm.Dominators.{Sets, post_dominators, immediate_post_dominator}
use warp_sim.Asm.Dominators.Paths.{ToExit, EdgesFit}
use warp_sim.Asm.Dominators.Fixed.{post_dominators_total}
use warp_sim.Asm.Dominators.Immediate.{IsImmediate, immediate_post_dominator_lem}
use warp_sim.Asm.Annotate.{reconvergence_of, annotate_one, annotate_from, annotate_reconvergence}
use warp_sim.Asm.Annotate.Targets.{Stray, FirstStray, build_cfg-cases}

-- The reconvergence PC that stands for node d of the graph.
abbrev pub point : Cfg → ℕ → ℕ
point cfg d = if d == cfg.exit_node then no_reconvergence else get_or cfg.leaders d 0 % 2 ^ 16

-- What the annotation makes of instruction i in block b.
pub record Annotated (cfg : Cfg) (b : ℕ) (i j : Instruction) : Type 0 where
  pub other_same : is_bra i ≡ false → j ≡ i
  pub rest_same : record j { imm = i.imm } ≡ i
  pub imm_fits : is_bra i ≡ true → j.imm < 2 ^ 32
  pub target_same : branch_target j ≡ branch_target i
  pub unguarded : is_bra i ≡ true → i.guard.present ≡ false → reconvergence_pc j ≡ no_reconvergence
  pub guarded :
      (n : ℕ)
      → is_bra i ≡ true
      → i.guard.present ≡ true
      → ToExit cfg b n
      → (d : ℕ) × IsImmediate cfg d b × (reconvergence_pc j ≡ point cfg d)

reconvergence_of-lt :
    (cfg : Cfg) (pdom : Sets) (pc : ℕ) (i : Instruction) → reconvergence_of cfg pdom pc i < 2 ^ 16
unfolding reconvergence_of
reconvergence_of-lt cfg pdom pc i = ground arith

branch_target-lt : (i : Instruction) → branch_target i < 2 ^ 16
unfolding branch_target
branch_target-lt i = omega arith

-- The two halves of the immediate of an annotated branch.
annotate_one-fields :
    (cfg : Cfg) (pdom : Sets) (pc : ℕ) (i : Instruction)
    → is_bra i ≡ true
    → (branch_target (annotate_one cfg pdom pc i) ≡ branch_target i)
      × (reconvergence_pc (annotate_one cfg pdom pc i) ≡ reconvergence_of cfg pdom pc i)
      × ((annotate_one cfg pdom pc i).imm < 2 ^ 32)
annotate_one-fields cfg pdom pc i bra =
    let made : (annotate_one cfg pdom pc i).imm
        ≡ make_branch_imm (branch_target i) (reconvergence_of cfg pdom pc i) =
      unfold annotate_one in rw bra refl in
    make_branch_imm_fields (annotate_one cfg pdom pc i) (branch_target i)
      (reconvergence_of cfg pdom pc i) (branch_target-lt i) (reconvergence_of-lt cfg pdom pc i) made

module _ (cfg : Cfg) (pdom : Sets) where
  annotate_one-other :
      (pc : ℕ) (i : Instruction) → is_bra i ≡ false → annotate_one cfg pdom pc i ≡ i
  unfolding annotate_one
  annotate_one-other pc i other = rw other refl

  annotate_one-rest :
      (pc : ℕ) (i : Instruction) → record (annotate_one cfg pdom pc i) { imm = i.imm } ≡ i
  unfolding annotate_one
  annotate_one-rest pc i = elim (Bool-cases (is_bra i)) [
    | inl bra ↦ rw bra refl
    | inr other ↦ rw other refl
  ]

  annotate_one-target :
      (pc : ℕ) (i : Instruction) → branch_target (annotate_one cfg pdom pc i) ≡ branch_target i
  annotate_one-target pc i = elim (Bool-cases (is_bra i)) [
    | inl bra ↦ (annotate_one-fields cfg pdom pc i bra).0
    | inr other ↦ ap branch_target (annotate_one-other pc i other)
  ]

  annotate_one-Annotated :
      ((b n : ℕ)
        → b < cfg.exit_node
        → ToExit cfg b n
        → IsImmediate cfg (immediate_post_dominator pdom b) b)
      → (pc : ℕ) (i : Instruction) → get_or cfg.block_of pc 0 < cfg.exit_node
      → Annotated cfg (get_or cfg.block_of pc 0) i (annotate_one cfg pdom pc i)
  annotate_one-Annotated immediate pc i inside = record {
    other_same = annotate_one-other pc i;
    rest_same = annotate_one-rest pc i;
    imm_fits = λ bra. (annotate_one-fields cfg pdom pc i bra).2;
    target_same = annotate_one-target pc i;
    unguarded = λ bra bare.
        (annotate_one-fields cfg pdom pc i bra).1 ∙ (unfold reconvergence_of in rw bare refl);
    guarded = λ n bra guard path. (
      immediate_post_dominator pdom (get_or cfg.block_of pc 0),
      immediate (get_or cfg.block_of pc 0) n inside path,
      (annotate_one-fields cfg pdom pc i bra).1 ∙ (unfold reconvergence_of in rw guard refl),
    );
  }

  get_elem?-annotate_from :
      (program : List Instruction) (first k : ℕ) (i : Instruction)
      → get_elem? program k ≡ some i
      → get_elem? (annotate_from cfg pdom first program) k
        ≡ some (annotate_one cfg pdom (first + k) i)
  unfolding annotate_from
  get_elem?-annotate_from [] first k i h = cc
  get_elem?-annotate_from (x ∷ xs) first zero i h =
      let same : first + 0 ≡ first = omega arith in rw (same, some-injective _ _ h) refl
  get_elem?-annotate_from (x ∷ xs) first (suc k) i h =
      get_elem?-annotate_from xs (first + 1) k i h
      ∙ ap (λ (p : ℕ). some (annotate_one cfg pdom p i)) (omega arith)

  length-annotate_from :
      (program : List Instruction) (first : ℕ)
      → length (annotate_from cfg pdom first program) ≡ length program
  unfolding annotate_from
  length-annotate_from [] first = refl
  length-annotate_from (x ∷ xs) first = ap suc (length-annotate_from xs (first + 1))

pub get_elem?-lt :
    (xs : List Instruction) (k : ℕ) (i : Instruction) → get_elem? xs k ≡ some i → k < length xs
get_elem?-lt [] k i h = cc
get_elem?-lt (x ∷ xs) zero i h = omega arith
get_elem?-lt (x ∷ xs) (suc k) i h = omega (arith, get_elem?-lt xs k i h)

-- Every instruction of the new program is what the annotation makes of the old one at the same place.
abbrev pub IsAnnotation : Cfg → List Instruction → List Instruction → Type 0
IsAnnotation cfg program out =
    (length out ≡ length program)
    × ((pc : ℕ) (i : Instruction)
        → get_elem? program pc ≡ some i
        → (j : Instruction) × (get_elem? out pc ≡ some j)
          × Annotated cfg (get_or cfg.block_of pc 0) i j)

annotation :
    (program : List Instruction) (cfg : Cfg)
    → build_cfg program ≡ ok cfg
    → (out : List Instruction) × (annotate_reconvergence program ≡ some (ok out))
      × IsAnnotation cfg program out
unfolding annotate_reconvergence
annotation program cfg e =
    let (placed, fit) = build_cfg-fits program cfg e in
    let (pdom, ends, sound, all) = post_dominators_total cfg fit in
    (
      annotate_from cfg pdom 0 program,
      rw (annotate_reconvergence, e, ends) refl,
      (
        length-annotate_from cfg pdom program 0,
        λ pc i here. (
          annotate_one cfg pdom pc i,
          get_elem?-annotate_from cfg pdom program 0 pc i here
              ∙ ap (λ (p : ℕ). some (annotate_one cfg pdom p i)) (omega arith),
          annotate_one-Annotated cfg pdom (immediate pdom ends fit) pc i
              (placed pc (get_elem?-lt program pc i here)),
        ),
      ),
    )
  where
    immediate :
        (pdom : Sets)
        → post_dominators cfg ≡ some pdom
        → EdgesFit cfg
        → (b n : ℕ) → b < cfg.exit_node
        → ToExit cfg b n
        → IsImmediate cfg (immediate_post_dominator pdom b) b
    immediate pdom ends fit b n inside path =
        let (q, found, h) = immediate_post_dominator_lem cfg b n fit inside path in
        subst (λ p. IsImmediate cfg (immediate_post_dominator p b) b)
          (some-injective _ _ (sym found ∙ ends)) h

-- For every program, `annotate_reconvergence` ends. It fails exactly at the first branch whose target
-- is no instruction. Otherwise it returns a program that differs in the immediates of branches only,
-- where the target is kept. Its graph is the control-flow graph of section 8.1: the blocks begin where
-- that section says, and each has exactly the edges it names. The reconvergence point of an unguarded
-- branch is 0xFFFF, and that of a guarded branch whose block has a path to the exit is, modulo 2 ^ 16, the
-- PC of the first instruction of the block's immediate post-dominator, or 0xFFFF if that is the virtual
-- exit node.
pub annotate_reconvergence_lem :
    (program : List Instruction)
    → ((e : ReconvergenceError) × (annotate_reconvergence program ≡ some (fail e))
        × FirstStray (length program) program e.pc)
      ⊎ ((cfg : Cfg) × (out : List Instruction) × (build_cfg program ≡ ok cfg)
          × (annotate_reconvergence program ≡ some (ok out))
          × IsCfg program cfg
          × IsAnnotation cfg program out
          × ((k : ℕ) (i : Instruction) → get_elem? program k ≡ some i → ¬ Stray (length program) i))
unfolding annotate_reconvergence
annotate_reconvergence_lem program = elim (build_cfg-cases program) [
  | inl (e, failed, stray) ↦ inl (e, rw (annotate_reconvergence, failed) refl, stray)
  | inr (cfg, built, fine) ↦
      let (out, ends, h) = annotation program cfg built in
      inr (cfg, out, built, ends, build_cfg_lem program cfg built, h, fine)
]
