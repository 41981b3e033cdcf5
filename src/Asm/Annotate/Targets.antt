-- ===== src/Asm/Annotate/Targets.antt =====
-- When `annotate_reconvergence` (src/asm/reconvergence.cpp) fails: at the first branch out of range.
use warp_sim.Base.{
  ℕ, zero, suc, ◌+◌, ◌≤◌, ◌<◌, leb, ◌&&◌, ◌≡◌, ◌⊎◌, inl, inr, refl, arith, Bool, true, false, List,
  [], ◌∷◌, get_elem?, length, Bool-cases, some, Result, ok, fail, subst, replicate,
}
use warp_sim.Isa.Instruction.{Instruction, branch_target}
use warp_sim.Asm.Cfg.{
  Cfg, ReconvergenceError, mark_one, mark_leaders, build_cfg, is_bra, cfg_of, collect,
}

-- Instruction i branches to no instruction of a program of length n.
abbrev pub Stray : ℕ → Instruction → Type 0
Stray n i = (is_bra i ≡ true) × (n ≤ branch_target i)

-- The first stray branch of a program is at `pc`.
pub record FirstStray (n : ℕ) (program : List Instruction) (pc : ℕ) : Type 0 where
  pub at : Instruction
  pub found : get_elem? program pc ≡ some at
  pub stray : Stray n at
  pub first : (k : ℕ) (i : Instruction) → k < pc → get_elem? program k ≡ some i → ¬ Stray n i

-- The loop fails with an error at the first stray branch, or there is none.
Marked : ℕ → ℕ → List Instruction → Result (List Bool) ReconvergenceError → Type 0
Marked n pc program (fail e) = (k : ℕ) × (e.pc ≡ pc + k) × FirstStray n program k
Marked n pc program (ok flags) =
    (k : ℕ) (i : Instruction) → get_elem? program k ≡ some i → ¬ Stray n i

test-Stray : (n : ℕ) (i : Instruction) → (is_bra i && leb n (branch_target i)) ≡ true → Stray n i
test-Stray n i h = (ground (arith, h), ground (arith, h))

not-Stray : (n : ℕ) (i : Instruction) → (is_bra i && leb n (branch_target i)) ≡ false → ¬ Stray n i
not-Stray n i h (b, le) = ground (arith, h, b, le)

Marked-later :
    (n pc : ℕ) (i : Instruction) (is : List Instruction) (r : Result (List Bool) ReconvergenceError)
    → ¬ Stray n i
    → Marked n (pc + 1) is r
    → Marked n pc (i ∷ is) r
unfolding Marked
Marked-later n pc i is (fail e) fine (k, at, f) = (
  suc k,
  omega (arith, at),
  record { at = f.at; found = f.found; stray = f.stray; first = λ j x lt. before j x lt },
)
  where
    before : (j : ℕ) (x : Instruction) → j < suc k → get_elem? (i ∷ is) j ≡ some x → ¬ Stray n x
    before zero x lt here = subst (λ y. ¬ Stray n y) (cc here) fine
    before (suc j) x lt here = f.first j x (omega (arith, lt)) here
Marked-later n pc i is (ok flags) fine h = all
  where
    all : (k : ℕ) (x : Instruction) → get_elem? (i ∷ is) k ≡ some x → ¬ Stray n x
    all zero x here = subst (λ y. ¬ Stray n y) (cc here) fine
    all (suc k) x here = h k x here

mark_leaders-Marked :
    (n pc : ℕ) (program : List Instruction) (flags : List Bool)
    → Marked n pc program (mark_leaders n pc program flags)
unfolding mark_leaders Marked
mark_leaders-Marked n pc [] flags = λ k i h. cc
mark_leaders-Marked n pc (i ∷ is) flags = elim (Bool-cases (is_bra i && leb n (branch_target i))) [
  | inl stray ↦
      rw (mark_leaders, stray)
        (
          0,
          omega arith,
          record {
            at = i;
            found = refl;
            stray = test-Stray n i stray;
            first = λ k x lt h. absurd (omega (arith, lt));
          },
        )
  | inr fine ↦
      rw (mark_leaders, fine)
        (Marked-later n pc i is _ (not-Stray n i fine)
          (mark_leaders-Marked n (pc + 1) is (mark_one n pc i flags)))
]

-- What `build_cfg` returns for a program, errors included.
pub build_cfg-cases :
    (program : List Instruction)
    → ((e : ReconvergenceError) × (build_cfg program ≡ fail e)
        × FirstStray (length program) program e.pc)
      ⊎ ((cfg : Cfg) × (build_cfg program ≡ ok cfg)
          × ((k : ℕ) (i : Instruction) → get_elem? program k ≡ some i → ¬ Stray (length program) i))
unfolding build_cfg Marked
build_cfg-cases program =
    after (mark_leaders (length program) 0 program (replicate (length program + 1) false)) refl
  where
    start : List Bool
    start = replicate (length program + 1) false

    after :
        (r : Result (List Bool) ReconvergenceError)
        → mark_leaders (length program) 0 program start ≡ r
        → ((e : ReconvergenceError) × (build_cfg program ≡ fail e)
            × FirstStray (length program) program e.pc)
          ⊎ ((cfg : Cfg) × (build_cfg program ≡ ok cfg)
              × ((k : ℕ) (i : Instruction)
                  → get_elem? program k ≡ some i
                  → ¬ Stray (length program) i))
    after (fail e) h =
        let marked : Marked (length program) 0 program (fail e) =
          subst (λ r. Marked (length program) 0 program r) h
            (mark_leaders-Marked (length program) 0 program start) in
        let (k, at, f) = marked in
        inl (
          e,
          rw (build_cfg, h) refl,
          subst (λ p. FirstStray (length program) program p) (omega (arith, at)) f,
        )
    after (ok flags) h =
        let marked : Marked (length program) 0 program (ok flags) =
          subst (λ r. Marked (length program) 0 program r) h
            (mark_leaders-Marked (length program) 0 program start) in
        inr (
          cfg_of program
              (collect (length program) 0 flags (record { leaders = []; block_of = [] })),
          rw (build_cfg, h) refl,
          marked,
        )
