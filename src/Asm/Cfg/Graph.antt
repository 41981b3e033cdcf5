-- ===== src/Asm/Cfg/Graph.antt =====
-- The control-flow graph of docs/wisa-spec.md section 8.1, and that `build_cfg` of
-- src/asm/reconvergence.cpp builds it.
use mathlib.Core.List.{Memᴰ}
use warp_sim.Base.{
  ℕ, zero, suc, ◌+◌, ◌≤◌, ◌<◌, ◌≡◌, ◌≢◌, ◌↔◌, refl, sym, arith, Bool, false, List, [], ◌∷◌, get_or,
  get_elem?, some, length, subst, Result, ok, fail, replicate,
}
use warp_sim.Isa.Instruction.{Instruction}
use warp_sim.Asm.Cfg.{
  Cfg, ReconvergenceError, Blocks, default_instruction, collect, mark_leaders, edges, last_of,
  successors, cfg_of, build_cfg,
}
use warp_sim.Asm.Cfg.Leaders.{Begins, begins, begins-Begins, Begins-begins, mark_leaders-begins}
use warp_sim.Asm.Cfg.Successors.{Edge, edges-Edge, Edge-edges}
use warp_sim.Asm.Cfg.Partition.{Cut, Cut-none, collect-Cut}
use warp_sim.Asm.Cfg.Ends.{block_end, block_end-bounds, block_of_unique, block_end-leaves}

-- The block b ends with the instruction at `last`.
pub record IsLast (program : List Instruction) (cfg : Cfg) (b last : ℕ) : Type 0 where
  pub inside : last < length program
  pub here : get_or cfg.block_of last 0 ≡ b
  pub leaves : last + 1 < length program → get_or cfg.block_of (last + 1) 0 ≢ b

pub record IsCfg (program : List Instruction) (cfg : Cfg) : Type 0 where
  pub block_count : length cfg.leaders ≡ cfg.exit_node
  pub all_placed : length cfg.block_of ≡ length program
  pub leader_inside : (b : ℕ) → b < cfg.exit_node → get_or cfg.leaders b 0 < length program
  pub leader_begins : (b : ℕ) → b < cfg.exit_node → Begins program (get_or cfg.leaders b 0)
  pub begins_leader :
      (pc : ℕ)
      → pc < length program
      → Begins program pc
      → get_or cfg.leaders (get_or cfg.block_of pc 0) 0 ≡ pc
  pub ascending :
      (b : ℕ) → b + 1 < cfg.exit_node → get_or cfg.leaders b 0 < get_or cfg.leaders (b + 1) 0
  pub in_block : (pc : ℕ) → pc < length program → get_or cfg.block_of pc 0 < cfg.exit_node
  pub not_before :
      (pc : ℕ) → pc < length program → get_or cfg.leaders (get_or cfg.block_of pc 0) 0 ≤ pc
  pub before_next :
      (pc : ℕ)
      → pc < length program
      → get_or cfg.block_of pc 0 + 1 < cfg.exit_node
      → pc < get_or cfg.leaders (get_or cfg.block_of pc 0 + 1) 0
  pub edges_are :
      (b : ℕ)
      → b < cfg.exit_node
      → (last : ℕ) × (i : Instruction) × IsLast program cfg b last
        × (get_elem? program last ≡ some i)
        × ((x : ℕ) → Memᴰ x (get_or cfg.succs b []) ↔ Edge program cfg last i x)
  pub exit_ends : get_or cfg.succs cfg.exit_node [] ≡ []

-- The lists that the third loop makes.
module _ (program : List Instruction) (s : Blocks) where
  get_or-successors :
      (rounds b k : ℕ)
      → k < rounds
      → get_or (successors program s rounds b) k []
        ≡ edges program s
            (get_or program (last_of program s (b + k)) default_instruction)
            (last_of program s (b + k))
  unfolding successors
  get_or-successors zero b k lt = absurd (omega (arith, lt))
  get_or-successors (suc rounds) b zero lt = let same : b + 0 ≡ b = omega arith in rw same refl
  get_or-successors (suc rounds) b (suc k) lt =
      let same : b + 1 + k ≡ b + suc k = omega arith in
      rw (sym same) (get_or-successors rounds (b + 1) k (omega (arith, lt)))

  get_or-successors-end : (rounds b : ℕ) → get_or (successors program s rounds b) rounds [] ≡ []
  unfolding successors
  get_or-successors-end zero b = refl
  get_or-successors-end (suc rounds) b = get_or-successors-end rounds (b + 1)

get_elem?-get_or :
    (xs : List Instruction) (k : ℕ) (d : Instruction)
    → k < length xs
    → get_elem? xs k ≡ some (get_or xs k d)
get_elem?-get_or [] k d lt = absurd (omega (arith, lt))
get_elem?-get_or (x ∷ xs) zero d lt = refl
get_elem?-get_or (x ∷ xs) (suc k) d lt = get_elem?-get_or xs k d (omega (arith, lt))

module _ (program : List Instruction) (s : Blocks)
    (h : Cut (begins program) (length program) s.leaders s.block_of) where
  block_edges :
      (b : ℕ)
      → b < length s.leaders
      → (last : ℕ) × (i : Instruction) × IsLast program (cfg_of program s) b last
        × (get_elem? program last ≡ some i)
        × ((x : ℕ)
            → Memᴰ x (get_or (cfg_of program s).succs b [])
              ↔ Edge program (cfg_of program s) last i x)
  unfolding cfg_of
  block_edges b lt =
      let n : ℕ = length program in
      let (after, within) = block_end-bounds (begins program) n s.leaders s.block_of h b lt in
      let last : ℕ = last_of program s b in
      let end : last + 1 ≡ block_end n s.leaders b =
        unfold last_of block_end in ground (arith, after) in
      let i : Instruction = get_or program last default_instruction in
      let inside : last < n = omega (arith, end, within) in
      let same : get_or (successors program s (length s.leaders) 0) b [] ≡ edges program s i last =
        let start : 0 + b ≡ b = omega arith in
        subst
          (λ c.
            get_or (successors program s (length s.leaders) 0) b []
            ≡ edges program s (get_or program (last_of program s c) default_instruction)
                (last_of program s c))
          start (get_or-successors program s (length s.leaders) 0 b lt) in
      (
        last,
        i,
        record {
          inside = inside;
          here =
              block_of_unique (begins program) n s.leaders s.block_of h b last lt
                (omega (arith, after, end)) (omega (arith, end));
          leaves = λ more. rw end (
              block_end-leaves (begins program) n s.leaders s.block_of h b lt
                (omega (arith, end, more)));
        },
        get_elem?-get_or program last default_instruction inside,
        λ x.
            rw same (
              (λ m. edges-Edge program s i last x inside m),
              (λ e. Edge-edges program s i last x e),
            ),
      )

  cfg_of-IsCfg : IsCfg program (cfg_of program s)
  unfolding cfg_of
  cfg_of-IsCfg = record {
    block_count = refl;
    all_placed = h.placed_all;
    leader_inside = h.leader_below;
    leader_begins = λ b lt. begins-Begins program _ (h.leader_begins b lt);
    begins_leader = λ pc lt begin. h.own pc lt (Begins-begins program pc begin);
    ascending = h.ascending;
    in_block = h.in_block;
    not_before = h.not_before;
    before_next = h.before_next;
    edges_are = block_edges;
    exit_ends = get_or-successors-end program s (length s.leaders) 0;
  }

-- A graph that `build_cfg` returns is that of section 8.1: its blocks begin exactly at PC 0, at the
-- targets of the branches and after each `bra` and `exit`, in the order of the program; every
-- instruction is in the block whose leader is the last one not after it; and the successors of a block
-- are exactly these: the block of the target, if the block ends in a `bra`; the virtual exit node, if it
-- ends in an `exit`; and the block of the next instruction, or the exit node at the end of the program,
-- if its last instruction is guarded or is neither.
pub build_cfg_lem :
    (program : List Instruction) (cfg : Cfg) → build_cfg program ≡ ok cfg → IsCfg program cfg
unfolding build_cfg
build_cfg_lem program cfg e =
    after_marks (mark_leaders (length program) 0 program (replicate (length program + 1) false))
      refl e
  where
    blocks : List Bool → Blocks
    blocks flags = collect (length program) 0 flags (record { leaders = []; block_of = [] })

    whole :
        {leaders block_of : List ℕ}
        → Cut (begins program) (0 + length program) leaders block_of
        → Cut (begins program) (length program) leaders block_of
    whole c = let start : 0 + length program ≡ length program = omega arith in rw (sym start) c

    after_marks :
        (r : Result (List Bool) ReconvergenceError)
        → mark_leaders (length program) 0 program (replicate (length program + 1) false) ≡ r
        → ◌≡◌ {A = Result Cfg ReconvergenceError}
            (elim r [ fail x ↦ fail x | ok flags ↦ ok (cfg_of program (blocks flags)) ])
            (ok cfg)
        → IsCfg program cfg
    after_marks (fail x) m h = absurd (cc (h))
    after_marks (ok flags) m h = subst (IsCfg program) (cc (h)) (
        cfg_of-IsCfg program (blocks flags) (
          whole (
            collect-Cut (begins program) flags (length program) 0 _
              (λ p lt. mark_leaders-begins program {out = flags} p (omega (arith, lt)) m)
              (Begins-begins program 0 Begins.first) (Cut-none (begins program)))))
