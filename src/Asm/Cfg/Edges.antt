-- ===== src/Asm/Cfg/Edges.antt =====
-- The graph of `build_cfg` (src/asm/reconvergence.cpp): every instruction is in a block, every edge
-- leads to a node.
use mathlib.Core.List.{Memᴰ}
use mathlib.Core.List.Memᴰ
use warp_sim.Base.{
  ℕ, zero, suc, ◌+◌, ◌-◌, ◌≤◌, ◌<◌, ltb, ◌==◌, ◌≡◌, ◌||◌, inl, inr, refl, arith, if◌then◌else◌,
  Bool, true, false, List, [], ◌∷◌, ◌++◌, get_or, length, length-append, Bool-cases, subst, Result,
  ok, fail,
}
use warp_sim.Isa.Instruction.{Instruction, branch_target}
use warp_sim.Asm.Cfg.{
  Cfg, ReconvergenceError, Blocks, add_pc, collect, fallthrough, edges, last_of, successors, cfg_of,
  build_cfg, is_bra, is_exit,
}

pub get_or-append :
    (xs : List ℕ) (v i : ℕ)
    → get_or (xs ++ (v ∷ [])) i 0 ≡ (if i == length xs then v else get_or xs i 0)
get_or-append [] v zero = ground arith
get_or-append [] v (suc i) = ground arith
get_or-append (x ∷ xs) v zero = ground arith
get_or-append (x ∷ xs) v (suc i) = ground (arith, get_or-append xs v i)

get_or-beyond : (xs : List ℕ) (i : ℕ) → length xs ≤ i → get_or xs i 0 ≡ 0
get_or-beyond [] i le = refl
get_or-beyond (x ∷ xs) zero le = absurd (omega (arith, le))
get_or-beyond (x ∷ xs) (suc i) le = get_or-beyond xs i (omega (arith, le))

-- Every instruction so far is in a block so far.
record Placed (s : Blocks) : Type 0 where
  pub in_block : (i : ℕ) → i < length s.block_of → get_or s.block_of i 0 < length s.leaders
  pub some_block : 0 < length s.block_of → 0 < length s.leaders

add_pc-lengths :
    (flags : List Bool) (pc : ℕ) (s : Blocks)
    → pc ≡ length s.block_of
    → Placed s
    → (length s.leaders ≤ length (add_pc flags pc s).leaders)
      × (0 < length (add_pc flags pc s).leaders)
      × (length (add_pc flags pc s).block_of ≡ length s.block_of + 1)
unfolding add_pc
add_pc-lengths flags pc s e h =
    let grown = length-append s.leaders (pc ∷ []) in
    (
      ground (arith, grown),
      ground (arith, grown, e, h.some_block),
      length-append s.block_of (
          (length (if pc == 0 || get_or flags pc false then s.leaders ++ (pc ∷ []) else s.leaders)
            - 1)
          ∷ []),
    )

add_pc-entry :
    (flags : List Bool) (pc : ℕ) (s : Blocks) (i : ℕ)
    → get_or (add_pc flags pc s).block_of i 0 ≡ (
        if i == length s.block_of
        then length (add_pc flags pc s).leaders - 1
        else get_or s.block_of i 0)
unfolding add_pc
add_pc-entry flags pc s i = get_or-append s.block_of _ i

add_pc-Placed :
    (flags : List Bool) (pc : ℕ) (s : Blocks)
    → pc ≡ length s.block_of
    → Placed s
    → Placed (add_pc flags pc s)
add_pc-Placed flags pc s e h =
    let (le, some', len) = add_pc-lengths flags pc s e h in
    record {
      in_block =
          λ i lt. ground (arith, add_pc-entry flags pc s i, le, some', len, lt, h.in_block i);
      some_block = λ lt. some';
    }

collect-Placed :
    (rounds pc : ℕ) (flags : List Bool) (s : Blocks)
    → pc ≡ length s.block_of
    → Placed s
    → Placed (collect rounds pc flags s)
      × (length (collect rounds pc flags s).block_of ≡ pc + rounds)
unfolding collect
collect-Placed zero pc flags s e h = (h, omega (arith, e))
collect-Placed (suc rounds) pc flags s e h =
    let (le, some', len) = add_pc-lengths flags pc s e h in
    let (placed, total) =
      collect-Placed rounds (pc + 1) flags (add_pc flags pc s) (omega (arith, e, len))
        (add_pc-Placed flags pc s e h) in
    (placed, omega (arith, total))

abbrev AllLe : ℕ → List ℕ → Type 0
AllLe k xs = (x : ℕ) → Memᴰ x xs → x ≤ k

AllLe-one : (k x : ℕ) → x ≤ k → AllLe k (x ∷ [])
AllLe-one k x le y (Memᴰ.head e) = omega (arith, le, e)
AllLe-one k x le y (Memᴰ.tail m) = absurd (Memᴰ.not-nil m)

AllLe-cons : (k x : ℕ) (xs : List ℕ) → x ≤ k → AllLe k xs → AllLe k (x ∷ xs)
AllLe-cons k x xs le h y (Memᴰ.head e) = omega (arith, le, e)
AllLe-cons k x xs le h y (Memᴰ.tail m) = h y m

AllLe-nil : (k : ℕ) → AllLe k []
AllLe-nil k y m = absurd (Memᴰ.not-nil m)

module _ (program : List Instruction) (s : Blocks) (h : Placed s) where
  block_of-le : (i : ℕ) → get_or s.block_of i 0 ≤ length s.leaders
  block_of-le i = elim (Bool-cases (ltb i (length s.block_of))) [
    | inl inside ↦ ground (arith, inside, h.in_block i)
    | inr beyond ↦ ground (arith, beyond, get_or-beyond s.block_of i)
  ]

  fallthrough-le : (last : ℕ) → fallthrough program s last ≤ length s.leaders
  unfolding fallthrough
  fallthrough-le last = ground (arith, block_of-le (last + 1))

  guarded_edge-AllLe :
      (guarded : Bool) (last : ℕ)
      → AllLe (length s.leaders) (if guarded then fallthrough program s last ∷ [] else [])
  guarded_edge-AllLe true last = AllLe-one (length s.leaders) _ (fallthrough-le last)
  guarded_edge-AllLe false last = AllLe-nil (length s.leaders)

  edges-AllLe : (i : Instruction) (last : ℕ) → AllLe (length s.leaders) (edges program s i last)
  unfolding edges
  edges-AllLe i last = elim (Bool-cases (is_bra i)) [
    | inl bra ↦
        rw (edges, bra)
          (AllLe-cons (length s.leaders) _ _ (block_of-le (branch_target i))
            (guarded_edge-AllLe i.guard.present last))
    | inr other ↦ elim (Bool-cases (is_exit i)) [
      | inl exit ↦
          rw (edges, other, exit)
            (AllLe-cons (length s.leaders) _ _ (omega arith)
              (guarded_edge-AllLe i.guard.present last))
      | inr plain ↦ rw (edges, other, plain) (AllLe-one (length s.leaders) _ (fallthrough-le last))
    ]
  ]

  successors-AllLe :
      (rounds b k : ℕ) → AllLe (length s.leaders) (get_or (successors program s rounds b) k [])
  unfolding successors
  successors-AllLe zero b zero = AllLe-nil (length s.leaders)
  successors-AllLe zero b (suc k) = AllLe-nil (length s.leaders)
  successors-AllLe (suc rounds) b zero = edges-AllLe _ (last_of program s b)
  successors-AllLe (suc rounds) b (suc k) = successors-AllLe rounds (b + 1) k

no_blocks : Placed (record { leaders = []; block_of = [] })
no_blocks = record {
  in_block = λ i lt. absurd (omega (arith, lt));
  some_block = λ lt. absurd (omega (arith, lt));
}

built :
    (program : List Instruction) (r : Result (List Bool) ReconvergenceError) (cfg : Cfg)
    → ◌≡◌ {A = Result Cfg ReconvergenceError}
        (elim r [
          | fail e ↦ fail e
          | ok flags ↦ ok (
              cfg_of program
                (collect (length program) 0 flags (record { leaders = []; block_of = [] })))
        ])
        (ok cfg)
    → (s : Blocks) × (cfg_of program s ≡ cfg) × Placed s × (length s.block_of ≡ length program)
built program (fail e) cfg h = cc
built program (ok flags) cfg h =
    let (placed, len) = collect-Placed (length program) 0 flags _ refl no_blocks in
    (_, cc h, placed, omega (arith, len))

-- A graph that `build_cfg` returns: every instruction of the program is in a block, and every edge
-- leads to a block or to the virtual exit node.
pub build_cfg-fits :
    (program : List Instruction) (cfg : Cfg)
    → build_cfg program ≡ ok cfg
    → ((pc : ℕ) → pc < length program → get_or cfg.block_of pc 0 < cfg.exit_node)
      × ((b x : ℕ) → Memᴰ x (get_or cfg.succs b []) → x ≤ cfg.exit_node)
unfolding build_cfg cfg_of
build_cfg-fits program cfg e =
    let (s, same, placed, len) = built program _ cfg e in
    subst
      (λ (c : Cfg).
        ((pc : ℕ) → pc < length program → get_or c.block_of pc 0 < c.exit_node)
        × ((b x : ℕ) → Memᴰ x (get_or c.succs b []) → x ≤ c.exit_node))
      same
      (
        λ pc lt. placed.in_block pc (omega (arith, lt, len)),
        λ b x m. successors-AllLe program s placed (length s.leaders) 0 b x m,
      )
