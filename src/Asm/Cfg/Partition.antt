-- ===== src/Asm/Cfg/Partition.antt =====
-- The second loop of `build_cfg` in src/asm/reconvergence.cpp cuts the program into blocks: what
-- `leaders` and `block_of` hold after each round, for a test `f` that says where a block begins.
use warp_sim.Base.{
  ℕ, zero, suc, ◌+◌, ◌-◌, ◌≤◌, ◌<◌, ◌==◌, ==_iff, ◌≡◌, ◌||◌, inl, inr, refl, ap, arith,
  if◌then◌else◌, Bool, true, false, List, [], ◌∷◌, ◌++◌, get_or, length, length-append, Bool-cases,
  subst,
}
use warp_sim.Asm.Cfg.{Blocks, add_pc, collect}
use warp_sim.Asm.Cfg.Edges.{get_or-append}

-- The blocks of the instructions below `pc`: a block's leader is where a block begins, the leaders
-- ascend, and each instruction is in the block whose leader is the last one not after it.
pub record Cut (f : ℕ → Bool) (pc : ℕ) (leaders block_of : List ℕ) : Type 0 where
  pub placed_all : length block_of ≡ pc
  pub some_block : 0 < pc → 0 < length leaders
  pub leader_below : (b : ℕ) → b < length leaders → get_or leaders b 0 < pc
  pub leader_begins : (b : ℕ) → b < length leaders → f (get_or leaders b 0) ≡ true
  pub ascending : (b : ℕ) → b + 1 < length leaders → get_or leaders b 0 < get_or leaders (b + 1) 0
  pub in_block : (p : ℕ) → p < pc → get_or block_of p 0 < length leaders
  pub not_before : (p : ℕ) → p < pc → get_or leaders (get_or block_of p 0) 0 ≤ p
  pub before_next :
      (p : ℕ)
      → p < pc
      → get_or block_of p 0 + 1 < length leaders
      → p < get_or leaders (get_or block_of p 0 + 1) 0
  pub own : (p : ℕ) → p < pc → f p ≡ true → get_or leaders (get_or block_of p 0) 0 ≡ p

module _ (f : ℕ → Bool) (pc : ℕ) (leaders block_of : List ℕ) (h : Cut f pc leaders block_of) where
  -- The leader, or block, at an index of a list with one more.
  leader_at :
      (b : ℕ)
      → get_or (leaders ++ (pc ∷ [])) b 0 ≡ (if b == length leaders then pc else get_or leaders b 0)
  leader_at b = get_or-append leaders pc b

  placed_at :
      (v p : ℕ) → get_or (block_of ++ (v ∷ [])) p 0 ≡ (if p == pc then v else get_or block_of p 0)
  placed_at v p = rw (get_or-append block_of v p, h.placed_all) refl

  opened : f pc ≡ true → Cut f (pc + 1) (leaders ++ (pc ∷ [])) (block_of ++ (length leaders ∷ []))
  opened begin =
      let grown : length (leaders ++ (pc ∷ [])) ≡ length leaders + 1 =
        length-append leaders (pc ∷ []) in
      let longer : length (block_of ++ (length leaders ∷ [])) ≡ length block_of + 1 =
        length-append block_of (length leaders ∷ []) in
      record {
        placed_all = omega (arith, longer, h.placed_all);
        some_block = λ lt. omega (arith, grown);
        leader_below = λ b lt. ground (arith, leader_at b, grown, lt, h.leader_below b);
        leader_begins = λ b lt. elim (Bool-cases (b == length leaders)) [
          | inl e ↦ rw (leader_at b, e) begin
          | inr e ↦ rw (leader_at b, e) (h.leader_begins b (ground (arith, e, lt, grown)))
        ];
        ascending = λ b lt.
            ground
              (arith, leader_at b, leader_at (b + 1), grown, lt, h.leader_below b, h.ascending b);
        in_block = λ p lt. ground (arith, placed_at (length leaders) p, grown, lt, h.in_block p);
        not_before = λ p lt. elim (Bool-cases (p == pc)) [
          | inl e ↦
              rw (placed_at (length leaders) p, e) (ground (arith, leader_at (length leaders), e))
          | inr e ↦
              rw (placed_at (length leaders) p, e)
                (ground
                  (arith, e, lt, leader_at (get_or block_of p 0), h.in_block p, h.not_before p))
        ];
        before_next = λ p lt. elim (Bool-cases (p == pc)) [
          | inl e ↦ rw (placed_at (length leaders) p, e) (λ k. absurd (omega (arith, k, grown)))
          | inr e ↦
              rw (placed_at (length leaders) p, e)
                (λ k. ground (
                  arith,
                  e,
                  lt,
                  leader_at (get_or block_of p 0 + 1),
                  h.in_block p,
                  h.before_next p,
                ))
        ];
        own = λ p lt begin'. elim (Bool-cases (p == pc)) [
          | inl e ↦
              rw (placed_at (length leaders) p, e) (ground (arith, leader_at (length leaders), e))
          | inr e ↦
              rw (placed_at (length leaders) p, e)
                (ground (
                  arith,
                  e,
                  lt,
                  leader_at (get_or block_of p 0),
                  h.in_block p,
                  h.own p (ground (arith, e, lt)) begin',
                ))
        ];
      }

  stayed : f pc ≡ false → 0 < pc → Cut f (pc + 1) leaders (block_of ++ ((length leaders - 1) ∷ []))
  stayed inside some =
      let longer : length (block_of ++ ((length leaders - 1) ∷ [])) ≡ length block_of + 1 =
        length-append block_of ((length leaders - 1) ∷ []) in
      let any : 0 < length leaders = h.some_block some in
      record {
        placed_all = omega (arith, longer, h.placed_all);
        some_block = λ lt. any;
        leader_below = λ b lt. omega (arith, h.leader_below b lt);
        leader_begins = h.leader_begins;
        ascending = h.ascending;
        in_block = λ p lt. ground (arith, placed_at (length leaders - 1) p, lt, any, h.in_block p);
        not_before = λ p lt. elim (Bool-cases (p == pc)) [
          | inl e ↦
              rw (placed_at (length leaders - 1) p, e)
                (ground (arith, e, any, h.leader_below (length leaders - 1)))
          | inr e ↦
              rw (placed_at (length leaders - 1) p, e) (h.not_before p (ground (arith, e, lt)))
        ];
        before_next = λ p lt. elim (Bool-cases (p == pc)) [
          | inl e ↦ rw (placed_at (length leaders - 1) p, e) (λ k. absurd (omega (arith, k)))
          | inr e ↦
              rw (placed_at (length leaders - 1) p, e) (h.before_next p (ground (arith, e, lt)))
        ];
        own = λ p lt begin. elim (Bool-cases (p == pc)) [
          | inl e ↦ absurd (cc (begin, inside, ap f ((==_iff p pc).0 e)))
          | inr e ↦ rw (placed_at (length leaders - 1) p, e) (h.own p (ground (arith, e, lt)) begin)
        ];
      }

-- One round of the loop, where the flags say what `f` says of `pc`.
add_pc-Cut :
    (f : ℕ → Bool) (flags : List Bool) (pc : ℕ) (s : Blocks)
    → (pc == 0 || get_or flags pc false) ≡ f pc
    → f 0 ≡ true
    → Cut f pc s.leaders s.block_of
    → Cut f (pc + 1) (add_pc flags pc s).leaders (add_pc flags pc s).block_of
unfolding add_pc
add_pc-Cut f flags pc s same zero_begins h = elim (Bool-cases (f pc)) [
  | inl begin ↦
      let last : length (s.leaders ++ (pc ∷ [])) - 1 ≡ length s.leaders =
        omega (arith, length-append s.leaders (pc ∷ [])) in
      rw (same, begin, last) (opened f pc s.leaders s.block_of h begin)
  | inr inside ↦
      rw (same, inside) (stayed f pc s.leaders s.block_of h inside (later pc zero_begins inside))
]
  where
    later : (n : ℕ) → f 0 ≡ true → f n ≡ false → 0 < n
    later zero a b = absurd (cc (a, b))
    later (suc n) a b = omega arith

pub collect-Cut :
    (f : ℕ → Bool) (flags : List Bool) (rounds pc : ℕ) (s : Blocks)
    → ((p : ℕ) → p < pc + rounds → (p == 0 || get_or flags p false) ≡ f p)
    → f 0 ≡ true
    → Cut f pc s.leaders s.block_of
    → Cut f (pc + rounds) (collect rounds pc flags s).leaders (collect rounds pc flags s).block_of
unfolding collect
collect-Cut f flags zero pc s same zero_begins h =
    subst (λ n. Cut f n s.leaders s.block_of) (omega arith) h
collect-Cut f flags (suc rounds) pc s same zero_begins h =
    subst
      (λ n.
        Cut f n (collect rounds (pc + 1) flags (add_pc flags pc s)).leaders
          (collect rounds (pc + 1) flags (add_pc flags pc s)).block_of)
      (omega arith)
      (collect-Cut f flags rounds (pc + 1) (add_pc flags pc s) (λ p lt. same p (omega (arith, lt)))
        zero_begins (add_pc-Cut f flags pc s (same pc (omega arith)) zero_begins h))

pub Cut-none : (f : ℕ → Bool) → Cut f 0 [] []
Cut-none f = record {
  placed_all = refl;
  some_block = λ lt. absurd (omega (arith, lt));
  leader_below = λ b lt. absurd (omega (arith, lt));
  leader_begins = λ b lt. absurd (omega (arith, lt));
  ascending = λ b lt. absurd (omega (arith, lt));
  in_block = λ p lt. absurd (omega (arith, lt));
  not_before = λ p lt. absurd (omega (arith, lt));
  before_next = λ p lt. absurd (omega (arith, lt));
  own = λ p lt begin. absurd (omega (arith, lt));
}
