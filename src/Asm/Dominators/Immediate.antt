-- ===== src/Asm/Dominators/Immediate.antt =====
-- `immediate_post_dominator` of src/asm/reconvergence.cpp: the node that it finds is the immediate
-- post-dominator of docs/wisa-spec.md section 8.1.
use warp_sim.Base.{
  ltb, ltb→lt, ℕ, zero, suc, ◌+◌, ◌≤◌, ◌<◌, ◌==◌, ◌≡◌, ◌≢◌, ◌⊎◌, inl, inr, refl, sym, ◌∙◌, arith,
  if◌then◌else◌, Bool, true, false, ◌&&◌, Bool-cases, ==_iff, subst, some,
}
use warp_sim.Asm.BlockSet.{BlockSet, contains, erase, cardinality}
use warp_sim.Asm.BlockSet.Members.{
  member, member-le-one, contains-member, Sized, Sized-erase, member-erase,
}
use warp_sim.Asm.BlockSet.Count.{Subset, cardinality-le, cardinality-eq, same_set-member}
use warp_sim.Asm.Cfg.{Cfg}
use warp_sim.Asm.Dominators.{Sets, find_count, immediate_post_dominator, post_dominators}
use warp_sim.Asm.Dominators.Paths.{
  ToExit, at_exit, edge, Avoids, PostDominates, EdgesFit, antisymmetric, PostDominates-trans,
  PostDominates-exit,
}
use warp_sim.Asm.Dominators.Sweep.{Sound}
use warp_sim.Asm.Dominators.Fixed.{Settled, Settled-on_path, post_dominators_total}

-- The test of the loop over d.
abbrev Passes : Sets → BlockSet → ℕ → ℕ → Type 0
Passes pdom strict wanted d = (contains strict d && cardinality (pdom d) == wanted) ≡ true

-- If some candidate passes the test, the loop returns one that does.
find_count-found :
    (pdom : Sets) (strict : BlockSet) (wanted rounds first c : ℕ)
    → first ≤ c
    → c < first + rounds
    → Passes pdom strict wanted c
    → (d : ℕ) × (find_count pdom strict wanted rounds first ≡ some d) × Passes pdom strict wanted d
unfolding find_count
find_count-found pdom strict wanted zero first c lo hi t = absurd (omega (arith, lo, hi))
find_count-found pdom strict wanted (suc rounds) first c lo hi t =
    elim (Bool-cases (contains strict first && cardinality (pdom first) == wanted)) [
      | inl here ↦ (first, rw here refl, here)
      | inr other ↦
          let later : first ≢ c = differs other in
          let (d, e, q) =
            find_count-found pdom strict wanted rounds (first + 1) c (omega (arith, lo, later))
              (omega (arith, hi)) t in
          (d, rw other e, q)
    ]
  where
    differs : (contains strict first && cardinality (pdom first) == wanted) ≡ false → first ≢ c
    differs other e =
        let at : (contains strict first && cardinality (pdom first) == wanted) ≡ true =
          subst (λ x. Passes pdom strict wanted x) (sym e) t in
        ground (arith, at, other)

module _ (cfg : Cfg) (fit : EdgesFit cfg) (q : Sets) (h : Sound cfg q)
    (all : (c : ℕ) → c < cfg.exit_node → Settled cfg fit q c) where
  on_every_path : (x b : ℕ) → b ≤ cfg.exit_node → member (q b) x ≡ 1 → PostDominates cfg x b
  on_every_path x b le m = Settled-on_path cfg fit q x b h all le m

  in_nodes : (x b : ℕ) → member (q b) x ≡ 1 → x ≤ cfg.exit_node
  in_nodes x b m = elim (Bool-cases (ltb cfg.exit_node x)) [
    | inl above ↦ absurd (ground (arith, above, h.bounded b x (ltb→lt cfg.exit_node x above), m))
    | inr below ↦ ground (arith, below)
  ]

  module _ (b n : ℕ) (inside : b < cfg.exit_node) (path : ToExit cfg b n) where
    strict : BlockSet
    strict = erase b (q b)

    member-strict : (x : ℕ) → member strict x ≡ (if x == b then 0 else member (q b) x)
    unfolding strict
    member-strict x = member-erase (cfg.exit_node + 1) b x (q b) (h.sized b) (omega (arith, inside))

    Sized-strict : Sized (cfg.exit_node + 1) strict
    unfolding strict
    Sized-strict = Sized-erase (cfg.exit_node + 1) b (q b) (h.sized b)

    -- Node x strictly post-dominates b.
    abbrev pub Strict : ℕ → Type 0
    Strict x = (x ≢ b) × (x ≤ cfg.exit_node) × PostDominates cfg x b

    Strict-member : (x : ℕ) → Strict x → member strict x ≡ 1
    Strict-member x (ne, le, d) =
        ground (arith, member-strict x, ne, h.covers b x (omega (arith, inside)) le d)

    member-Strict : (x : ℕ) → member strict x ≡ 1 → Strict x
    member-Strict x m =
        let (ne, there) = split m (member-strict x) in
        (ne, in_nodes x b there, on_every_path x b (omega (arith, inside)) there)
      where
        split :
            member strict x ≡ 1
            → member strict x ≡ (if x == b then 0 else member (q b) x)
            → (x ≢ b) × (member (q b) x ≡ 1)
        split m e = (λ same. ground (arith, m, e, same), ground (arith, m, e))

    -- The set of a strict post-dominator lies in the set of strict post-dominators.
    below_strict : (d : ℕ) → Strict d → Subset (q d) strict
    below_strict d (ne, le, pd) j = elim (Bool-cases (member (q d) j == 1)) [
      | inl e ↦
          let m : member (q d) j ≡ 1 = (==_iff (member (q d) j) 1).0 e in
          let pj = on_every_path j d le m in
          let s : Strict j = (
            λ same.
                antisymmetric cfg (suc n) b d n (omega arith) path (λ e. ne (sym e)) pd
                  (subst (λ x. PostDominates cfg x d) same pj),
            in_nodes j d m,
            PostDominates-trans cfg j d b pd pj,
          ) in
          omega (arith, m, Strict-member j s)
      | inr other ↦ ground (arith, other, member-le-one (q d) j)
    ]

    -- The first strict post-dominator on a path is post-dominated by all of them.
    first_on :
        (c k : ℕ)
        → ToExit cfg c k
        → ((e : ℕ) → Strict e → Avoids cfg e c → Avoids cfg e b)
        → (d : ℕ) × Strict d × ((e : ℕ) → Strict e → PostDominates cfg e d)
    first_on c k at_exit keep =
        let s : Strict cfg.exit_node =
          (λ e. omega (arith, e, inside), omega arith, PostDominates-exit cfg b) in
        (cfg.exit_node, s, λ x sx r. sx.2 (keep x sx r))
    first_on c (suc k) (edge {s = t} m p) keep = elim (Bool-cases (member strict c == 1)) [
      | inl e ↦
          let s = member-Strict c ((==_iff (member strict c) 1).0 e) in
          (c, s, λ x sx r. sx.2 (keep x sx r))
      | inr other ↦ first_on t k p (λ x sx r.
          keep x sx (
            edge (λ same. ground (arith, other, Strict-member c (subst Strict (sym same) sx))) m r))
    ]

    Strict-Passes :
        (d : ℕ)
        → Strict d
        → ((e : ℕ) → Strict e → PostDominates cfg e d)
        → Passes q strict (cardinality strict) d
    Strict-Passes d sd each =
        let above : Subset strict (q d) = λ j. covered j (Bool-cases (member strict j == 1)) in
        let le =
          cardinality-le (cfg.exit_node + 1) (q d) strict (h.sized d) Sized-strict
            (below_strict d sd) in
        let ge = cardinality-le (cfg.exit_node + 1) strict (q d) Sized-strict (h.sized d) above in
        ground (arith, le, ge, contains-member strict d, Strict-member d sd)
      where
        covered :
            (j : ℕ)
            → ((member strict j == 1) ≡ true) ⊎ ((member strict j == 1) ≡ false)
            → member strict j ≤ member (q d) j
        covered j (inl e) =
            let m : member strict j ≡ 1 = (==_iff (member strict j) 1).0 e in
            let s = member-Strict j m in omega (arith, m, h.covers d j sd.1 s.1 (each j s))
        covered j (inr other) = ground (arith, other, member-le-one strict j)

    -- A candidate that passes the test is post-dominated by every strict post-dominator.
    Passes-immediate :
        (d : ℕ)
        → Passes q strict (cardinality strict) d
        → Strict d × ((e : ℕ) → Strict e → PostDominates cfg e d)
    Passes-immediate d t =
        let (c, count) = split (contains strict d) (cardinality (q d) == cardinality strict) t in
        let sd =
          member-Strict d ((==_iff (member strict d) 1).0 (sym (contains-member strict d) ∙ c)) in
        let same =
          cardinality-eq (cfg.exit_node + 1) (q d) strict (h.sized d) Sized-strict
            (below_strict d sd)
            (omega (arith, (==_iff (cardinality (q d)) (cardinality strict)).0 count)) in
        (
          sd,
          λ e se. on_every_path e d sd.1 (same_set-member (q d) strict e same ∙ Strict-member e se),
        )
      where
        split : (x y : Bool) → (x && y) ≡ true → (x ≡ true) × (y ≡ true)
        split x y h = ground arith

    pub found_immediate :
        Strict (immediate_post_dominator q b)
        × ((e : ℕ) → Strict e → PostDominates cfg e (immediate_post_dominator q b))
    unfolding immediate_post_dominator strict
    found_immediate =
        let (c, sc, each) = first_on b n path (λ x sx r. r) in
        let (d, e, t) =
          find_count-found q strict (cardinality strict) strict.size 0 c (omega arith)
            (omega (arith, sc.1, Sized-strict.size_is)) (Strict-Passes c sc each) in
        rw (immediate_post_dominator, e) (Passes-immediate d t)

-- Node d is the immediate post-dominator of b: another node than b, on every path from b to the exit,
-- and every other node that is on them all is on every path from d.
pub record IsImmediate (cfg : Cfg) (d b : ℕ) : Type 0 where
  pub differs : d ≢ b
  pub is_node : d ≤ cfg.exit_node
  pub dominates : PostDominates cfg d b
  pub closest : (e : ℕ) → e ≢ b → e ≤ cfg.exit_node → PostDominates cfg e b → PostDominates cfg e d

-- For a graph whose edges all lead to nodes, and a block that has a path to the virtual exit node:
-- `immediate_post_dominator`, on the sets of `post_dominators`, gives the block's immediate
-- post-dominator.
pub immediate_post_dominator_lem :
    (cfg : Cfg) (b n : ℕ)
    → EdgesFit cfg
    → b < cfg.exit_node
    → ToExit cfg b n
    → (q : Sets) × (post_dominators cfg ≡ some q) × IsImmediate cfg (immediate_post_dominator q b) b
immediate_post_dominator_lem cfg b n fit inside path =
    let (q, e, sound, all) = post_dominators_total cfg fit in
    let ((ne, le, d), each) = found_immediate cfg fit q sound all b n inside path in
    (
      q,
      e,
      record {
        differs = ne;
        is_node = le;
        dominates = d;
        closest = λ x nx lx px. each x (nx, lx, px);
      },
    )
