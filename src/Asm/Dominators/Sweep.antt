-- ===== src/Asm/Dominators/Sweep.antt =====
-- The dataflow of `post_dominators` in src/asm/reconvergence.cpp: what every update keeps, and what a
-- pass over the blocks leaves.
use mathlib.Core.List.{Memᴰ}
use mathlib.Core.List.Memᴰ
use warp_sim.Base.{
  ℕ, ◌+◌, ◌≤◌, ◌<◌, ◌==◌, ◌≡◌, inl, inr, refl, sym, ap, arith, if◌then◌else◌, true, false, List, [],
  ◌∷◌, Bool-cases, ==_iff, subst,
}
use warp_sim.Asm.BlockSet.{BlockSet, new_set, intersect}
use warp_sim.Asm.BlockSet.Members.{
  member, Sized, Sized-new_set, Sized-insert, Sized-intersect, member-insert, member-intersect,
  member-new_set-true, member-new_set-above,
}
use warp_sim.Asm.BlockSet.Count.{Subset}
use warp_sim.Asm.Cfg.{Cfg}
use warp_sim.Asm.Dominators.{Sets, update, intersect_all, successors_of, next_set}
use warp_sim.Asm.Dominators.Paths.{edge, PostDominates, EdgesFit}

-- Every set of one family is in that of the other.
abbrev AllSubset : Sets → Sets → Type 0
AllSubset p q = (b : ℕ) → Subset (p b) (q b)

intersect_all_mono :
    (p q : Sets) (ss : List ℕ) (a c : BlockSet)
    → AllSubset p q
    → Subset a c
    → Subset (intersect_all p ss a) (intersect_all q ss c)
unfolding intersect_all
intersect_all_mono p q [] a c h k = k
intersect_all_mono p q (s ∷ ss) a c h k =
    intersect_all_mono p q ss (intersect a (p s)) (intersect c (q s)) h
      (λ j. omega (arith, member-intersect a (p s) j, member-intersect c (q s) j, h s j, k j))

pub intersect_all-le_start :
    (p : Sets) (ss : List ℕ) (a : BlockSet) → Subset (intersect_all p ss a) a
unfolding intersect_all
intersect_all-le_start p [] a j = omega arith
intersect_all-le_start p (s ∷ ss) a j =
    omega (arith, intersect_all-le_start p ss (intersect a (p s)) j, member-intersect a (p s) j)

pub intersect_all-le :
    (p : Sets) (s : ℕ) (ss : List ℕ) (a : BlockSet)
    → Memᴰ s ss
    → Subset (intersect_all p ss a) (p s)
unfolding intersect_all
intersect_all-le p s [] a m j = absurd (Memᴰ.not-nil m)
intersect_all-le p s (t ∷ ss) a (Memᴰ.head e) j =
    let same : member (p t) j ≡ member (p s) j = ap (λ (x : ℕ). member (p x) j) (sym e) in
    omega
      (arith, intersect_all-le_start p ss (intersect a (p t)) j, member-intersect a (p t) j, same)
intersect_all-le p s (t ∷ ss) a (Memᴰ.tail m) j = intersect_all-le p s ss (intersect a (p t)) m j

intersect_all-one :
    (p : Sets) (j : ℕ) (ss : List ℕ) (a : BlockSet)
    → member a j ≡ 1
    → ((s : ℕ) → Memᴰ s ss → member (p s) j ≡ 1)
    → member (intersect_all p ss a) j ≡ 1
unfolding intersect_all
intersect_all-one p j [] a h k = h
intersect_all-one p j (s ∷ ss) a h k =
    intersect_all-one p j ss (intersect a (p s))
      (omega (arith, member-intersect a (p s) j, h, k s (Memᴰ.head refl)))
      (λ t m. k t (Memᴰ.tail m))

Sized-intersect_all :
    (n : ℕ) (p : Sets) (ss : List ℕ) (a : BlockSet) → Sized n a → Sized n (intersect_all p ss a)
unfolding intersect_all
Sized-intersect_all n p [] a h = h
Sized-intersect_all n p (s ∷ ss) a h =
    Sized-intersect_all n p ss (intersect a (p s)) (Sized-intersect n a (p s) h)

module _ (cfg : Cfg) where
  -- What the sets are between two updates: sets of nodes, that hold every post-dominator, and that the
  -- equation of the dataflow only makes smaller.
  pub record Sound (p : Sets) : Type 0 where
    pub sized : (b : ℕ) → Sized (cfg.exit_node + 1) (p b)
    pub exit_set : (j : ℕ) → member (p cfg.exit_node) j ≡ (if j == cfg.exit_node then 1 else 0)
    pub covers :
        (b x : ℕ)
        → b ≤ cfg.exit_node
        → x ≤ cfg.exit_node
        → PostDominates cfg x b
        → member (p b) x ≡ 1
    pub bounded : (b j : ℕ) → cfg.exit_node < j → member (p b) j ≡ 0
    pub shrinks : (b : ℕ) → b < cfg.exit_node → Subset (next_set cfg p b) (p b)

  pub Sized-next_set : (p : Sets) (b : ℕ) → Sized (cfg.exit_node + 1) (next_set cfg p b)
  unfolding next_set
  Sized-next_set p b = Sized-insert (cfg.exit_node + 1) b _ (
      Sized-intersect_all (cfg.exit_node + 1) p (successors_of cfg b) _
        (Sized-new_set (cfg.exit_node + 1) true))

  pub member-next_set :
      (p : Sets) (b j : ℕ)
      → b < cfg.exit_node
      → member (next_set cfg p b) j ≡ (
          if j == b
          then 1
          else member (intersect_all p (successors_of cfg b) (new_set (cfg.exit_node + 1) true)) j)
  unfolding next_set
  member-next_set p b j lt =
      member-insert (cfg.exit_node + 1) b j _
        (Sized-intersect_all (cfg.exit_node + 1) p (successors_of cfg b) _
          (Sized-new_set (cfg.exit_node + 1) true))
        (omega (arith, lt))

  next_set-bounded :
      (p : Sets) (b j : ℕ) → b < cfg.exit_node → cfg.exit_node < j → member (next_set cfg p b) j ≡ 0
  next_set-bounded p b j lt above =
      let all = new_set (cfg.exit_node + 1) true in
      ground (
        arith,
        member-next_set p b j lt,
        lt,
        above,
        intersect_all-le_start p (successors_of cfg b) all j,
        member-new_set-above (cfg.exit_node + 1) j (omega (arith, above)),
      )

  next_set_mono :
      (p q : Sets) (b : ℕ)
      → b < cfg.exit_node
      → AllSubset p q
      → Subset (next_set cfg p b) (next_set cfg q b)
  next_set_mono p q b lt h j = ground (
    arith,
    member-next_set p b j lt,
    member-next_set q b j lt,
    intersect_all_mono p q (successors_of cfg b) (new_set (cfg.exit_node + 1) true)
        (new_set (cfg.exit_node + 1) true) h (λ i. omega arith) j,
  )

  -- A post-dominator of a block is the block itself or post-dominates its successors.
  next_set-covers :
      EdgesFit cfg
      → (p : Sets) → Sound p
      → (b x : ℕ) → b < cfg.exit_node
      → x ≤ cfg.exit_node
      → PostDominates cfg x b
      → member (next_set cfg p b) x ≡ 1
  next_set-covers fit p h b x lt le d = rw (member-next_set p b x lt) (elim (Bool-cases (x == b)) [
    | inl e ↦ rw e refl
    | inr ne ↦ rw ne (
        intersect_all-one p x (successors_of cfg b) (new_set (cfg.exit_node + 1) true)
          (member-new_set-true (cfg.exit_node + 1) x (omega (arith, le)))
          (λ s m.
            h.covers s x (fit b s m) le
              (λ path. d (edge (λ same. ground (arith, ne, same)) m path))))
  ])

  update-AllSubset : (p : Sets) (b : ℕ) (s : BlockSet) → Subset s (p b) → AllSubset (update b s p) p
  update-AllSubset p b s h c j = elim (Bool-cases (c == b)) [
    | inl e ↦
        let same : c ≡ b = (==_iff c b).0 e in
        rw e (subst (λ d. member s j ≤ member (p d) j) (sym same) (h j))
    | inr ne ↦ rw ne (omega arith)
  ]

  pub Sound-update :
      EdgesFit cfg
      → (p : Sets) (b : ℕ) → b < cfg.exit_node
      → Sound p
      → Sound (update b (next_set cfg p b) p)
  Sound-update fit p b lt h =
      let q = update b (next_set cfg p b) p in
      let below : AllSubset q p = update-AllSubset p b (next_set cfg p b) (h.shrinks b lt) in
      record {
        sized = λ c. elim (Bool-cases (c == b)) [
          | inl e ↦ rw e (Sized-next_set p b)
          | inr ne ↦ rw ne (h.sized c)
        ];
        exit_set = λ j.
            let other : (cfg.exit_node == b) ≡ false = ground (arith, lt) in
            rw other (h.exit_set j);
        covers = λ c x lc lx d. elim (Bool-cases (c == b)) [
          | inl e ↦
              let same : c ≡ b = (==_iff c b).0 e in
              rw e (next_set-covers fit p h b x lt lx (subst (λ y. PostDominates cfg x y) same d))
          | inr ne ↦ rw ne (h.covers c x lc lx d)
        ];
        bounded = λ c j above. elim (Bool-cases (c == b)) [
          | inl e ↦ rw e (next_set-bounded p b j lt above)
          | inr ne ↦ rw ne (h.bounded c j above)
        ];
        shrinks = λ c lc j. elim (Bool-cases (c == b)) [
          | inl e ↦
              let same : c ≡ b = (==_iff c b).0 e in
              rw e (
                subst (λ d. member (next_set cfg q d) j ≤ member (next_set cfg p b) j) (sym same)
                  (next_set_mono q p b lt below j))
          | inr ne ↦ rw ne (omega (arith, next_set_mono q p c lc below j, h.shrinks c lc j))
        ];
      }
