-- ===== src/Asm/Dominators/Fixed.antt =====
-- The loop of `post_dominators` (src/asm/reconvergence.cpp) ends, and what it ends with is the set of
-- post-dominators of every block.
use warp_sim.Base.{
  ℕ, zero, suc, ◌+◌, ◌≤◌, ◌<◌, ◌==◌, ◌≡◌, ◌≢◌, ◌⊎◌, ◌↔◌, inl, inr, refl, sym, ◌∙◌, ap, arith,
  if◌then◌else◌, Bool, true, false, Bool-cases, ==_iff, subst, some,
}
use warp_sim.Asm.BlockSet.{BlockSet, new_set, contains, same_set, cardinality}
use warp_sim.Asm.BlockSet.Members.{
  member, member-le-one, contains-member, Sized, Sized-new_set, Sized-insert, member-insert,
  member-new_set-true, member-new_set-false, member-new_set-above,
}
use warp_sim.Asm.BlockSet.Count.{Subset, cardinality-eq, same_set-member}
use warp_sim.Asm.Cfg.{Cfg}
use warp_sim.Asm.Dominators.{
  Sets, update, successors_of, next_set, initial, sweep, iterate, elements, post_dominators,
}
use warp_sim.Asm.Dominators.Paths.{Avoids, at_exit, edge, PostDominates, EdgesFit}
use warp_sim.Asm.Dominators.Sweep.{
  Sound, Sound-update, Sized-next_set, member-next_set, intersect_all-le, intersect_all-le_start,
}

elements-later :
    (n b : ℕ) (s : BlockSet) (p : Sets) → n ≤ b → elements n (update b s p) ≡ elements n p
unfolding elements
elements-later zero b s p le = refl
elements-later (suc n) b s p le =
    let other : (n == b) ≡ false = ground (arith, le) in
    rw other (ap (λ (t : ℕ). cardinality (p n) + t) (elements-later n b s p (omega (arith, le))))

elements-update :
    (n b : ℕ) (s : BlockSet) (p : Sets)
    → b < n
    → cardinality s < cardinality (p b)
    → elements n (update b s p) < elements n p
unfolding elements
elements-update zero b s p lt less = absurd (omega (arith, lt))
elements-update (suc n) b s p lt less = elim (Bool-cases (n == b)) [
  | inl e ↦
      let same : n ≡ b = (==_iff n b).0 e in
      let here : cardinality (p n) ≡ cardinality (p b) = ap (λ (t : ℕ). cardinality (p t)) same in
      rw e (omega (arith, less, here, elements-later n b s p (omega (arith, same))))
  | inr ne ↦ rw ne (omega (arith, elements-update n b s p (ground (arith, lt, ne)) less))
]

module _ (cfg : Cfg) (fit : EdgesFit cfg) where
  -- An update that changes a set makes it smaller.
  changed-less :
      (p : Sets) (b : ℕ)
      → b < cfg.exit_node
      → Sound cfg p
      → same_set (next_set cfg p b) (p b) ≡ false
      → elements cfg.exit_node (update b (next_set cfg p b) p) < elements cfg.exit_node p
  changed-less p b lt h differs = elements-update cfg.exit_node b (next_set cfg p b) p lt (
      smaller (cardinality (next_set cfg p b)) (cardinality (p b)) (λ le.
        cardinality-eq (cfg.exit_node + 1) (next_set cfg p b) (p b) (Sized-next_set cfg p b)
          (h.sized b) (h.shrinks b lt) le))
    where
      smaller : (x y : ℕ) → (y ≤ x → same_set (next_set cfg p b) (p b) ≡ true) → x < y
      smaller x y k = ground (arith, k, differs)

  -- Block c satisfies the equation of the dataflow.
  abbrev pub Settled : Sets → ℕ → Type 0
  Settled p c = same_set (next_set cfg p c) (p c) ≡ true

  -- A pass that changes nothing has found every block settled; another has made the sets smaller.
  abbrev Swept : ℕ → ℕ → Sets → Bool → Sets × Bool → Type 0
  Swept rounds b p changed (q, flag) =
      ((q ≡ p) × (flag ≡ changed) × ((c : ℕ) → b ≤ c → c < b + rounds → Settled p c))
      ⊎ ((flag ≡ true) × (elements cfg.exit_node q < elements cfg.exit_node p))

  sweep_rule :
      (rounds b : ℕ) (p : Sets) (changed : Bool)
      → b + rounds ≤ cfg.exit_node
      → Sound cfg p
      → Sound cfg (sweep cfg rounds b p changed).0
        × Swept rounds b p changed (sweep cfg rounds b p changed)
  unfolding sweep
  sweep_rule zero b p changed le h =
      (h, inl (refl, refl, λ c lo hi. absurd (omega (arith, lo, hi))))
  sweep_rule (suc rounds) b p changed le h = elim (Bool-cases (same_set (next_set cfg p b) (p b))) [
    | inl same ↦
        rw (sweep, same)
          (let (sound, rest) = sweep_rule rounds (b + 1) p changed (omega (arith, le)) h in
            (sound, after_settled same rest))
    | inr differs ↦
        rw (sweep, differs)
          (let q = update b (next_set cfg p b) p in
            let (sound, rest) =
              sweep_rule rounds (b + 1) q true (omega (arith, le))
                (Sound-update cfg fit p b (omega (arith, le)) h) in
            (sound, inr (after_change (changed-less p b (omega (arith, le)) h differs) rest)))
  ]
    where
      after_settled :
          {r : Sets × Bool}
          → Settled p b
          → Swept rounds (b + 1) p changed r
          → Swept (suc rounds) b p changed r
      after_settled same (inl (e, f, all)) = inl (
        e,
        f,
        λ c lo hi. elim (Bool-cases (c == b)) [
          | inl here ↦ subst (λ d. Settled p d) (sym ((==_iff c b).0 here)) same
          | inr later ↦ all c (ground (arith, lo, later)) (omega (arith, hi))
        ],
      )
      after_settled same (inr less) = inr less

      after_change :
          {r : Sets × Bool}
          → elements cfg.exit_node (update b (next_set cfg p b) p) < elements cfg.exit_node p
          → Swept rounds (b + 1) (update b (next_set cfg p b) p) true r
          → (r.1 ≡ true) × (elements cfg.exit_node r.0 < elements cfg.exit_node p)
      after_change less (inl (e, f, all)) =
          (f, subst (λ q. elements cfg.exit_node q < elements cfg.exit_node p) (sym e) less)
      after_change less (inr (f, more)) = (f, omega (arith, less, more))

  -- The loop, with more fuel than there are elements, ends with sound sets in which every block is
  -- settled.
  iterate_rule :
      (fuel : ℕ) (p : Sets)
      → Sound cfg p
      → elements cfg.exit_node p < fuel
      → (q : Sets) × (iterate cfg fuel p ≡ some q)
        × Sound cfg q
        × ((c : ℕ) → c < cfg.exit_node → Settled q c)
  unfolding iterate
  iterate_rule zero p h lt = absurd (omega (arith, lt))
  iterate_rule (suc fuel) p h lt =
      let (sound, rest) = sweep_rule cfg.exit_node 0 p false (omega arith) h in
      after_sweep sound rest (λ less. iterate_rule fuel _ sound (omega (arith, less, lt)))
    where
      after_sweep :
          Sound cfg (sweep cfg cfg.exit_node 0 p false).0
          → Swept cfg.exit_node 0 p false (sweep cfg cfg.exit_node 0 p false)
          → (elements cfg.exit_node (sweep cfg cfg.exit_node 0 p false).0 < elements cfg.exit_node p
              → (q : Sets) × (iterate cfg fuel (sweep cfg cfg.exit_node 0 p false).0 ≡ some q)
                × Sound cfg q
                × ((c : ℕ) → c < cfg.exit_node → Settled q c))
          → (q : Sets) × (iterate cfg (suc fuel) p ≡ some q)
            × Sound cfg q
            × ((c : ℕ) → c < cfg.exit_node → Settled q c)
      after_sweep sound (inl (e, quiet, all)) later = (
        _,
        rw (iterate, quiet) refl,
        sound,
        λ c hi. subst (λ r. Settled r c) (sym e) (all c (omega arith) (omega (arith, hi))),
      )
      after_sweep sound (inr (busy, less)) later =
          let (q, e, s, all) = later less in (q, rw (iterate, busy) e, s, all)

  member-initial-exit :
      (j : ℕ) → member (initial cfg cfg.exit_node) j ≡ (if j == cfg.exit_node then 1 else 0)
  unfolding initial
  member-initial-exit j =
      let here : (cfg.exit_node == cfg.exit_node) ≡ true = ground arith in
      rw
        (
          here,
          member-insert (cfg.exit_node + 1) cfg.exit_node j _
              (Sized-new_set (cfg.exit_node + 1) false) (omega arith),
          member-new_set-false (cfg.exit_node + 1) j,
        )
        refl

  initial-other : (b : ℕ) → b ≢ cfg.exit_node → initial cfg b ≡ new_set (cfg.exit_node + 1) true
  unfolding initial
  initial-other b ne =
      let other : (b == cfg.exit_node) ≡ false = ground (arith, ne) in rw other refl

  only_exit : (x : ℕ) → PostDominates cfg x cfg.exit_node → x ≡ cfg.exit_node
  only_exit x d = elim (Bool-cases (x == cfg.exit_node)) [
    | inl e ↦ (==_iff x cfg.exit_node).0 e
    | inr ne ↦ absurd (d (at_exit (λ e. ground (arith, ne, e))))
  ]

  initial-covers :
      (b x : ℕ) → x ≤ cfg.exit_node → PostDominates cfg x b → member (initial cfg b) x ≡ 1
  initial-covers b x lx d = elim (Bool-cases (b == cfg.exit_node)) [
    | inl e ↦
        let same : b ≡ cfg.exit_node = (==_iff b cfg.exit_node).0 e in
        let is_exit : x ≡ cfg.exit_node = only_exit x (subst (λ c. PostDominates cfg x c) same d) in
        rw same (ground (arith, member-initial-exit x, is_exit))
    | inr ne ↦
        rw (initial-other b (λ e. ground (arith, ne, e)))
          (member-new_set-true (cfg.exit_node + 1) x (omega (arith, lx)))
  ]

  initial-shrinks :
      (b : ℕ) → b < cfg.exit_node → Subset (next_set cfg (initial cfg) b) (initial cfg b)
  initial-shrinks b lt j =
      let all = new_set (cfg.exit_node + 1) true in
      rw (initial-other b (omega (arith, lt)), member-next_set cfg (initial cfg) b j lt)
        (elim (Bool-cases (j == b)) [
          | inl e ↦
              let same : j ≡ b = (==_iff j b).0 e in
              rw e
                (omega (arith, member-new_set-true (cfg.exit_node + 1) j (omega (arith, lt, same))))
          | inr ne ↦ rw ne (intersect_all-le_start (initial cfg) (successors_of cfg b) all j)
        ])

  initial-bounded : (b j : ℕ) → cfg.exit_node < j → member (initial cfg b) j ≡ 0
  initial-bounded b j above = elim (Bool-cases (b == cfg.exit_node)) [
    | inl e ↦
        let same : b ≡ cfg.exit_node = (==_iff b cfg.exit_node).0 e in
        rw same (ground (arith, member-initial-exit j, above))
    | inr ne ↦
        rw (initial-other b (λ e. ground (arith, ne, e)))
          (member-new_set-above (cfg.exit_node + 1) j (omega (arith, above)))
  ]

  Sized-initial : (b : ℕ) → Sized (cfg.exit_node + 1) (initial cfg b)
  unfolding initial
  Sized-initial b = elim (Bool-cases (b == cfg.exit_node)) [
    | inl e ↦
        rw e (
          Sized-insert (cfg.exit_node + 1) cfg.exit_node _
            (Sized-new_set (cfg.exit_node + 1) false))
    | inr ne ↦ rw ne (Sized-new_set (cfg.exit_node + 1) true)
  ]

  Sound-initial : Sound cfg (initial cfg)
  Sound-initial = record {
    sized = Sized-initial;
    exit_set = member-initial-exit;
    covers = λ b x lb lx d. initial-covers b x lx d;
    bounded = initial-bounded;
    shrinks = initial-shrinks;
  }

  -- What the loop ends with is sound, and every block is settled.
  pub post_dominators_total :
      (q : Sets) × (post_dominators cfg ≡ some q)
      × Sound cfg q
      × ((c : ℕ) → c < cfg.exit_node → Settled q c)
  unfolding post_dominators
  post_dominators_total =
      iterate_rule (elements cfg.exit_node (initial cfg) + 1) (initial cfg) Sound-initial
        (omega arith)

  -- In settled sets, an element of a block's set is on every path from it.
  pub Settled-on_path :
      (q : Sets) (x b : ℕ)
      → Sound cfg q
      → ((c : ℕ) → c < cfg.exit_node → Settled q c)
      → b ≤ cfg.exit_node
      → member (q b) x ≡ 1
      → Avoids cfg x b
      → ⊥
  Settled-on_path q x b h all le m (at_exit ne) = ground (arith, h.exit_set x, m, ne)
  Settled-on_path q x b h all le m (edge {s} ne e path) = elim (Bool-cases (b == cfg.exit_node)) [
    | inl here ↦
        let same : b ≡ cfg.exit_node = (==_iff b cfg.exit_node).0 here in
        let there : member (q cfg.exit_node) x ≡ 1 = subst (λ c. member (q c) x ≡ 1) same m in
        absurd (ground (arith, h.exit_set x, there, same, ne))
    | inr not_exit ↦
        let lt : b < cfg.exit_node = ground (arith, le, not_exit) in
        let ss = successors_of cfg b in
        let there : member (q s) x ≡ 1 = ground (
          arith,
          same_set-member (next_set cfg q b) (q b) x (all b lt),
          m,
          member-next_set cfg q b x lt,
          ne,
          intersect_all-le q s ss (new_set (cfg.exit_node + 1) true) e x,
          member-le-one (q s) x,
        ) in
        Settled-on_path q x s h all (fit b s e) there path
  ]

-- For a graph whose edges all lead to nodes: `post_dominators` ends, and the set it gives for a node b
-- contains a node x exactly when x is on every path from b to the virtual exit node.
pub post_dominators_lem :
    (cfg : Cfg)
    → EdgesFit cfg
    → (q : Sets) × (post_dominators cfg ≡ some q)
      × ((b x : ℕ)
          → b ≤ cfg.exit_node
          → x ≤ cfg.exit_node
          → (contains (q b) x ≡ true) ↔ PostDominates cfg x b)
post_dominators_lem cfg fit =
    let (q, e, sound, all) = post_dominators_total cfg fit in
    (
      q,
      e,
      λ b x lb lx. (
        λ c.
            Settled-on_path cfg fit q x b sound all lb
              ((==_iff (member (q b) x) 1).0 (sym (contains-member (q b) x) ∙ c)),
        λ d. contains-member (q b) x ∙ (==_iff (member (q b) x) 1).1 (sound.covers b x lb lx d),
      ),
    )
