-- ===== src/Asm/Dominators/Paths.antt =====
-- What a post-dominator is (docs/wisa-spec.md section 8.1): a node on every path to the virtual exit.
use mathlib.Core.List.{Memᴰ}
use warp_sim.Base.{
  ℕ, zero, suc, ◌≤◌, ◌<◌, ◌==◌, ◌≡◌, ◌≢◌, ◌⊎◌, inl, inr, refl, arith, Bool-cases, ==_iff, subst,
}
use warp_sim.Asm.Cfg.{Cfg}
use warp_sim.Asm.Dominators.{successors_of}

-- A path from a block to the exit node, with its length.
pub data ToExit (cfg : Cfg) : ℕ → ℕ → Type 0 where
  at_exit : ToExit cfg cfg.exit_node 0
  edge : {b s n : ℕ} → Memᴰ s (successors_of cfg b) → ToExit cfg s n → ToExit cfg b (suc n)

-- A path from a block to the exit node that does not pass through x.
pub data Avoids (cfg : Cfg) (x : ℕ) : ℕ → Type 0 where
  at_exit : cfg.exit_node ≢ x → Avoids cfg x cfg.exit_node
  edge : {b s : ℕ} → b ≢ x → Memᴰ s (successors_of cfg b) → Avoids cfg x s → Avoids cfg x b

-- Node x is on every path from b to the exit node.
abbrev pub PostDominates : Cfg → ℕ → ℕ → Type 0
PostDominates cfg x b = ¬ Avoids cfg x b

-- Every edge leads to a node.
abbrev pub EdgesFit : Cfg → Type 0
EdgesFit cfg = (b s : ℕ) → Memᴰ s (successors_of cfg b) → s ≤ cfg.exit_node

module _ (cfg : Cfg) where
  -- A path from b avoids x, or has a path from x for its end; a shorter one if x is not b.
  pub cut :
      (x b n : ℕ)
      → ToExit cfg b n
      → Avoids cfg x b ⊎ ((m : ℕ) × ToExit cfg x m × ((b ≢ x) → m < n) × (m ≤ n))
  cut x b n at_exit = elim (Bool-cases (cfg.exit_node == x)) [
    | inl e ↦
        let same : cfg.exit_node ≡ x = (==_iff cfg.exit_node x).0 e in
        inr (0, subst (λ y. ToExit cfg y 0) same at_exit, λ ne. absurd (ne same), omega arith)
    | inr ne ↦ inl (at_exit (λ e. ground (arith, ne, e)))
  ]
  cut x b (suc n) (edge {s} e p) = elim (Bool-cases (b == x)) [
    | inl h ↦
        let same : b ≡ x = (==_iff b x).0 h in
        inr (
          suc n,
          subst (λ y. ToExit cfg y (suc n)) same (edge e p),
          λ ne. absurd (ne same),
          omega arith,
        )
    | inr ne ↦ elim (cut x s n p) [
      | inl q ↦ inl (edge (λ same. ground (arith, ne, same)) e q)
      | inr (m, q, less, le) ↦ inr (m, q, λ differ. omega (arith, le), omega (arith, le))
    ]
  ]

  -- Two different nodes do not post-dominate each other, if one of them reaches the exit.
  pub antisymmetric :
      (fuel b d n : ℕ)
      → n < fuel
      → ToExit cfg b n
      → b ≢ d
      → PostDominates cfg d b
      → PostDominates cfg b d
      → ⊥
  antisymmetric zero b d n lt p ne h k = omega (arith, lt)
  antisymmetric (suc fuel) b d n lt p ne h k = elim (cut d b n p) [
    | inl q ↦ h q
    | inr (m, q, less, le) ↦ elim (cut b d m q) [
      | inl r ↦ k r
      | inr (l, r, less', le') ↦ antisymmetric fuel b d l (omega (arith, less ne, le', lt)) r ne h k
    ]
  ]

  -- A path that avoids j avoids d too, or has a path from d for its end.
  pub cut_avoiding : (j d b : ℕ) → Avoids cfg j b → Avoids cfg d b ⊎ Avoids cfg j d
  cut_avoiding j d b (at_exit ne) = elim (Bool-cases (cfg.exit_node == d)) [
    | inl e ↦ inr (subst (λ y. Avoids cfg j y) ((==_iff cfg.exit_node d).0 e) (at_exit ne))
    | inr other ↦ inl (at_exit (λ e. ground (arith, other, e)))
  ]
  cut_avoiding j d b (edge {s} ne e p) = elim (Bool-cases (b == d)) [
    | inl h ↦ inr (subst (λ y. Avoids cfg j y) ((==_iff b d).0 h) (edge ne e p))
    | inr other ↦ elim (cut_avoiding j d s p) [
      | inl q ↦ inl (edge (λ same. ground (arith, other, same)) e q)
      | inr q ↦ inr q
    ]
  ]

  pub PostDominates-trans :
      (j d b : ℕ) → PostDominates cfg d b → PostDominates cfg j d → PostDominates cfg j b
  PostDominates-trans j d b h k path = elim (cut_avoiding j d b path) [ inl q ↦ h q | inr q ↦ k q ]

  -- The exit node is on every path to it.
  pub PostDominates-exit : (b : ℕ) → PostDominates cfg cfg.exit_node b
  PostDominates-exit b (at_exit ne) = ne refl
  PostDominates-exit b (edge {s} ne e p) = PostDominates-exit s p
