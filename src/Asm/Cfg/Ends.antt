-- ===== src/Asm/Cfg/Ends.antt =====
-- Where the blocks of `build_cfg` in src/asm/reconvergence.cpp end, and that an instruction has one block.
use warp_sim.Base.{
  ℕ, zero, suc, ◌+◌, ◌-◌, ◌≤◌, ◌<◌, ltb, ◌≡◌, ◌≢◌, inl, inr, refl, arith, if◌then◌else◌, Bool, List,
  get_or, length, Bool-cases, subst,
}
use warp_sim.Asm.Cfg.Partition.{Cut}

-- The first instruction after block b, in a program of n instructions.
unfoldable pub block_end : ℕ → List ℕ → ℕ → ℕ
block_end n leaders b = if ltb (b + 1) (length leaders) then get_or leaders (b + 1) 0 else n

module _ (f : ℕ → Bool) (n : ℕ) (leaders block_of : List ℕ) (h : Cut f n leaders block_of) where
  leaders_up : (b k : ℕ) → b + k < length leaders → get_or leaders b 0 ≤ get_or leaders (b + k) 0
  leaders_up b zero lt = let same : b + 0 ≡ b = omega arith in rw same (omega arith)
  leaders_up b (suc k) lt =
      let same : b + k + 1 ≡ b + suc k = omega arith in
      subst (λ c. get_or leaders b 0 ≤ get_or leaders c 0) same
        (omega (arith, leaders_up b k (omega (arith, lt)), h.ascending (b + k) (omega (arith, lt))))

  leaders_le : (b c : ℕ) → b ≤ c → c < length leaders → get_or leaders b 0 ≤ get_or leaders c 0
  leaders_le b c le lt =
      let whole : b + (c - b) ≡ c = omega (arith, le) in
      subst (λ d. get_or leaders b 0 ≤ get_or leaders d 0) whole
        (leaders_up b (c - b) (omega (arith, whole, lt)))

  -- The end of a block lies after its leader, and not after the program.
  pub block_end-bounds :
      (b : ℕ)
      → b < length leaders
      → (get_or leaders b 0 < block_end n leaders b) × (block_end n leaders b ≤ n)
  unfolding block_end
  block_end-bounds b lt =
      ground (arith, lt, h.ascending b, h.leader_below b, h.leader_below (b + 1))

  not_earlier :
      (b p : ℕ) → b < length leaders → p < n → get_or leaders b 0 ≤ p → b ≤ get_or block_of p 0
  not_earlier b p lt below low = elim (Bool-cases (ltb (get_or block_of p 0) b)) [
    | inr e ↦ ground (arith, e)
    | inl e ↦
        let less : get_or block_of p 0 < b = ground (arith, e) in
        absurd (
          omega (
            arith,
            h.before_next p below (omega (arith, less, lt)),
            leaders_le (get_or block_of p 0 + 1) b (omega (arith, less)) lt,
            low,
          ))
  ]

  not_later : (b p : ℕ) → p < n → p < block_end n leaders b → get_or block_of p 0 ≤ b
  unfolding block_end
  not_later b p below high = elim (Bool-cases (ltb b (get_or block_of p 0))) [
    | inr e ↦ ground (arith, e)
    | inl e ↦
        let more : b < get_or block_of p 0 = ground (arith, e) in
        let inside : get_or block_of p 0 < length leaders = h.in_block p below in
        absurd (
          ground (
            arith,
            h.not_before p below,
            leaders_le (b + 1) (get_or block_of p 0) (omega (arith, more)) inside,
            high,
            more,
            inside,
          ))
  ]

  -- An instruction between a block's leader and its end is in the block.
  pub block_of_unique :
      (b p : ℕ)
      → b < length leaders
      → get_or leaders b 0 ≤ p
      → p < block_end n leaders b
      → get_or block_of p 0 ≡ b
  block_of_unique b p lt low high =
      let below : p < n = omega (arith, high, (block_end-bounds b lt).1) in
      omega (arith, not_earlier b p lt below low, not_later b p below high)

  -- The instruction at the end of a block, if there is one, is in another block.
  pub block_end-leaves :
      (b : ℕ)
      → b < length leaders
      → block_end n leaders b < n
      → get_or block_of (block_end n leaders b) 0 ≢ b
  unfolding block_end
  block_end-leaves b lt inside same = elim (Bool-cases (ltb (b + 1) (length leaders))) [
    | inr e ↦ absurd (ground (arith, e, inside))
    | inl e ↦
        let more : b + 1 < length leaders = ground (arith, e) in
        let end : block_end n leaders b ≡ get_or leaders (b + 1) 0 = rw (block_end, e) refl in
        let there : get_or block_of (get_or leaders (b + 1) 0) 0 ≡ b =
          subst (λ p. get_or block_of p 0 ≡ b) end same in
        let self : get_or leaders (get_or block_of (get_or leaders (b + 1) 0) 0) 0
            ≡ get_or leaders (b + 1) 0 =
          h.own (get_or leaders (b + 1) 0) (h.leader_below (b + 1) more)
            (h.leader_begins (b + 1) more) in
        absurd (
          omega (
            arith,
            h.ascending b more,
            subst (λ c. get_or leaders c 0 ≡ get_or leaders (b + 1) 0) there self,
          ))
  ]
