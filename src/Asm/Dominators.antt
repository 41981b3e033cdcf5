-- ===== src/Asm/Dominators.antt =====
-- `post_dominators` and `immediate_post_dominator` of src/asm/reconvergence.cpp. The vector of sets is
-- a function of the block; the loop has fuel; `Dominators.Fixed` is about it.
pub mod Paths
pub mod Sweep
pub mod Fixed
pub mod Immediate
use warp_sim.Base.{
  ℕ, zero, suc, ◌+◌, ◌-◌, ◌==◌, if◌then◌else◌, Bool, true, false, ◌&&◌, Option, none, some, List,
  [], ◌∷◌, get_or,
}
use warp_sim.Asm.BlockSet.{
  BlockSet, new_set, contains, insert, erase, intersect, same_set, cardinality,
}
use warp_sim.Asm.Cfg.{Cfg}

abbrev pub Sets : Type 0
Sets = ℕ → BlockSet

-- `pdom[b] = s`
abbrev pub update : ℕ → BlockSet → Sets → Sets
update b s pdom = λ c. if c == b then s else pdom c

-- The intersection over a block's successors.
unfoldable pub intersect_all : Sets → List ℕ → BlockSet → BlockSet
intersect_all pdom [] acc = acc
intersect_all pdom (s ∷ ss) acc = intersect_all pdom ss (intersect acc (pdom s))

-- The elements of the sets of the blocks below n.
unfoldable pub elements : ℕ → Sets → ℕ
elements zero pdom = 0
elements (suc n) pdom = cardinality (pdom n) + elements n pdom

module _ (cfg : Cfg) where
  abbrev pub successors_of : ℕ → List ℕ
  successors_of b = get_or cfg.succs b []

  -- `next` for block b.
  unfoldable pub next_set : Sets → ℕ → BlockSet
  unfolding intersect_all
  next_set pdom b =
      insert b (intersect_all pdom (successors_of b) (new_set (cfg.exit_node + 1) true))

  -- The sets before the first pass.
  unfoldable pub initial : Sets
  initial b =
      if b == cfg.exit_node
      then insert cfg.exit_node (new_set (cfg.exit_node + 1) false)
      else new_set (cfg.exit_node + 1) true

  -- A pass over the blocks, from b on; the flag is `changed`.
  unfoldable pub sweep : ℕ → ℕ → Sets → Bool → Sets × Bool
  unfolding next_set
  sweep zero b pdom changed = (pdom, changed)
  sweep (suc rounds) b pdom changed =
      let same = same_set (next_set pdom b) (pdom b) in
      sweep rounds (b + 1) (if same then pdom else update b (next_set pdom b) pdom)
        (if same then changed else true)

  -- The `while (changed)` loop.
  unfoldable pub iterate : ℕ → Sets → Option Sets
  unfolding sweep
  iterate zero pdom = none
  iterate (suc fuel) pdom =
      let (after, changed) = sweep cfg.exit_node 0 pdom false in
      let rest = iterate fuel after in if changed then rest else some after

  unfoldable pub post_dominators : Option Sets
  unfolding iterate initial elements
  post_dominators = iterate (elements cfg.exit_node initial + 1) initial

-- The loop over `d` in `immediate_post_dominator`.
unfoldable pub find_count : Sets → BlockSet → ℕ → ℕ → ℕ → Option ℕ
find_count pdom strict wanted zero d = none
find_count pdom strict wanted (suc rounds) d =
    if contains strict d && cardinality (pdom d) == wanted
    then some d
    else find_count pdom strict wanted rounds (d + 1)

unfoldable pub immediate_post_dominator : Sets → ℕ → ℕ
unfolding find_count
immediate_post_dominator pdom b =
    let strict = erase b (pdom b) in
    elim (find_count pdom strict (cardinality strict) strict.size 0) [
      | some d ↦ d
      | none ↦ strict.size - 1
    ]
