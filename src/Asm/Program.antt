-- ===== src/Asm/Program.antt =====
-- include/warpsim/asm/program.hpp: an assembled kernel. The map of labels is an association list.
use warp_sim.Base.{ℕ, String, List}

pub record Program : Type 0 where
  pub entry : String
  pub params : List String
  pub shared_bytes : ℕ
  pub words : List ℕ
  pub labels : List (ℕ × String)
