-- ===== src/Core/Registers.antt =====
-- include/warpsim/core/register_file.hpp. The two arrays are functions of the lane and the register;
-- the source asserts that both are in range (the fields of a valid instruction are).
use warp_sim.Base.{ℕ, ◌==◌, if◌then◌else◌, Bool, false, ◌&&◌}

pub record RegisterFile : Type 0 where
  pub general : ℕ → ℕ → ℕ
  pub predicates : ℕ → ℕ → Bool

-- Zero initialised.
unfoldable pub fresh : RegisterFile
fresh = record { general = λ lane reg. 0; predicates = λ lane pred. false }

unfoldable pub read : RegisterFile → ℕ → ℕ → ℕ
read rf lane reg = rf.general lane reg

unfoldable pub write : RegisterFile → ℕ → ℕ → ℕ → RegisterFile
write rf lane reg value = record rf {
  general = λ l r. if l == lane && r == reg then value else rf.general l r;
}

unfoldable pub read_pred : RegisterFile → ℕ → ℕ → Bool
read_pred rf lane pred = rf.predicates lane pred

unfoldable pub write_pred : RegisterFile → ℕ → ℕ → Bool → RegisterFile
write_pred rf lane pred value = record rf {
  predicates = λ l p. if l == lane && p == pred then value else rf.predicates l p;
}
