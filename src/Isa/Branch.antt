-- ===== src/Isa/Branch.antt =====
-- The two halves of a `bra` immediate (include/warpsim/isa/instruction.hpp).
use warp_sim.Base.{ℕ, ◌+◌, ◌*◌, ◌%◌, ◌^◌, ◌<◌, ◌≡◌, arith, bit_or}
use warp_sim.Bits.{bit_or-disjoint, bit_and-mask}
use warp_sim.Isa.Instruction.{Instruction, branch_target, reconvergence_pc, make_branch_imm}

-- In an instruction whose immediate is `make_branch_imm` of two 16-bit values, `branch_target` and
-- `reconvergence_pc` give the two values back, and the immediate fits 32 bits.
pub make_branch_imm_fields :
    (i : Instruction) (target reconvergence : ℕ)
    → target < 2 ^ 16
    → reconvergence < 2 ^ 16
    → i.imm ≡ make_branch_imm target reconvergence
    → (branch_target i ≡ target) × (reconvergence_pc i ≡ reconvergence) × (i.imm < 2 ^ 32)
unfolding branch_target reconvergence_pc make_branch_imm
make_branch_imm_fields i t r ht hr e =
    let shifted : r * 2 ^ 16 % 2 ^ 32 ≡ r * 2 ^ 16 = omega arith in
    let halves : bit_or (r * 2 ^ 16 % 2 ^ 32) t ≡ r * 2 ^ 16 + t =
      rw shifted (bit_or-disjoint 16 r t ht) in
    (omega (arith, bit_and-mask 16 i.imm), omega arith, omega arith)
