-- ===== src/Core/Alu/Lanes.antt =====
-- `execute_alu` of src/core/alu.cpp, one lane at a time: lanes are independent of one another.
use warp_sim.Base.{
  ℕ, zero, suc, ◌+◌, ◌<◌, ◌≤◌, ◌==◌, if◌then◌else◌, Bool, not, ◌&&◌, ◌≡◌, ◌≢◌, refl, ◌∙◌, arith,
  Bool-cases, inl, inr, subst,
}
use native.Mathlib.Decide.{ℕ_discrete}
use warp_sim.Isa.Instruction.{Instruction}
use warp_sim.Core.Types.{LaneMask, LaneContext, has_lane, for_range}
use warp_sim.Core.Registers.{RegisterFile, read, write, read_pred, write_pred}
use warp_sim.Core.Alu.{
  Binary32, fetch, evaluate, is_setp, is_setp_f32, compare_f32, compare_s32, execute_lane,
  execute_alu,
}

-- Two register files agree on a lane.
pub record SameLane (lane : ℕ) (s t : RegisterFile) : Type 0 where
  pub general : (r : ℕ) → read s lane r ≡ read t lane r
  pub predicates : (p : ℕ) → read_pred s lane p ≡ read_pred t lane p

SameLane-refl : (j : ℕ) (s : RegisterFile) → SameLane j s s
SameLane-refl j s = record { general = λ r. refl; predicates = λ p. refl }

SameLane-trans : (j : ℕ) (s t u : RegisterFile) → SameLane j s t → SameLane j t u → SameLane j s u
SameLane-trans j s t u a b = record {
  general = λ r. a.general r ∙ b.general r;
  predicates = λ p. a.predicates p ∙ b.predicates p;
}

-- A loop over lanes whose body touches its own lane only, and reads no other.
module _ (body : ℕ → RegisterFile → RegisterFile)
    (other : (l j : ℕ) (s : RegisterFile) → l ≢ j → SameLane j (body l s) s)
    (own : (j : ℕ) (s t : RegisterFile) → SameLane j s t → SameLane j (body j s) (body j t)) where
  for_range_above : (n i j : ℕ) (s : RegisterFile) → j < i → SameLane j (for_range n i body s) s
  unfolding for_range
  for_range_above zero i j s h = SameLane-refl j s
  for_range_above (suc n) i j s h =
      SameLane-trans j _ (body i s) s (for_range_above n (i + 1) j (body i s) (omega arith))
        (other i j s (λ e. omega arith))

  pub for_range-SameLane :
      (n i j : ℕ) (s : RegisterFile)
      → i ≤ j
      → j < i + n
      → SameLane j (for_range n i body s) (body j s)
  unfolding for_range
  for_range-SameLane zero i j s h k = absurd (omega arith)
  for_range-SameLane (suc n) i j s h k = elim (ℕ_discrete i j) [
    | yes e ↦
        subst (λ l. SameLane j (for_range n (i + 1) body (body i s)) (body l s)) e
          (for_range_above n (i + 1) j (body i s) (omega arith))
    | no ne ↦
        SameLane-trans j _ (body j (body i s)) (body j s)
          (for_range-SameLane n (i + 1) j (body i s) (omega arith) (omega arith))
          (own j (body i s) s (other i j s ne))
  ]

module _ (fp : Binary32) (i : Instruction) (ctx : LaneContext) where
  write_other : (l j r v : ℕ) (s : RegisterFile) → l ≢ j → SameLane j (write s l r v) s
  unfolding read write read_pred
  write_other l j r v s ne = record { general = λ q. ground arith; predicates = λ p. refl }

  write_pred_other :
      (l j p : ℕ) (v : Bool) (s : RegisterFile) → l ≢ j → SameLane j (write_pred s l p v) s
  unfolding read write_pred read_pred
  write_pred_other l j p v s ne = record { general = λ q. refl; predicates = λ q. ground arith }

  execute_lane_other :
      (l j : ℕ) (s : RegisterFile) → l ≢ j → SameLane j (execute_lane fp i ctx l s) s
  unfolding execute_lane
  execute_lane_other l j s ne = elim (Bool-cases (is_setp i.opcode)) [
    | inl e ↦ rw e (write_pred_other l j i.dst _ s ne)
    | inr e ↦ rw e (write_other l j i.dst _ s ne)
  ]

  write_own :
      (j r v : ℕ) (s t : RegisterFile) → SameLane j s t → SameLane j (write s j r v) (write t j r v)
  unfolding read write read_pred
  write_own j r v s t h = record {
    general = λ q. ground (arith, h.general q);
    predicates = λ p. h.predicates p;
  }

  write_pred_own :
      (j p : ℕ) (v : Bool) (s t : RegisterFile)
      → SameLane j s t
      → SameLane j (write_pred s j p v) (write_pred t j p v)
  unfolding read write_pred read_pred
  write_pred_own j p v s t h = record {
    general = λ q. h.general q;
    predicates = λ q. ground (arith, h.predicates q);
  }

  fetch-SameLane : (j : ℕ) (s t : RegisterFile) → SameLane j s t → fetch i s j ≡ fetch i t j
  unfolding fetch
  fetch-SameLane j s t h = rw (h.general i.src0, h.general i.src1)

  execute_lane_own :
      (j : ℕ) (s t : RegisterFile)
      → SameLane j s t
      → SameLane j (execute_lane fp i ctx j s) (execute_lane fp i ctx j t)
  unfolding execute_lane
  execute_lane_own j s t h =
      rw (fetch-SameLane j s t h, h.general i.dst)
        (elim (Bool-cases (is_setp i.opcode)) [
          | inl e ↦ rw e (write_pred_own j i.dst _ s t h)
          | inr e ↦ rw e (write_own j i.dst _ s t h)
        ])

  module _ (exec : LaneMask) where
    masked : ℕ → RegisterFile → RegisterFile
    masked lane s = if has_lane exec lane then execute_lane fp i ctx lane s else s

    masked_other : (l j : ℕ) (s : RegisterFile) → l ≢ j → SameLane j (masked l s) s
    unfolding masked
    masked_other l j s ne = elim (Bool-cases (has_lane exec l)) [
      | inl e ↦ rw e (execute_lane_other l j s ne)
      | inr e ↦ rw e (SameLane-refl j s)
    ]

    masked_own :
        (j : ℕ) (s t : RegisterFile) → SameLane j s t → SameLane j (masked j s) (masked j t)
    unfolding masked
    masked_own j s t h = elim (Bool-cases (has_lane exec j)) [
      | inl e ↦ rw e (execute_lane_own j s t h)
      | inr e ↦ rw e h
    ]

    execute_alu-SameLane :
        (rf : RegisterFile) (j : ℕ)
        → j < 32
        → SameLane j (execute_alu fp i ctx exec rf) (masked j rf)
    unfolding execute_alu masked
    execute_alu-SameLane rf j h =
        for_range-SameLane masked masked_other masked_own 32 0 j rf (omega arith) (omega arith)

-- What `execute_alu` leaves in a lane below 32. A lane of the mask gets the value computed from
-- its own old registers in the destination: a predicate register for `setp`, a general one for the
-- others. Every other register of the lane, and every lane outside the mask, is as before.
pub execute_alu_lane :
    (fp : Binary32) (i : Instruction) (ctx : LaneContext) (exec : LaneMask) (rf : RegisterFile)
    (j r p : ℕ)
    → j < 32
    → (read (execute_alu fp i ctx exec rf) j r ≡ (
        if has_lane exec j && not (is_setp i.opcode) && r == i.dst
        then evaluate fp i i.opcode (fetch i rf j) (read rf j i.dst) j ctx
        else read rf j r))
      × (read_pred (execute_alu fp i ctx exec rf) j p ≡ (
          if has_lane exec j && is_setp i.opcode && p == i.dst
          then (if is_setp_f32 i.opcode
              then compare_f32 fp i.opcode (fetch i rf j).a (fetch i rf j).b
              else compare_s32 i.opcode (fetch i rf j).a (fetch i rf j).b)
          else read_pred rf j p))
execute_alu_lane fp i ctx exec rf j r p h =
    let same = execute_alu-SameLane fp i ctx exec rf j h in
    (rw (same.general r) (own_general r), rw (same.predicates p) (own_predicate p))
  where
    own_general :
        (r : ℕ)
        → read (masked fp i ctx exec j rf) j r ≡ (
            if has_lane exec j && not (is_setp i.opcode) && r == i.dst
            then evaluate fp i i.opcode (fetch i rf j) (read rf j i.dst) j ctx
            else read rf j r)
    own_general r = unfold masked execute_lane write write_pred read in ground arith

    own_predicate :
        (p : ℕ)
        → read_pred (masked fp i ctx exec j rf) j p ≡ (
            if has_lane exec j && is_setp i.opcode && p == i.dst
            then (if is_setp_f32 i.opcode
                then compare_f32 fp i.opcode (fetch i rf j).a (fetch i rf j).b
                else compare_s32 i.opcode (fetch i rf j).a (fetch i rf j).b)
            else read_pred rf j p)
    own_predicate p = unfold masked execute_lane write write_pred read_pred in ground arith
