-- ===== src/Core/Warp/Masks.antt =====
-- The execution mask of `Warp::step` (src/core/warp.cpp): the guard is applied lane by lane.
use warp_sim.Base.{
  ℕ, suc, ◌^◌, ◌<◌, ◌≤◌, ltb, ◌==◌, if◌then◌else◌, ◌&&◌, ◌||◌, Bool, not, ◌≡◌, arith, Bool-cases,
  ==_iff, inl, inr, bit_or,
}
use warp_sim.Bits.{bit, bit-le-one, bit-zero, bit-bit_or, bit_or-lt}
use warp_sim.Isa.Instruction.{Instruction}
use warp_sim.Core.Types.{LaneMask, has_lane, lane_bit}
use warp_sim.Core.Types.Loops.{for_range_inv}
use warp_sim.Core.Types.Masks.{has_lane-bit, bit-lane_bit}
use warp_sim.Core.Registers.{read_pred}
use warp_sim.Core.Warp.{WarpState}
use warp_sim.Core.Warp.Step.{differs, guard_mask, exec_mask}

-- The lane is active and its predicate passes the guard.
abbrev passes : Instruction → WarpState → ℕ → Bool
passes i s lane =
    has_lane s.active lane && differs (read_pred s.registers lane i.guard.pred) i.guard.negate

lane_bit-lt : (l : ℕ) → lane_bit l < 2 ^ 32
unfolding lane_bit
lane_bit-lt l = omega arith

module _ (p : ℕ → Bool) where
  -- The mask of the lanes below k at which the test passes.
  record Collected (k : ℕ) (m : LaneMask) : Type 0 where
    fits : m < 2 ^ 32
    bits : (l : ℕ) → l < 32 → bit m l ≡ (if ltb l k && p l then 1 else 0)

  collect-Collected :
      (k : ℕ) (m : LaneMask)
      → k < 32
      → Collected k m
      → Collected (suc k) (if p k then bit_or m (lane_bit k) else m)
  collect-Collected k m hk c = elim (Bool-cases (p k)) [
    | inl pass ↦ rw pass (record {
      fits = bit_or-lt 32 m (lane_bit k) c.fits (lane_bit-lt k);
      bits = λ l lt.
          rw (bit-bit_or m (lane_bit k) l, bit-lane_bit k l hk, c.bits l lt)
            (elim (Bool-cases (l == k)) [
              | inl same ↦ rw ((==_iff l k).0 same, pass) (ground arith)
              | inr other ↦ ground (arith, other)
            ]);
    })
    | inr miss ↦ rw miss (record {
      fits = c.fits;
      bits = λ l lt. rw (c.bits l lt) (elim (Bool-cases (l == k)) [
        | inl same ↦ rw ((==_iff l k).0 same, miss) (ground arith)
        | inr other ↦ ground (arith, other)
      ]);
    })
  ]

guard_mask-Collected :
    (i : Instruction) (s : WarpState) → Collected (passes i s) 32 (guard_mask i s)
unfolding guard_mask
guard_mask-Collected i s =
    for_range_inv (Collected (passes i s)) _ 32 0 32 0 (omega arith)
      (λ l t h c. collect-Collected (passes i s) l t h c)
      (record { fits = omega arith; bits = λ l lt. rw (bit-zero l) (ground arith) })

pub exec_mask-lt : (i : Instruction) (s : WarpState) → s.active < 2 ^ 32 → exec_mask i s < 2 ^ 32
unfolding exec_mask
exec_mask-lt i s h = elim (Bool-cases i.guard.present) [
  | inl e ↦ rw e (guard_mask-Collected i s).fits
  | inr e ↦ rw e h
]

guard_mask-bit :
    (i : Instruction) (s : WarpState) (l : ℕ)
    → l < 32
    → bit (guard_mask i s) l ≡ (if passes i s l then 1 else 0)
guard_mask-bit i s l lt = ground (arith, (guard_mask-Collected i s).bits l lt, lt)

-- A lane below 32 executes an instruction exactly when it is active and, under a guard, its
-- predicate register differs from the guard's negation.
pub exec_mask_lane :
    (i : Instruction) (s : WarpState) (l : ℕ)
    → l < 32
    → has_lane (exec_mask i s) l ≡ (
        has_lane s.active l
        && (not i.guard.present || differs (read_pred s.registers l i.guard.pred) i.guard.negate))
unfolding exec_mask
exec_mask_lane i s l lt = elim (Bool-cases i.guard.present) [
  | inl e ↦ rw (e, has_lane-bit (guard_mask i s) l lt, guard_mask-bit i s l lt) (ground arith)
  | inr e ↦ rw e (ground arith)
]

-- Only active lanes execute.
pub exec_mask-le :
    (i : Instruction) (s : WarpState) (l : ℕ) → l < 32 → bit (exec_mask i s) l ≤ bit s.active l
unfolding exec_mask
exec_mask-le i s l lt = elim (Bool-cases i.guard.present) [
  | inl e ↦
      rw (e, guard_mask-bit i s l lt, has_lane-bit s.active l lt)
        (ground (arith, bit-le-one s.active l))
  | inr e ↦ rw e (omega arith)
]
