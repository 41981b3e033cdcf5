-- ===== src/Core/Device/Progress.antt =====
-- The scheduler of src/core/device.cpp: it never gets stuck, and a pass never runs out of a step's fuel.
use warp_sim.Base.{
  Bool, true, false, not, ◌&&◌, ◌||◌, ◌≡◌, ◌≢◌, ◌⊎◌, refl, ap, ◌∙◌, subst, arith, List, [], ◌∷◌,
  Bool-cases, inl, inr,
}
use warp_sim.Isa.Instruction.{Instruction}
use warp_sim.Core.Alu.{Binary32}
use warp_sim.Core.Memory.{BlockMemory}
use warp_sim.Core.Warp.{Warp, Fault, finished}
use warp_sim.Core.Device.{
  LaunchStats, Pass, Ended, value, faulted, out_of_fuel, pass, turn, is_waiting, prepend,
}
use warp_sim.Core.Device.Block.{all_parked, no_progress, verdict}

or_not_false : (a b : Bool) → (a || not b) ≡ false → (a ≡ false) × (b ≡ true)
or_not_false a b h = ground arith

both_true : {a b : Bool} → a ≡ true → b ≡ true → (a && b) ≡ true
both_true h k = ground arith

-- How a call that may end in three ways ended.
Ended-cases :
    {A : Type 0} (r : Ended A)
    → ((a : A) × (r ≡ value a))
      ⊎ (((f : Fault) × (m : BlockMemory) × (r ≡ faulted f m)) ⊎ (r ≡ out_of_fuel))
Ended-cases (value a) = inl (a, refl)
Ended-cases (faulted f m) = inr (inl (f, m, refl))
Ended-cases out_of_fuel = inr (inr refl)

prepend-value :
    (w : Warp) (r : Ended Pass) (p : Pass)
    → prepend w r ≡ value p
    → (q : Pass) × (r ≡ value q) × (record q { warps = w ∷ q.warps } ≡ p)
unfolding prepend
prepend-value w (value q) p h = (q, refl, cc)
prepend-value w (faulted f m) p h = cc
prepend-value w out_of_fuel p h = cc

faulted-ne-value : {A : Type 0} {f : Fault} {m : BlockMemory} {a : A} → faulted f m ≢ value a
faulted-ne-value h = cc

out_of_fuel-ne-value : {A : Type 0} {a : A} → out_of_fuel ≢ value a
out_of_fuel-ne-value h = cc

module _ (fp : Binary32) (program : List Instruction) where
  -- A pass that ends takes the turn of the first warp and then passes over the others.
  pub pass-cons :
      (w : Warp) (ws : List Warp) (m : BlockMemory) (s : LaunchStats) (any : Bool) (p : Pass)
      → pass fp program (w ∷ ws) m s any ≡ value p
      → (w' : Warp) × (m' : BlockMemory) × (s' : LaunchStats) × (q : Pass) × (turn fp program w m s
          ≡ value (w', m', s'))
        × (pass fp program ws m' s' (any || not (is_waiting w)) ≡ value q)
        × (record q { warps = w' ∷ q.warps } ≡ p)
  pass-cons w ws m s any p h = elim (Ended-cases (turn fp program w m s)) [
    | inl ((w', m', s'), e) ↦
        let (q, r, same) =
          prepend-value w' (pass fp program ws m' s' (any || not (is_waiting w))) p
            (unfold pass in rw (e, pass) at h) in
        (w', m', s', q, e, r, same)
    | inr (inl (f, m', e)) ↦
        absurd
          (faulted-ne-value {A = Pass} {f = f} {m = m'} {a = p} (unfold pass in rw (e, pass) at h))
    | inr (inr e) ↦
        absurd (out_of_fuel-ne-value {A = Pass} {a = p} (unfold pass in rw (e, pass) at h))
  ]

  pass-nil :
      (m : BlockMemory) (s : LaunchStats) (any : Bool) (p : Pass)
      → pass fp program [] m s any ≡ value p
      → record { warps = []; memory = m; stats = s; any_runnable = any } ≡ p
  unfolding pass
  pass-nil m s any p h = cc

  waiting_turn :
      (w w' : Warp) (m m' : BlockMemory) (s s' : LaunchStats)
      → is_waiting w ≡ true
      → turn fp program w m s ≡ value (w', m', s')
      → w ≡ w'
  unfolding turn
  waiting_turn w w' m m' s s' waits e = first (rw (waits, turn) at e)
    where
      first :
          ◌≡◌ {A = Ended (Warp × BlockMemory × LaunchStats)} (value (w, m, s)) (value (w', m', s'))
          → w ≡ w'
      first h = cc

  -- A pass in which no warp could run leaves every warp finished or parked.
  idle_pass :
      (ws : List Warp) (m : BlockMemory) (s : LaunchStats) (any : Bool) (p : Pass)
      → pass fp program ws m s any ≡ value p
      → p.any_runnable ≡ false
      → (any ≡ false) × (all_parked p.warps ≡ true)
  unfolding all_parked finished is_waiting
  idle_pass [] m s any p h idle =
      let e = pass-nil m s any p h in
      (
        ap (λ (q : Pass). q.any_runnable) e ∙ idle,
        subst (λ (q : Pass). all_parked q.warps ≡ true) e refl,
      )
  idle_pass (w ∷ ws) m s any p h idle =
      let (w', m', s', q, t, r, same) = pass-cons w ws m s any p h in
      let (none_before, parked) =
        idle_pass ws m' s' (any || not (is_waiting w)) q r
          (ap (λ (q : Pass). q.any_runnable) same ∙ idle) in
      let (quiet, waits) = or_not_false any (is_waiting w) none_before in
      (
        quiet,
        subst (λ (q : Pass). all_parked q.warps ≡ true) same
            (unfold all_parked in
              both_true
                (subst (λ (v : Warp). is_waiting v ≡ true) (waiting_turn w w' m m' s s' waits t)
                  waits)
                parked),
      )

-- After a pass over any warps that ended without a fault, the scheduler does not take the branch
-- that reports "scheduler made no progress".
pub verdict-progress :
    (fp : Binary32) (program : List Instruction) (ws : List Warp) (m : BlockMemory)
    (s : LaunchStats) (p : Pass)
    → pass fp program ws m s false ≡ value p
    → verdict p ≢ no_progress
unfolding verdict
verdict-progress fp program ws m s p h = elim (Bool-cases p.any_runnable) [
  | inl busy ↦ ground (arith, busy)
  | inr idle ↦ ground (arith, idle, idle_pass fp program ws m s false p h idle)
]
