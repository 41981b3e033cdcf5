-- ===== src/Core/Warp/Termination.antt =====
-- The loops of `resolve_stack` and at the head of `step` (src/core/warp.cpp) end: a pop either
-- shortens the divergence stack or puts a join entry in the place of a deferred path.
use warp_sim.Base.{
  ℕ, zero, suc, ◌+◌, ◌*◌, ◌<◌, ◌≤◌, ◌==◌, if◌then◌else◌, Bool, true, false, ◌≡◌, ◌⊎◌, refl, arith,
  List, [], ◌∷◌, map, length, some, Bool-cases, Option-cases, inl, inr, get_elem?, bit_and, ◌^◌,
}
use warp_sim.Isa.Instruction.{Instruction}
use warp_sim.Bits.{bit-le-one, bit_and-lt, bit_ext_zero}
use warp_sim.Core.Types.{LaneMask, complement}
use warp_sim.Core.Types.Masks.{bit-and_not}
use warp_sim.Core.Warp.{
  DivergenceEntry, WarpState, Warp, is_join, switch_to, Round, drained, ready, again,
  resume_deferred, reconverge, resolve_round, resolve, resolve_stack, clear_entry, retire, Next,
  no_lanes, issue, next_instruction,
}

-- A deferred path can be popped twice: once itself, once as the join that replaces it.
unfoldable pub weight : List DivergenceEntry → ℕ
weight [] = 0
weight (e ∷ rest) = (if is_join e then 1 else 2) + weight rest

weight-le : (es : List DivergenceEntry) → weight es ≤ 2 * length es
unfolding weight
weight-le [] = omega arith
weight-le (e ∷ es) = ground (arith, weight-le es)

weight-switch_to :
    (e : DivergenceEntry) (arrived : LaneMask) (s : WarpState)
    → weight (switch_to e arrived s).stack + 1 ≤ (if is_join e then 1 else 2) + weight s.stack
unfolding weight switch_to
weight-switch_to e arrived s = ground arith

resume_deferred-weight :
    (es : List DivergenceEntry) (w w' : Warp)
    → resume_deferred es w ≡ again w'
    → weight w'.state.stack < weight es
unfolding resume_deferred weight
resume_deferred-weight [] w w' h = cc
resume_deferred-weight (e ∷ rest) w w' h =
    ground (arith, h, weight-switch_to e 0 (record w.state { stack = rest }))

reconverge-weight :
    (es : List DivergenceEntry) (w w' : Warp)
    → reconverge es w ≡ again w'
    → weight w'.state.stack < weight es
unfolding reconverge weight
reconverge-weight [] w w' h = cc
reconverge-weight (e ∷ rest) w w' h =
    ground (arith, h, weight-switch_to e w.state.active (record w.state { stack = rest }))

-- Every round that goes on makes the stack lighter.
resolve_round-weight :
    (w w' : Warp) → resolve_round w ≡ again w' → weight w'.state.stack < weight w.state.stack
unfolding resolve_round
resolve_round-weight w w' h = elim (Bool-cases (w.state.active == 0)) [
  | inl e ↦ resume_deferred-weight w.state.stack w w' (rw (e, resolve_round) at h)
  | inr e ↦ reconverge-weight w.state.stack w w' (rw (e, resolve_round) at h)
]

Round-cases : (r : Round) → (r ≡ drained) ⊎ ((r ≡ ready) ⊎ ((w : Warp) × (r ≡ again w)))
Round-cases drained = inl refl
Round-cases ready = inr (inl refl)
Round-cases (again w) = inr (inr (w, refl))

-- A property that every round keeps holds when the loop returns, and the last round was decisive.
resolve_rule {ℓ} :
    (P : Warp → Type ℓ)
    → ((w w' : Warp) → resolve_round w ≡ again w' → P w → P w')
    → (fuel : ℕ) (w : Warp) → weight w.state.stack < fuel
    → P w
    → (b : Bool) × (w' : Warp) × (resolve fuel w ≡ some (b, w'))
      × P w'
      × (resolve_round w' ≡ (if b then ready else drained))
      × (weight w'.state.stack ≤ weight w.state.stack)
unfolding resolve
resolve_rule P keep zero w h p = absurd (omega arith)
resolve_rule P keep (suc fuel) w h p = elim (Round-cases (resolve_round w)) [
  | inl e ↦ (false, w, rw (e, resolve), p, e, omega arith)
  | inr (inl e) ↦ (true, w, rw (e, resolve), p, e, omega arith)
  | inr (inr (w', e)) ↦
      let lighter = resolve_round-weight w w' e in
      let (b, v, r, q, last, le) =
        resolve_rule P keep fuel w' (omega (arith, lighter)) (keep w w' e p) in
      (b, v, rw (e, resolve) r, q, last, omega (arith, lighter, le))
]

ready-active : (w : Warp) → resolve_round w ≡ ready → (w.state.active == 0) ≡ false
unfolding resolve_round
ready-active w h = elim (Bool-cases (w.state.active == 0)) [
  | inl e ↦ not_ready w.state.stack (rw (e, resolve_round) at h)
  | inr e ↦ e
]
  where
    not_ready :
        (es : List DivergenceEntry) → resume_deferred es w ≡ ready → (w.state.active == 0) ≡ false
    not_ready [] h = cc
    not_ready (e ∷ es) h = cc

-- The weight, and one more while lanes are active.
measure : Warp → ℕ
measure w = weight w.state.stack + (if w.state.active == 0 then 0 else 1)

measure-round : (w w' : Warp) → resolve_round w ≡ again w' → measure w' ≤ measure w
unfolding measure
measure-round w w' h = ground (arith, resolve_round-weight w w' h)

weight-clear :
    (lanes : LaneMask) (es : List DivergenceEntry) → weight (map (clear_entry lanes) es) ≡ weight es
unfolding weight clear_entry is_join
weight-clear lanes [] = refl
weight-clear lanes (e ∷ es) = ground (arith, weight-clear lanes es)

-- The state in which `step` goes round its loop: the current path is retired.
abbrev pub retired : Warp → Warp
retired w = record w { state = retire w.state.active w.state }

bit_and-not_self : (m : LaneMask) → m < 2 ^ 32 → bit_and m (complement m) ≡ 0
bit_and-not_self m h =
    bit_ext_zero 32 (bit_and m (complement m)) (bit_and-lt 32 m (complement m) h)
      λ l lt. omega (arith, bit-and_not m m l h lt, bit-le-one m l)

measure-retired :
    (w : Warp)
    → w.state.active < 2 ^ 32
    → (w.state.active == 0) ≡ false
    → measure (retired w) < measure w
unfolding measure retire
measure-retired w fits h =
    rw (bit_and-not_self w.state.active fits, h, weight-clear w.state.active w.state.stack)
      (omega arith)

-- What the loop at the head of `step` hands over.
abbrev pub Handed {ℓ} : (Warp → Type ℓ) → List Instruction → Next → Type ℓ
Handed P program (no_lanes w) = P w × (resolve_round w ≡ drained)
Handed P program (issue w i) =
    P w × (resolve_round w ≡ ready) × (get_elem? program w.state.pc ≡ some i)

resolve_stack_rule {ℓ} :
    (P : Warp → Type ℓ)
    → ((w w' : Warp) → resolve_round w ≡ again w' → P w → P w')
    → (w : Warp) → P w
    → (b : Bool) × (w' : Warp) × (resolve_stack w ≡ some (b, w'))
      × P w'
      × (measure w' ≤ measure w)
      × (resolve_round w' ≡ (if b then ready else drained))
unfolding resolve_stack
resolve_stack_rule P keep w p =
    let (b, v, r, q, last, le) =
      resolve_rule (λ v. P v × (measure v ≤ measure w))
        (λ u u' e q. (keep u u' e q.0, omega (arith, measure-round u u' e, q.1)))
        (2 * length w.state.stack + 1) w (omega (arith, weight-le w.state.stack))
        (p, omega arith) in
    (b, v, r, q.0, q.1, last)

module _ {ℓ} (P : Warp → Type ℓ) (fits : (w : Warp) → P w → w.state.active < 2 ^ 32)
    (keep : (w w' : Warp) → resolve_round w ≡ again w' → P w → P w')
    (retires : (w : Warp) → P w → P (retired w)) (program : List Instruction) where
  -- The loop's promise at a given fuel.
  Promise : ℕ → Warp → Type ℓ
  Promise fuel w = (n : Next) × (next_instruction fuel program w ≡ some n) × Handed P program n

  after_resolve :
      (fuel : ℕ) (w w' : Warp) (b : Bool)
      → ((v : Warp) → measure v < fuel → P v → Promise fuel v)
      → resolve_stack w ≡ some (b, w')
      → P w'
      → measure w' ≤ fuel
      → resolve_round w' ≡ (if b then ready else drained)
      → Promise (suc fuel) w
  unfolding Promise next_instruction
  after_resolve fuel w w' false rec e q le last =
      (no_lanes w', rw (e, next_instruction) refl, (q, last))
  after_resolve fuel w w' true rec e q le last =
      elim (Option-cases (get_elem? program w'.state.pc)) [
        | inr (i, found) ↦ (issue w' i, rw (e, next_instruction) (rw found refl), (q, last, found))
        | inl off ↦
            let (n, r, handed) =
              rec (retired w')
                (omega (arith, measure-retired w' (fits w' q) (ready-active w' last)))
                (retires w' q) in
            (n, rw (e, next_instruction) (rw off r), handed)
      ]

  next_instruction_rule : (fuel : ℕ) (w : Warp) → measure w < fuel → P w → Promise fuel w
  next_instruction_rule zero w h p = absurd (omega arith)
  next_instruction_rule (suc fuel) w h p =
      let (b, w', e, q, le, last) = resolve_stack_rule P keep w p in
      after_resolve fuel w w' b (next_instruction_rule fuel) e q (omega (arith, le)) last

  -- The fuel that `step` gives its loop is enough.
  pub next_instruction_total :
      (w : Warp)
      → P w
      → (n : Next) × (next_instruction (2 * length w.state.stack + 2) program w ≡ some n)
        × Handed P program n
  unfolding Promise measure
  next_instruction_total w p =
      next_instruction_rule (2 * length w.state.stack + 2) w
        (ground (arith, weight-le w.state.stack)) p
