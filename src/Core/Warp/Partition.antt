-- ===== src/Core/Warp/Partition.antt =====
-- The invariant of the divergence stack (src/core/warp.cpp, docs/wisa-spec.md section 8.3): every lane
-- that has not retired is in exactly one mask, the active one or that of one stack entry.
use native.Mathlib.Decide.{ℕ_discrete}
use warp_sim.Base.{
  ℕ, ◌+◌, ◌^◌, ◌<◌, ◌==◌, ◌≡◌, refl, ap, arith, List, [], ◌∷◌, map, Bool-cases, ==_iff, inl, inr,
  subst,
}
use warp_sim.Bits.{bit, bit-le-one, bit-zero, bit-bit_or, bit_and-lt, bit_or-lt, bit_ext_zero}
use warp_sim.Core.Types.{LaneMask, complement}
use warp_sim.Core.Types.Masks.{bit-and_not}
use warp_sim.Core.Warp.{
  DivergenceEntry, WarpState, Warp, is_join, switch_to, again, drained, ready, resume_deferred,
  reconverge, resolve_round, clear_entry, retire,
}

-- In how many masks of the stack a lane is.
unfoldable pub occurrences : List DivergenceEntry → ℕ → ℕ
occurrences [] l = 0
occurrences (e ∷ es) l = bit e.mask l + occurrences es l

abbrev pub MasksFit : List DivergenceEntry → Type 0
MasksFit [] = Unit {0}
MasksFit (e ∷ es) = (e.mask < 2 ^ 32) × MasksFit es

-- `active` and the masks of the stack partition `live`.
pub record Partition (s : WarpState) : Type 0 where
  pub active_fits : s.active < 2 ^ 32
  pub live_fits : s.live < 2 ^ 32
  pub stack_fits : MasksFit s.stack
  pub lanes : (l : ℕ) → l < 32 → bit s.active l + occurrences s.stack l ≡ bit s.live l

switch_to-Partition :
    (e : DivergenceEntry) (arrived : LaneMask) (s : WarpState)
    → arrived < 2 ^ 32
    → e.mask < 2 ^ 32
    → s.live < 2 ^ 32
    → MasksFit s.stack
    → ((l : ℕ) → l < 32 → bit arrived l + (bit e.mask l + occurrences s.stack l) ≡ bit s.live l)
    → Partition (switch_to e arrived s)
unfolding switch_to
switch_to-Partition e arrived s ha he hl hs h = elim (Bool-cases (is_join e)) [
  | inl join ↦ rw join (record {
    active_fits = bit_or-lt 32 arrived e.mask ha he;
    live_fits = hl;
    stack_fits = hs;
    lanes = λ l lt. omega (arith, bit-bit_or arrived e.mask l, h l lt, bit-le-one s.live l);
  })
  | inr deferred ↦ rw deferred (elim (Bool-cases (arrived == 0)) [
    | inl none' ↦ rw none' (record {
      active_fits = he;
      live_fits = hl;
      stack_fits = hs;
      lanes = λ l lt.
          omega (arith, h l lt, ap (λ (t : ℕ). bit t l) ((==_iff arrived 0).0 none'), bit-zero l);
    })
    | inr some' ↦ rw some' (record {
      active_fits = he;
      live_fits = hl;
      stack_fits = (ha, hs);
      lanes = λ l lt. unfold occurrences in omega (arith, h l lt);
    })
  ])
]

again_inj : {a b : Warp} → again a ≡ again b → a ≡ b
again_inj h = cc

module _ (w w' : Warp) (ha : w.state.active < 2 ^ 32) (hl : w.state.live < 2 ^ 32) where
  resume_deferred-Partition :
      (es : List DivergenceEntry)
      → MasksFit es
      → ((l : ℕ) → l < 32 → bit w.state.active l + occurrences es l ≡ bit w.state.live l)
      → w.state.active ≡ 0
      → resume_deferred es w ≡ again w'
      → Partition w'.state
  unfolding resume_deferred
  resume_deferred-Partition [] fit h z e = cc
  resume_deferred-Partition (x ∷ rest) fit h z e =
      subst (λ (v : Warp). Partition v.state) (again_inj e)
        (switch_to-Partition x 0 (record w.state { stack = rest }) (omega arith) fit.0 hl fit.1
          (λ l lt. unfold occurrences in omega (arith, h l lt, ap (λ (t : ℕ). bit t l) z)))

  reconverge-Partition :
      (es : List DivergenceEntry)
      → MasksFit es
      → ((l : ℕ) → l < 32 → bit w.state.active l + occurrences es l ≡ bit w.state.live l)
      → reconverge es w ≡ again w'
      → Partition w'.state
  unfolding reconverge
  reconverge-Partition [] fit h e = cc
  reconverge-Partition (x ∷ rest) fit h e = elim (Bool-cases (x.reconvergence_pc == w.state.pc)) [
    | inl arrived ↦
        subst (λ (v : Warp). Partition v.state) (again_inj (rw (arrived, reconverge) at e))
          (switch_to-Partition x w.state.active (record w.state { stack = rest }) ha fit.0 hl fit.1
            (λ l lt. unfold occurrences in omega (arith, h l lt)))
    | inr elsewhere ↦ not_again (rw (elsewhere, reconverge) at e)
  ]
    where
      not_again : ready ≡ again w' → Partition w'.state
      not_again h = cc

-- A pop of the stack keeps the partition.
pub resolve_round-Partition :
    (w w' : Warp) → resolve_round w ≡ again w' → Partition w.state → Partition w'.state
unfolding resolve_round
resolve_round-Partition w w' h p = elim (Bool-cases (w.state.active == 0)) [
  | inl e ↦
      resume_deferred-Partition w w' p.active_fits p.live_fits w.state.stack p.stack_fits p.lanes
        ((==_iff w.state.active 0).0 e) (rw (e, resolve_round) at h)
  | inr e ↦
      reconverge-Partition w w' p.active_fits p.live_fits w.state.stack p.stack_fits p.lanes
        (rw (e, resolve_round) at h)
]

module _ (lanes : LaneMask) (fits : lanes < 2 ^ 32) where
  clear-MasksFit : (es : List DivergenceEntry) → MasksFit es → MasksFit (map (clear_entry lanes) es)
  unfolding clear_entry
  clear-MasksFit [] h = tt
  clear-MasksFit (e ∷ es) h = (bit_and-lt 32 e.mask (complement lanes) h.0, clear-MasksFit es h.1)

  clear_kept :
      (es : List DivergenceEntry) (l : ℕ)
      → l < 32
      → bit lanes l ≡ 0
      → occurrences (map (clear_entry lanes) es) l ≡ occurrences es l
  unfolding clear_entry occurrences
  clear_kept [] l lt z = refl
  clear_kept (e ∷ es) l lt z =
      omega (arith, clear_kept es l lt z, bit-and_not e.mask lanes l fits lt, bit-le-one e.mask l)

  clear_gone :
      (es : List DivergenceEntry) (l : ℕ)
      → l < 32
      → bit lanes l ≡ 1
      → occurrences (map (clear_entry lanes) es) l ≡ 0
  unfolding clear_entry occurrences
  clear_gone [] l lt o = refl
  clear_gone (e ∷ es) l lt o =
      omega (arith, clear_gone es l lt o, bit-and_not e.mask lanes l fits lt)

  -- Retiring any lanes keeps the partition.
  pub retire-Partition : (s : WarpState) → Partition s → Partition (retire lanes s)
  unfolding retire
  retire-Partition s p = record {
    active_fits = bit_and-lt 32 s.active (complement lanes) p.active_fits;
    live_fits = bit_and-lt 32 s.live (complement lanes) p.live_fits;
    stack_fits = clear-MasksFit s.stack p.stack_fits;
    lanes = λ l lt.
        let a = bit-and_not s.active lanes l fits lt in
        let v = bit-and_not s.live lanes l fits lt in
        let one = bit-le-one lanes l in
        elim (ℕ_discrete (bit lanes l) 0) [
          | yes z ↦ omega (
            arith,
            a,
            v,
            z,
            p.lanes l lt,
            clear_kept s.stack l lt z,
            bit-le-one s.active l,
            bit-le-one s.live l,
          )
          | no ne ↦ omega (arith, a, v, one, ne, clear_gone s.stack l lt (omega (arith, one, ne)))
        ];
  }

-- When the loop finds no path to resume, every lane has retired.
drained_stack : (es : List DivergenceEntry) (w : Warp) → resume_deferred es w ≡ drained → es ≡ []
unfolding resume_deferred
drained_stack [] w h = refl
drained_stack (e ∷ es) w h = cc

reconverge_not_drained : (es : List DivergenceEntry) (w : Warp) → ¬ (reconverge es w ≡ drained)
unfolding reconverge
reconverge_not_drained [] w h = cc
reconverge_not_drained (e ∷ es) w h = ground (arith, h)

pub drained-finished : (w : Warp) → Partition w.state → resolve_round w ≡ drained → w.state.live ≡ 0
unfolding resolve_round
drained-finished w p h = elim (Bool-cases (w.state.active == 0)) [
  | inl e ↦
      none_left ((==_iff w.state.active 0).0 e)
        (drained_stack w.state.stack w (rw (e, resolve_round) at h))
  | inr e ↦ absurd (reconverge_not_drained w.state.stack w (rw (e, resolve_round) at h))
]
  where
    none_left : w.state.active ≡ 0 → w.state.stack ≡ [] → w.state.live ≡ 0
    none_left z empty = bit_ext_zero 32 w.state.live p.live_fits λ l lt.
        unfold occurrences in
        omega (
          arith,
          p.lanes l lt,
          ap (λ (t : ℕ). bit t l) z,
          bit-zero l,
          ap (λ es. occurrences es l) empty,
        )
