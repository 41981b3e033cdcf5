-- ===== src/Asm/Cfg/Successors.antt =====
-- The edges of the control-flow graph (docs/wisa-spec.md section 8.1), and that the third loop of
-- `build_cfg` in src/asm/reconvergence.cpp makes them.
use mathlib.Core.List.{Memᴰ}
use mathlib.Core.List.Memᴰ
use warp_sim.Base.{
  ℕ, ◌+◌, ◌<◌, ltb, ◌≡◌, ◌⊎◌, inl, inr, refl, sym, arith, if◌then◌else◌, Bool, true, false, List,
  [], ◌∷◌, get_or, length, Bool-cases, subst,
}
use warp_sim.Isa.Opcode.{Opcode}
use warp_sim.Isa.Instruction.{Instruction, branch_target}
use warp_sim.Asm.Cfg.{Cfg, Blocks, fallthrough, edges, cfg_of, is_bra, is_exit, is_terminator}

-- Control may go on to the next instruction.
abbrev FallsThrough : Instruction → Type 0
FallsThrough i = (is_terminator i ≡ false) ⊎ (i.guard.present ≡ true)

-- The edges of a block whose last instruction is i at `last`. After the program comes the exit.
pub data Edge (program : List Instruction) (cfg : Cfg) (last : ℕ) (i : Instruction)
    : ℕ → Type 0 where
  to_target : is_bra i ≡ true → Edge program cfg last i (get_or cfg.block_of (branch_target i) 0)
  to_exit : is_exit i ≡ true → Edge program cfg last i cfg.exit_node
  to_next :
      FallsThrough i
      → last + 1 < length program
      → Edge program cfg last i (get_or cfg.block_of (last + 1) 0)
  past_end : FallsThrough i → last + 1 ≡ length program → Edge program cfg last i cfg.exit_node

-- No instruction is both a `bra` and an `exit`.
bra-not_exit :
    (o : Opcode)
    → (elim o as (λ _. Bool) [ Opcode.bra ↦ true | _ ↦ false ]) ≡ true
    → (elim o as (λ _. Bool) [ Opcode.exit ↦ true | _ ↦ false ]) ≡ false
bra-not_exit Opcode.bra h = refl
bra-not_exit _ h = absurd (cc (h))

Memᴰ-one : {x y : ℕ} → Memᴰ x (y ∷ []) → x ≡ y
Memᴰ-one (Memᴰ.head e) = e
Memᴰ-one (Memᴰ.tail m) = absurd (Memᴰ.not-nil m)

module _ (program : List Instruction) (s : Blocks) (i : Instruction) (last : ℕ) where
  fallthrough-Edge :
      last < length program
      → FallsThrough i
      → Edge program (cfg_of program s) last i (fallthrough program s last)
  unfolding fallthrough cfg_of
  fallthrough-Edge inside falls = elim (Bool-cases (ltb (last + 1) (length program))) [
    | inl e ↦ rw (fallthrough, e) (to_next falls (ground (arith, e)))
    | inr e ↦ rw (fallthrough, e) (past_end falls (ground (arith, e, inside)))
  ]

  guarded-Edge :
      (g : Bool) (x : ℕ)
      → i.guard.present ≡ g
      → last < length program
      → Memᴰ x (if g then fallthrough program s last ∷ [] else [])
      → Edge program (cfg_of program s) last i x
  guarded-Edge true x g inside m =
      subst (Edge program (cfg_of program s) last i) (sym (Memᴰ-one m))
        (fallthrough-Edge inside (inr g))
  guarded-Edge false x g inside m = absurd (Memᴰ.not-nil m)

  -- The head of a list, or its rest.
  first_or-Edge :
      (y x : ℕ)
      → Edge program (cfg_of program s) last i y
      → last < length program
      → Memᴰ x (y ∷ (if i.guard.present then fallthrough program s last ∷ [] else []))
      → Edge program (cfg_of program s) last i x
  first_or-Edge y x edge inside (Memᴰ.head e) =
      subst (Edge program (cfg_of program s) last i) (sym e) edge
  first_or-Edge y x edge inside (Memᴰ.tail m) = guarded-Edge i.guard.present x refl inside m

  pub edges-Edge :
      (x : ℕ)
      → last < length program
      → Memᴰ x (edges program s i last)
      → Edge program (cfg_of program s) last i x
  unfolding edges
  edges-Edge x inside m = elim (Bool-cases (is_bra i)) [
    | inl b ↦
        first_or-Edge (get_or s.block_of (branch_target i) 0) x (unfold cfg_of in to_target b)
          inside (rw (edges, b) at m)
    | inr b ↦ elim (Bool-cases (is_exit i)) [
      | inl e ↦
          first_or-Edge (length s.leaders) x (unfold cfg_of in to_exit e) inside
            (rw (edges, b, e) at m)
      | inr e ↦
          subst (Edge program (cfg_of program s) last i) (sym (Memᴰ-one (rw (edges, b, e) at m)))
            (fallthrough-Edge inside (inl (rw (b, e) refl)))
    ]
  ]

  falls-guarded : is_terminator i ≡ true → FallsThrough i → i.guard.present ≡ true
  falls-guarded t (inl f) = absurd (cc (t, f))
  falls-guarded t (inr g) = g

  falls-edges : FallsThrough i → Memᴰ (fallthrough program s last) (edges program s i last)
  unfolding edges
  falls-edges falls = elim (Bool-cases (is_bra i)) [
    | inl b ↦
        let g : i.guard.present ≡ true = falls-guarded (rw b refl) falls in
        rw (edges, b, g) (Memᴰ.tail (Memᴰ.head refl))
    | inr b ↦ elim (Bool-cases (is_exit i)) [
      | inl e ↦
          let g : i.guard.present ≡ true = falls-guarded (rw (b, e) refl) falls in
          rw (edges, b, e, g) (Memᴰ.tail (Memᴰ.head refl))
      | inr e ↦ rw (edges, b, e) (Memᴰ.head refl)
    ]
  ]

  exit-not_bra : is_exit i ≡ true → is_bra i ≡ false
  exit-not_bra e = elim (Bool-cases (is_bra i)) [
    | inl b ↦ absurd (cc (bra-not_exit i.opcode b, e))
    | inr b ↦ b
  ]

  pub Edge-edges :
      (x : ℕ) → Edge program (cfg_of program s) last i x → Memᴰ x (edges program s i last)
  unfolding edges cfg_of
  Edge-edges _ (to_target b) = rw (edges, b) (Memᴰ.head refl)
  Edge-edges _ (to_exit e) = rw (edges, exit-not_bra e, e) (Memᴰ.head refl)
  Edge-edges _ (to_next falls lt) =
      let next : fallthrough program s last ≡ get_or s.block_of (last + 1) 0 =
        unfold fallthrough in ground (arith, lt) in
      subst (λ y. Memᴰ y (edges program s i last)) next (falls-edges falls)
  Edge-edges _ (past_end falls end) =
      let next : fallthrough program s last ≡ length s.leaders =
        unfold fallthrough in ground (arith, end) in
      subst (λ y. Memᴰ y (edges program s i last)) next (falls-edges falls)
