-- ===== src/Asm/Cfg/Leaders.antt =====
-- Where the basic blocks begin (docs/wisa-spec.md section 8.1), and that the first loop of `build_cfg` in
-- src/asm/reconvergence.cpp marks exactly these instructions.
use mathlib.Core.Option.{some-injective}
use warp_sim.Base.{
  ℕ, zero, suc, ◌+◌, ◌<◌, ◌==◌, ltb, leb, ==_iff, ◌≡◌, ◌⊎◌, inl, inr, refl, sym, ◌∙◌, arith,
  if◌then◌else◌, Bool, true, false, ◌&&◌, ◌||◌, List, [], ◌∷◌, get_or, set, get_or-set, length-set,
  replicate, length-replicate, get_or-replicate, get_elem?, length, Bool-cases, some, ok, subst,
}
use warp_sim.Isa.Instruction.{Instruction, branch_target}
use warp_sim.Asm.Cfg.{mark_one, mark_leaders, is_bra, is_terminator}

-- A block begins at PC 0, at the target of a branch, and after a `bra` or an `exit`.
pub data Begins (program : List Instruction) : ℕ → Type 0 where
  first : Begins program 0
  target :
      (k : ℕ) (i : Instruction)
      → get_elem? program k ≡ some i
      → is_bra i ≡ true
      → Begins program (branch_target i)
  after :
      (k : ℕ) (i : Instruction)
      → get_elem? program k ≡ some i
      → is_terminator i ≡ true
      → Begins program (k + 1)

-- Whether the instruction i at `pc` makes a block begin at p.
abbrev marks : ℕ → Instruction → ℕ → Bool
marks pc i p = (is_bra i && branch_target i == p) || (is_terminator i && pc + 1 == p)

abbrev any_marks : ℕ → List Instruction → ℕ → Bool
any_marks pc [] p = false
any_marks pc (i ∷ is) p = marks pc i p || any_marks (pc + 1) is p

-- One conditional mark.
abbrev set_if : Bool → List Bool → ℕ → List Bool
set_if b flags t = if b then set flags t true else flags

length-set_if : (b : Bool) (flags : List Bool) (t : ℕ) → length (set_if b flags t) ≡ length flags
length-set_if true flags t = length-set flags t true
length-set_if false flags t = refl

set_if-at :
    (b : Bool) (flags : List Bool) (t p : ℕ)
    → p < length flags
    → get_or (set_if b flags t) p false ≡ (get_or flags p false || (b && t == p))
set_if-at true flags t p lt = ground (arith, lt, get_or-set flags t p true false)
set_if-at false flags t p lt = ground arith

two_marks :
    (old bra end : Bool) (t next p n : ℕ)
    → p < n
    → ((old || (bra && t == p)) || ((end && ltb next n) && next == p))
      ≡ (old || ((bra && t == p) || (end && next == p)))
two_marks old bra end t next p n lt = ground (arith, lt)

module _ (n pc : ℕ) (i : Instruction) (flags : List Bool) where
  length-mark_one : length (mark_one n pc i flags) ≡ length flags
  unfolding mark_one
  length-mark_one =
      length-set_if (is_terminator i && ltb (pc + 1) n) (set_if (is_bra i) flags (branch_target i))
        (pc + 1)
      ∙ length-set_if (is_bra i) flags (branch_target i)

  mark_one-at :
      (p : ℕ)
      → length flags ≡ n + 1
      → p < n
      → get_or (mark_one n pc i flags) p false ≡ (get_or flags p false || marks pc i p)
  unfolding mark_one
  mark_one-at p len lt =
      let same = length-set_if (is_bra i) flags (branch_target i) in
      set_if-at (is_terminator i && ltb (pc + 1) n) (set_if (is_bra i) flags (branch_target i))
        (pc + 1) p (omega (arith, same, len))
      ∙ (rw (set_if-at (is_bra i) flags (branch_target i) p (omega (arith, len))) (
          two_marks (get_or flags p false) (is_bra i) (is_terminator i) (branch_target i) (pc + 1) p
            n lt))

or_assoc : (a b c : Bool) → ((a || b) || c) ≡ (a || (b || c))
or_assoc true b c = refl
or_assoc false b c = refl

or_false : (a : Bool) → (a || false) ≡ a
or_false true = refl
or_false false = refl

-- What the loop leaves in the flags.
mark_leaders-at :
    (n pc : ℕ) (is : List Instruction) (flags : List Bool) {out : List Bool} (p : ℕ)
    → length flags ≡ n + 1
    → p < n
    → mark_leaders n pc is flags ≡ ok out
    → get_or out p false ≡ (get_or flags p false || any_marks pc is p)
unfolding mark_leaders
mark_leaders-at n pc [] flags {out} p len lt h =
    let same : flags ≡ out = cc (h) in
    subst (λ l. get_or l p false ≡ (get_or flags p false || false)) same
      (sym (or_false (get_or flags p false)))
mark_leaders-at n pc (i ∷ is) flags {out} p len lt h =
    elim (Bool-cases (is_bra i && leb n (branch_target i))) [
      | inl stray ↦ absurd (cc (rw (stray, mark_leaders) at h))
      | inr fine ↦
          mark_leaders-at n (pc + 1) is (mark_one n pc i flags) {out = out} p
            (length-mark_one n pc i flags ∙ len) lt (rw (fine, mark_leaders) at h)
          ∙ (rw (mark_one-at n pc i flags p len lt)
              (or_assoc (get_or flags p false) (marks pc i p) (any_marks (pc + 1) is p)))
    ]

-- An instruction that makes a block begin at p.
abbrev Marker : ℕ → List Instruction → ℕ → Type 0
Marker pc is p =
    (k : ℕ) × (i : Instruction) × (get_elem? is k ≡ some i)
    × (((is_bra i ≡ true) × (branch_target i ≡ p)) ⊎ ((is_terminator i ≡ true) × (pc + k + 1 ≡ p)))

marks-cases :
    (bra end : Bool) (t next p : ℕ)
    → ((bra && t == p) || (end && next == p)) ≡ true
    → ((bra ≡ true) × (t ≡ p)) ⊎ ((end ≡ true) × (next ≡ p))
marks-cases true end t next p h = elim (Bool-cases (t == p)) [
  | inl e ↦ inl (refl, (==_iff t p).0 e)
  | inr e ↦ inr (ground (arith, h, e), ground (arith, h, e))
]
marks-cases false end t next p h = inr (ground (arith, h), ground (arith, h))

any_marks-Marker :
    (pc : ℕ) (is : List Instruction) (p : ℕ) → any_marks pc is p ≡ true → Marker pc is p
any_marks-Marker pc [] p h = absurd (cc (h))
any_marks-Marker pc (i ∷ is) p h = elim (Bool-cases (marks pc i p)) [
  | inl now ↦ elim (marks-cases (is_bra i) (is_terminator i) (branch_target i) (pc + 1) p now) [
    | inl t ↦ (0, i, refl, inl t)
    | inr (e, at) ↦ (0, i, refl, inr (e, omega (arith, at)))
  ]
  | inr later ↦
      let (k, j, found, why) = any_marks-Marker (pc + 1) is p (rw later at h) in
      (suc k, j, found, elim why [ inl t ↦ inl t | inr (e, at) ↦ inr (e, omega (arith, at)) ])
]

any_marks-true :
    (pc : ℕ) (is : List Instruction) (p k : ℕ) (i : Instruction)
    → get_elem? is k ≡ some i
    → marks (pc + k) i p ≡ true
    → any_marks pc is p ≡ true
any_marks-true pc [] p k i found h = absurd (cc (found))
any_marks-true pc (j ∷ is) p zero i found h =
    let now : marks pc j p ≡ true =
      subst (λ x. marks pc x p ≡ true) (sym (some-injective _ _ found))
        (subst (λ q. marks q i p ≡ true) (omega arith) h) in
    rw now refl
any_marks-true pc (j ∷ is) p (suc k) i found h =
    rw (any_marks-true (pc + 1) is p k i found (subst (λ q. marks q i p ≡ true) (omega arith) h))
      (or_true (marks pc j p))
  where
    or_true : (b : Bool) → (b || true) ≡ true
    or_true true = refl
    or_true false = refl

unfoldable pub begins : List Instruction → ℕ → Bool
begins program p = p == 0 || any_marks 0 program p

pub begins-Begins :
    (program : List Instruction) (p : ℕ) → begins program p ≡ true → Begins program p
unfolding begins
begins-Begins program p h = elim (Bool-cases (p == 0)) [
  | inl e ↦ subst (Begins program) (sym ((==_iff p 0).0 e)) first
  | inr e ↦
      let (k, i, found, why) = any_marks-Marker 0 program p (rw e at h) in
      elim why [
        | inl (b, at) ↦ subst (Begins program) at (target k i found b)
        | inr (t, at) ↦ subst (Begins program) (omega (arith, at)) (after k i found t)
      ]
]

pub Begins-begins :
    (program : List Instruction) (p : ℕ) → Begins program p → begins program p ≡ true
unfolding begins
Begins-begins program _ first = refl
Begins-begins program _ (target k i found b) =
    rw (any_marks-true 0 program (branch_target i) k i found (ground (arith, b))) (ground arith)
Begins-begins program _ (after k i found t) =
    rw (any_marks-true 0 program (k + 1) k i found (ground (arith, t))) (ground arith)

-- After the loop, an instruction is PC 0 or flagged exactly if a block begins there.
pub mark_leaders-begins :
    (program : List Instruction) {out : List Bool} (p : ℕ)
    → p < length program
    → mark_leaders (length program) 0 program (replicate (length program + 1) false) ≡ ok out
    → (p == 0 || get_or out p false) ≡ begins program p
unfolding begins
mark_leaders-begins program {out} p lt h =
    rw
      (
        mark_leaders-at (length program) 0 program (replicate (length program + 1) false)
            {out = out} p (length-replicate (length program + 1) false) lt h,
        get_or-replicate (length program + 1) p false,
      )
      refl
