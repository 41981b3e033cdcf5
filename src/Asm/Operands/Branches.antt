-- ===== src/Asm/Operands/Branches.antt =====
-- What a statement's operands leave, a branch included: src/asm/assembler.cpp.
use text.Mathlib.Text.{◌==◌ as str_eq}
use warp_sim.Base.{
  ℕ, String, ◌^◌, ◌<◌, ◌≡◌, ◌⊎◌, inl, inr, refl, sym, ap, arith, subst, Bool, true, false, not,
  ◌&&◌, ◌||◌, Option, some, List, [], ◌∷◌, ◌++◌, Bool-cases, Result, ok, fail,
}
use warp_sim.Isa.Opcode.{Opcode, Shape, OpcodeInfo, find_mnemonic, opcode_info_named, opcode_table}
use warp_sim.Isa.Instruction.{make_branch_imm}
use warp_sim.Asm.Lexer.{AssemblyError, identifier}
use warp_sim.Asm.Operands.{
  at, error_if, PendingBranch, branch_here, Cursor, branch_step, sequence, steps_of, parse_operands,
}
use warp_sim.Asm.Operands.Cursors.{
  is_bra_shape, Holds, >>=-Holds, error_if-Holds, Left, skip-Left, Good,
}
use warp_sim.Asm.Operands.Shapes.{sequence-Keeps, steps_of-AllKeep}

abbrev pub is_bra_opcode : Opcode → Bool
is_bra_opcode op = elim op [ Opcode.bra ↦ true | _ ↦ false ]

pub Holds-map :
    {A : Type 0} (P Q : A → Type 0) (r : Result A AssemblyError)
    → ((a : A) → P a → Q a)
    → Holds P r
    → Holds Q r
Holds-map P Q (ok a) f h = f a h
Holds-map P Q (fail e) f h = tt

-- The pending branches after a statement: those before it, and its own if it is a branch.
abbrev pub Pends : ℕ → Opcode → List PendingBranch → List PendingBranch → Type 0
Pends pc op old new =
    (new ≡ old)
    ⊎ ((is_bra_opcode op ≡ true) × (b : PendingBranch) × (b.pc ≡ pc) × (new ≡ old ++ (b ∷ [])))

pub record Operated (n pc : ℕ) (op : Opcode) (pending : List PendingBranch) (c : Cursor)
    : Type 0 where
  pub left : Left n c.rest
  pub imm_fits : c.out.imm < 2 ^ 32
  pub same_opcode : c.out.opcode ≡ op
  pub pends : Pends pc op pending c.pending

-- Only `bra` has the shape of a branch.
abbrev pub BraOnly : OpcodeInfo → Type 0
BraOnly e = (is_bra_shape e.shape && not (is_bra_opcode e.opcode)) ≡ false

abbrev any_odd : List OpcodeInfo → Bool
any_odd [] = false
any_odd (e ∷ es) = is_bra_shape e.shape && not (is_bra_opcode e.opcode) || any_odd es

find_mnemonic-BraOnly :
    (m : String) (es : List OpcodeInfo) (info : OpcodeInfo)
    → any_odd es ≡ false
    → find_mnemonic m es ≡ some info
    → BraOnly info
unfolding find_mnemonic
find_mnemonic-BraOnly m [] info h e = ground (arith, e)
find_mnemonic-BraOnly m (x ∷ xs) info h e = elim (Bool-cases (str_eq x.mnemonic m)) [
  | inl f ↦
      let same : x ≡ info = cc (e, f) in
      subst (λ (y : OpcodeInfo). BraOnly y) same (ground (arith, h))
  | inr f ↦ find_mnemonic-BraOnly m xs info (ground (arith, h)) (cc (e, f))
]

pub opcode_info_named-BraOnly :
    (m : String) (info : OpcodeInfo) → opcode_info_named m ≡ some info → BraOnly info
unfolding opcode_info_named
opcode_info_named-BraOnly m info e = find_mnemonic-BraOnly m opcode_table info refl e

bra_shape : (s : Shape) → is_bra_shape s ≡ true → s ≡ Shape.bra
bra_shape Shape.bra h = refl
bra_shape _ h = ground (arith, h)

module _ (parse_float : String → Option ℕ) (params : List String) (n pc : ℕ) (op : Opcode)
    (pending : List PendingBranch) where
  branch_step-Operated :
      (c : Cursor)
      → is_bra_opcode op ≡ true
      → Good n op pending c
      → Holds (Operated n pc op pending) (branch_step parse_float params pc c)
  unfolding branch_step
  branch_step-Operated c bra h =
      >>=-Holds _ (Operated n pc op pending) (error_if (not (at identifier c.rest)) _ c.rest) _
        (error_if-Holds (not (at identifier c.rest)) _ c.rest)
        (λ u e. record {
          left = skip-Left n c.rest h.left;
          imm_fits = unfold make_branch_imm in omega arith;
          same_opcode = h.same_opcode;
          pends = inr (
            bra,
            branch_here pc c.rest,
            refl,
            ap (λ l. l ++ (branch_here pc c.rest ∷ [])) h.same_pending,
          );
        })

  Good-Operated : (c : Cursor) → Good n op pending c → Operated n pc op pending c
  Good-Operated c h = record {
    left = h.left;
    imm_fits = h.imm_fits;
    same_opcode = h.same_opcode;
    pends = inl h.same_pending;
  }

  -- What the operands leave, if they are no error.
  pub parse_operands-Operated :
      (info : OpcodeInfo) (c : Cursor)
      → op ≡ info.opcode
      → BraOnly info
      → Good n op pending c
      → Holds (Operated n pc op pending) (parse_operands parse_float params pc info c)
  unfolding parse_operands
  parse_operands-Operated info c e k h = elim (Bool-cases (is_bra_shape info.shape)) [
    | inr plain ↦ Holds-map (Good n op pending) (Operated n pc op pending) _ Good-Operated (
        sequence-Keeps n op pending parse_float params pc
          (steps_of parse_float params pc info.shape)
          (steps_of-AllKeep n op pending parse_float params pc info.shape plain) c h)
    | inl bra ↦
        let same = bra_shape info.shape bra in
        let is_bra' : is_bra_opcode info.opcode ≡ true = ground (arith, k, bra) in
        subst
          (λ s.
            Holds (Operated n pc op pending)
              (sequence parse_float params pc (steps_of parse_float params pc s) c))
          (sym same)
          (unfold sequence steps_of in
            >>=-Holds (Operated n pc op pending) (Operated n pc op pending)
              (branch_step parse_float params pc c) ok
              (branch_step-Operated c (subst (λ o. is_bra_opcode o ≡ true) (sym e) is_bra') h)
              (λ a g. g))
  ]
