-- ===== src/Asm/Operands/Params.antt =====
-- The parameters that instructions of src/asm/assembler.cpp name.
use Prim.Native.String.{◌++◌ as ◌+++◌}
use text.Mathlib.Text.{◌==◌ as str_eq}
use warp_sim.Base.{
  zero, suc, ◌++◌, get_elem?, set, ℕ, String, ◌+◌, ◌%◌, ◌^◌, ◌≤◌, ◌<◌, ◌≡◌, inl, inr, refl, sym, ap,
  arith, subst, Bool, true, false, not, ◌&&◌, ◌||◌, Option, none, some, List, [], ◌∷◌, length,
  Bool-cases, ok, fail,
}
use warp_sim.Isa.Opcode.{
  Opcode, Shape, OpcodeInfo, find_mnemonic, opcode_info_named, opcode_info_of, opcode_table, number,
}
use warp_sim.Isa.Instruction.{Instruction}
use warp_sim.Asm.Cfg.{is_bra}
use warp_sim.Asm.Lexer.{identifier, lbracket, rbracket}
use warp_sim.Asm.Operands.{
  cur, at, skip, error_at, error_if, Cursor, Parsed, expect, find_param, dst_reg, comma_step,
  param_ref, sequence, steps_of, parse_operands,
}
use warp_sim.Asm.Operands.Cursors.{Holds, >>=-Holds, >>=-Holds_any}
use warp_sim.Asm.Operands.Branches.{Holds-map, is_bra_opcode}

-- The parameter that instruction i loads is not declared.
abbrev pub Undeclared : List String → Instruction → Type 0
Undeclared params i = ((opcode_info_of i.opcode).shape ≡ Shape.ldp) × (length params ≤ i.imm)

-- Every parameter that an instruction loads is declared.
abbrev pub Declares : List String → List Instruction → Type 0
Declares params is = (k : ℕ) (i : Instruction) → get_elem? is k ≡ some i → ¬ Undeclared params i

pub Declares-mono :
    (params more : List String) (is : List Instruction)
    → length params ≤ length more
    → Declares params is
    → Declares more is
Declares-mono params more is le h k i e (ldp, beyond) = h k i e (ldp, omega (arith, le, beyond))

pub Declares-snoc :
    (params : List String) (is : List Instruction) (j : Instruction)
    → Declares params is
    → ¬ Undeclared params j
    → Declares params (is ++ (j ∷ []))
Declares-snoc params [] j h n zero i e =
    let same : j ≡ i = cc (e) in subst (λ (x : Instruction). ¬ Undeclared params x) same n
Declares-snoc params [] j h n (suc k) i e = absurd (cc (e))
Declares-snoc params (x ∷ is) j h n zero i e = h 0 i e
Declares-snoc params (x ∷ is) j h n (suc k) i e =
    Declares-snoc params is j (λ m y f. h (suc m) y f) n k i e

-- A branch loads no parameter.
pub bra-Undeclared :
    (params : List String) (i : Instruction) → is_bra i ≡ true → ¬ Undeclared params i
unfolding opcode_info_of number
bra-Undeclared params i bra (ldp, beyond) = no i.opcode bra ldp
  where
    no : (op : Opcode) → is_bra_opcode op ≡ true → (opcode_info_of op).shape ≡ Shape.ldp → ⊥
    no Opcode.bra bra ldp = cc (ldp)
    no _ bra ldp = cc (bra)

pub Declares-set :
    (params : List String) (is : List Instruction) (k : ℕ) (j : Instruction)
    → Declares params is
    → ¬ Undeclared params j
    → Declares params (set is k j)
Declares-set params [] k j h n m i e = absurd (cc (e))
Declares-set params (x ∷ is) zero j h n zero i e =
    let same : j ≡ i = cc (e) in subst (λ (x : Instruction). ¬ Undeclared params x) same n
Declares-set params (x ∷ is) zero j h n (suc m) i e = h (suc m) i e
Declares-set params (x ∷ is) (suc k) j h n zero i e = h 0 i e
Declares-set params (x ∷ is) (suc k) j h n (suc m) i e =
    Declares-set params is k j (λ a y f. h (suc a) y f) n m i e

abbrev is_ldp_shape : Shape → Bool
is_ldp_shape Shape.ldp = true
is_ldp_shape _ = false

ldp_shape : (s : Shape) → is_ldp_shape s ≡ true → s ≡ Shape.ldp
ldp_shape Shape.ldp h = refl
ldp_shape _ h = ground (arith, h)

-- An opcode that loads parameters is found with operands that name one.
abbrev pub LdpOnly : OpcodeInfo → Type 0
LdpOnly e = (is_ldp_shape (opcode_info_of e.opcode).shape && not (is_ldp_shape e.shape)) ≡ false

abbrev any_odd : List OpcodeInfo → Bool
any_odd [] = false
any_odd (e ∷ es) =
    is_ldp_shape (opcode_info_of e.opcode).shape && not (is_ldp_shape e.shape) || any_odd es

no_odd : any_odd opcode_table ≡ false
unfolding opcode_info_of number
no_odd = refl

find_mnemonic-LdpOnly :
    (m : String) (es : List OpcodeInfo) (info : OpcodeInfo)
    → any_odd es ≡ false
    → find_mnemonic m es ≡ some info
    → LdpOnly info
unfolding find_mnemonic
find_mnemonic-LdpOnly m [] info h e = ground (arith, e)
find_mnemonic-LdpOnly m (x ∷ xs) info h e = elim (Bool-cases (str_eq x.mnemonic m)) [
  | inl f ↦
      let same : x ≡ info = cc (e, f) in
      subst (λ (y : OpcodeInfo). LdpOnly y) same (ground (arith, h))
  | inr f ↦ find_mnemonic-LdpOnly m xs info (ground (arith, h)) (cc (e, f))
]

pub opcode_info_named-LdpOnly :
    (m : String) (info : OpcodeInfo) → opcode_info_named m ≡ some info → LdpOnly info
unfolding opcode_info_named
opcode_info_named-LdpOnly m info e = find_mnemonic-LdpOnly m opcode_table info no_odd e

find_param-lt :
    (name : String) (params : List String) (k i : ℕ)
    → find_param name params k ≡ some i
    → i < k + length params
unfolding find_param
find_param-lt name [] k i e = ground (arith, e)
find_param-lt name (p ∷ ps) k i e = elim (Bool-cases (str_eq p name)) [
  | inl f ↦ let same : k ≡ i = cc (e, f) in omega (arith, same)
  | inr f ↦ let lt = find_param-lt name ps (k + 1) i (cc (e, f)) in omega (arith, lt)
]

module _ (parse_float : String → Option ℕ) (params : List String) (pc : ℕ) where
  Below : Cursor → Type 0
  Below c = c.out.imm < length params

  expect-Below : (c : Cursor) → Below c → Holds Below (expect rbracket "']'" c)
  unfolding expect Below
  expect-Below c h = >>=-Holds_any Below (error_if (not (at rbracket c.rest)) _ c.rest) _ (λ u. h)

  param_ref-Below : (c : Cursor) → Holds Below (param_ref parse_float params pc c)
  unfolding param_ref
  param_ref-Below c = >>=-Holds_any Below (expect lbracket "'['" c) _ (λ a.
      >>=-Holds_any Below (error_if (not (at identifier a.rest)) _ a.rest) _
        (λ u. found a (find_param (cur a.rest).text params 0) refl))
    where
      found :
          (a : Cursor) (o : Option ℕ)
          → find_param (cur a.rest).text params 0 ≡ o
          → Holds Below (elim o as (λ _. Parsed) [
            | some i ↦ expect rbracket "']'" (record a {
              rest = skip a.rest;
              out = record a.out { imm_flag = true; imm = i % 2 ^ 32 };
            })
            | none ↦ error_at ("undeclared parameter '" +++ ((cur a.rest).text +++ "'")) a.rest
          ])
      found a none e = tt
      found a (some i) e =
          let lt = find_param-lt (cur a.rest).text params 0 i e in
          expect-Below _ (unfold Below in omega (arith, lt))

  -- The statement's own parameter, if it has one, is declared.
  Declared : Opcode → Cursor → Type 0
  Declared op c = c.out.opcode ≡ op → ¬ Undeclared params c.out

  other-Declared :
      (info : OpcodeInfo) (c : Cursor)
      → LdpOnly info
      → is_ldp_shape info.shape ≡ false
      → Declared info.opcode c
  unfolding Declared
  other-Declared info c only other same (ldp, beyond) =
      let shape : (opcode_info_of info.opcode).shape ≡ Shape.ldp =
        subst (λ op. (opcode_info_of op).shape ≡ Shape.ldp) same ldp in
      cc (ap is_ldp_shape shape, only, other)

  pub parse_operands-Declared :
      (info : OpcodeInfo) (c : Cursor)
      → LdpOnly info
      → Holds
          (λ (d : Cursor). d.out.opcode ≡ info.opcode → ¬ Undeclared params d.out)
          (parse_operands parse_float params pc info c)
  unfolding parse_operands Declared
  parse_operands-Declared info c only = elim (Bool-cases (is_ldp_shape info.shape)) [
    | inr other ↦ every _ (λ d. other-Declared info d only other)
    | inl own ↦
        subst
          (λ s.
            Holds (Declared info.opcode)
              (sequence parse_float params pc (steps_of parse_float params pc s) c))
          (sym (ldp_shape info.shape own))
          (Holds-map Below (Declared info.opcode) _
            (λ d below same (ldp, beyond). unfold Below in omega (arith, below, beyond)) (steps c))
  ]
    where
      every :
          (r : Parsed) → ((d : Cursor) → Declared info.opcode d) → Holds (Declared info.opcode) r
      every (ok d) h = h d
      every (fail e) h = tt

      steps :
          (d : Cursor)
          → Holds Below
              (sequence parse_float params pc (steps_of parse_float params pc Shape.ldp) d)
      steps d =
          unfold sequence steps_of in
          >>=-Holds_any Below (dst_reg d) _ (λ a. >>=-Holds_any Below (comma_step a) _ (λ b.
            >>=-Holds Below Below (param_ref parse_float params pc b) ok (param_ref-Below b)
              (λ x h. h)))
