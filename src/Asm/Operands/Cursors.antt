-- ===== src/Asm/Operands/Cursors.antt =====
-- What the operand parsers of src/asm/assembler.cpp keep: the end of the tokens, an immediate of 32
-- bits, the opcode, and the pending branches but for a branch's own.
use warp_sim.Base.{
  ℕ, String, ◌-◌, ◌%◌, ◌^◌, ◌≤◌, ◌<◌, ◌≡◌, ◌≢◌, inl, inr, refl, arith, ltb, if◌then◌else◌, Bool,
  true, false, not, ◌||◌, Option, none, some, List, [], ◌∷◌, length, Bool-cases, Option-cases,
  Result, ok, fail, ◌>>=◌,
}
use warp_sim.Isa.Opcode.{Opcode, Shape, special_register_info_named}
use warp_sim.Isa.Instruction.{general_register_count}
use warp_sim.Asm.Lexer.{
  AssemblyError, TokenKind, identifier, integer, comma, lbracket, rbracket, plus, minus, special,
  Token,
}
use warp_sim.Asm.Numbers.{parse_number, register_index, predicate_name, integer_value}
use warp_sim.Asm.Operands.{
  kind_number, cur, at, skip, error_at, error_if, PendingBranch, Cursor, Parsed, expect, comma_step,
  general_register, dst_reg, src0_reg, src1_reg, integer_literal, dst_pred, special_step, offset,
  address_step,
}

abbrev pub is_bra_shape : Shape → Bool
is_bra_shape Shape.bra = true
is_bra_shape _ = false

-- What a result is, if it is no error.
abbrev pub Holds : {A : Type 0} → (A → Type 0) → Result A AssemblyError → Type 0
Holds P (ok a) = P a
Holds P (fail e) = Unit {0}

pub >>=-Holds :
    {A B : Type 0} (P : A → Type 0) (Q : B → Type 0) (r : Result A AssemblyError)
    (f : A → Result B AssemblyError)
    → Holds P r
    → ((a : A) → P a → Holds Q (f a))
    → Holds Q (r >>= f)
>>=-Holds P Q (ok a) f h next = next a h
>>=-Holds P Q (fail e) f h next = tt

pub Holds-both :
    {A : Type 0} (P Q : A → Type 0) (r : Result A AssemblyError)
    → Holds P r
    → Holds Q r
    → Holds (λ a. P a × Q a) r
Holds-both P Q (ok a) p q = (p, q)
Holds-both P Q (fail e) p q = tt

pub >>=-Holds_any :
    {A B : Type 0} (Q : B → Type 0) (r : Result A AssemblyError) (f : A → Result B AssemblyError)
    → ((a : A) → Holds Q (f a))
    → Holds Q (r >>= f)
>>=-Holds_any Q (ok a) f next = next a
>>=-Holds_any Q (fail e) f next = tt

pub error_if-Holds :
    (b : Bool) (message : String) (ts : List Token) → Holds (λ u. b ≡ false) (error_if b message ts)
error_if-Holds true message ts = tt
error_if-Holds false message ts = refl

-- The last token is the end of the source.
abbrev pub Ended : List Token → Type 0
Ended [] = ⊥
Ended (t ∷ []) = kind_number t.kind ≡ 13
Ended (t ∷ (u ∷ ts)) = Ended (u ∷ ts)

-- At most n tokens, the last of them the end of the source.
abbrev pub Left : ℕ → List Token → Type 0
Left n ts = Ended ts × (length ts ≤ n)

pub skip-Left : (n : ℕ) (ts : List Token) → Left n ts → Left n (skip ts)
unfolding skip
skip-Left n [] (e, le) = absurd e
skip-Left n (t ∷ []) h = h
skip-Left n (t ∷ (u ∷ ts)) (e, le) = (e, omega (arith, le))

-- A token that is not the end of the source is used up.
pub skip-used :
    (n : ℕ) (kind : TokenKind) (ts : List Token)
    → Left n ts
    → at kind ts ≡ true
    → kind_number kind ≢ 13
    → (length (skip ts) < length ts) × Left (length ts - 1) (skip ts) × (0 < length ts)
unfolding skip at
skip-used n kind [] (e, le) h ne = absurd e
skip-used n kind (t ∷ []) (e, le) h ne = absurd (ground (arith, e, h, ne))
skip-used n kind (t ∷ (u ∷ ts)) (e, le) h ne = (omega arith, (e, omega arith), omega arith)

pub record Good (n : ℕ) (op : Opcode) (pending : List PendingBranch) (c : Cursor) : Type 0 where
  pub left : Left n c.rest
  pub imm_fits : c.out.imm < 2 ^ 32
  pub same_opcode : c.out.opcode ≡ op
  pub same_pending : c.pending ≡ pending

integer_value-lt : (text : String) (v : ℕ) → integer_value text ≡ some v → v < 2 ^ 32
unfolding integer_value
integer_value-lt text v h = after (parse_number 64 _ _) h
  where
    after :
        (o : Option ℕ)
        → (elim o as (λ _. Option ℕ) [
          | none ↦ none
          | some value ↦ if ltb (2 ^ 32 - 1) value then none else some (value % 2 ^ 32)
        ])
          ≡ some v
        → v < 2 ^ 32
    after none h = ground (arith, h)
    after (some x) h = ground (arith, h)

module _ (n : ℕ) (op : Opcode) (pending : List PendingBranch) where
  -- What an operand parser does that is no branch's.
  abbrev pub Keeps : (Cursor → Parsed) → Type 0
  Keeps f = (c : Cursor) → Good n op pending c → Holds (Good n op pending) (f c)

  pub moved :
      (c : Cursor) (ts : List Token)
      → Left n ts
      → Good n op pending c
      → Good n op pending (record c { rest = ts })
  moved c ts l h = record {
    left = l;
    imm_fits = h.imm_fits;
    same_opcode = h.same_opcode;
    same_pending = h.same_pending;
  }

  pub expect-Keeps : (kind : TokenKind) (what : String) → Keeps (expect kind what)
  unfolding expect
  expect-Keeps kind what c h =
      >>=-Holds _ (Good n op pending) (error_if (not (at kind c.rest)) _ c.rest) _
        (error_if-Holds (not (at kind c.rest)) _ c.rest)
        (λ u e. moved c (skip c.rest) (skip-Left n c.rest h.left) h)

  pub comma_step-Keeps : Keeps comma_step
  unfolding comma_step
  comma_step-Keeps c h = expect-Keeps comma "','" c h

  general_register-Left :
      (ts : List Token)
      → Left n ts
      → Holds (λ (r : ℕ × List Token). Left n r.1) (general_register ts)
  unfolding general_register
  general_register-Left ts h =
      after (
        if at identifier ts then register_index (cur ts).text b'r' general_register_count else none)
    where
      after :
          (o : Option ℕ)
          → Holds
              (λ (r : ℕ × List Token). Left n r.1)
              (elim o as (λ _. Result (ℕ × List Token) AssemblyError) [
                | some r ↦ ok (r, skip ts)
                | none ↦ error_at "expected a general register r0..r63" ts
              ])
      after (some r) = skip-Left n ts h
      after none = tt

  pub dst_reg-Keeps : Keeps dst_reg
  unfolding dst_reg
  dst_reg-Keeps c h =
      >>=-Holds _ (Good n op pending) (general_register c.rest) _
        (general_register-Left c.rest h.left)
        (λ r l. record {
          left = l;
          imm_fits = h.imm_fits;
          same_opcode = h.same_opcode;
          same_pending = h.same_pending;
        })

  pub src0_reg-Keeps : Keeps src0_reg
  unfolding src0_reg
  src0_reg-Keeps c h =
      >>=-Holds _ (Good n op pending) (general_register c.rest) _
        (general_register-Left c.rest h.left)
        (λ r l. record {
          left = l;
          imm_fits = h.imm_fits;
          same_opcode = h.same_opcode;
          same_pending = h.same_pending;
        })

  pub src1_reg-Keeps : Keeps src1_reg
  unfolding src1_reg
  src1_reg-Keeps c h =
      >>=-Holds _ (Good n op pending) (general_register c.rest) _
        (general_register-Left c.rest h.left)
        (λ r l. record {
          left = l;
          imm_fits = h.imm_fits;
          same_opcode = h.same_opcode;
          same_pending = h.same_pending;
        })

  pub dst_pred-Keeps : Keeps dst_pred
  unfolding dst_pred
  dst_pred-Keeps c h =
      after (if at identifier c.rest then predicate_name (cur c.rest).text else none)
    where
      after :
          (o : Option ℕ)
          → Holds (Good n op pending) (elim o as (λ _. Parsed) [
            | some p ↦ ok (record c { rest = skip c.rest; out = record c.out { dst = p } })
            | none ↦ error_at "expected a predicate register p0..p7" c.rest
          ])
      after (some p) = record {
        left = skip-Left n c.rest h.left;
        imm_fits = h.imm_fits;
        same_opcode = h.same_opcode;
        same_pending = h.same_pending;
      }
      after none = tt

  pub special_step-Keeps : Keeps special_step
  unfolding special_step
  special_step-Keeps c h = elim (Bool-cases (at special c.rest)) [
    | inr e ↦ rw (special_step, e) tt
    | inl e ↦ elim (Option-cases (special_register_info_named (cur c.rest).text)) [
      | inl f ↦ rw (special_step, e, f) tt
      | inr (info, f) ↦
          rw (special_step, e, f)
            (record {
              left = skip-Left n c.rest h.left;
              imm_fits = h.imm_fits;
              same_opcode = h.same_opcode;
              same_pending = h.same_pending;
            })
    ]
  ]

  -- The tokens after a number below 2^32.
  abbrev pub NumberLeft : ℕ × List Token → Type 0
  NumberLeft (v, ts) = (v < 2 ^ 32) × Left n ts

  pub integer_literal-Left : (ts : List Token) → Left n ts → Holds NumberLeft (integer_literal ts)
  unfolding integer_literal
  integer_literal-Left ts h = elim (Bool-cases (at integer ts)) [
    | inr e ↦ rw (integer_literal, e) tt
    | inl e ↦ elim (Option-cases (integer_value (cur ts).text)) [
      | inl f ↦ rw (integer_literal, e, f) tt
      | inr (v, f) ↦
          rw (integer_literal, e, f) (integer_value-lt (cur ts).text v f, skip-Left n ts h)
    ]
  ]

  pub signed-lt :
      (b : Bool) (v : ℕ) → v < 2 ^ 32 → (if b then (2 ^ 32 - v) % 2 ^ 32 else v) < 2 ^ 32
  signed-lt true v h = omega arith
  signed-lt false v h = h

  offset-Keeps : Keeps offset
  unfolding offset
  offset-Keeps c h = elim (Bool-cases (at plus c.rest || at minus c.rest)) [
    | inr e ↦ rw (offset, e) h
    | inl e ↦
        rw (offset, e)
          (>>=-Holds NumberLeft (Good n op pending) (integer_literal (skip c.rest)) _
            (integer_literal-Left (skip c.rest) (skip-Left n c.rest h.left))
            (λ r l. record {
              left = l.1;
              imm_fits = signed-lt (at minus c.rest) r.0 l.0;
              same_opcode = h.same_opcode;
              same_pending = h.same_pending;
            }))
  ]

  pub address_step-Keeps : Keeps address_step
  unfolding address_step
  address_step-Keeps c h =
      >>=-Holds (Good n op pending) (Good n op pending) (expect lbracket "'['" c) _
        (expect-Keeps lbracket "'['" c h)
        (λ a g.
          >>=-Holds _ (Good n op pending) (general_register a.rest) _
            (general_register-Left a.rest g.left)
            (λ r l.
              >>=-Holds (Good n op pending) (Good n op pending) (offset _) _
                (offset-Keeps _ (record {
                  left = l;
                  imm_fits = omega arith;
                  same_opcode = g.same_opcode;
                  same_pending = g.same_pending;
                }))
                (λ b k. expect-Keeps rbracket "']'" b k)))
