-- ===== src/Asm/Roundtrip/Addresses.antt =====
-- Integers and addresses of src/asm/assembler.cpp on tokens that are given but for their places.
use warp_sim.Base.{
  ℕ, String, ◌-◌, ◌%◌, ◌^◌, ◌<◌, ◌≡◌, refl, sym, true, false, some, List, [], ◌∷◌, ◌++◌, ok, ◌>>=◌,
}
use warp_sim.Isa.Instruction.{Instruction}
use warp_sim.Asm.Lexer.{Token, identifier, integer, lbracket, rbracket, plus, minus}
use warp_sim.Asm.Lexer.Pieces.{Piece, IsPiece, Shaped}
use warp_sim.Asm.Operands.{
  skip, expect, PendingBranch, Cursor, Parsed, general_register, integer_literal, offset,
  address_step,
}
use warp_sim.Asm.Numbers.{integer_value}
use warp_sim.Asm.Printing.{decimal_text, reg}
use warp_sim.Asm.Printing.Reading.{integer_value-text}
use warp_sim.Asm.Roundtrip.Steps.{
  cursor, front, Consumes-then, one_piece, here, elsewhere, expect-Consumes, general_register-reg,
  Consumes,
}

-- The two ways to print a number that `integer_literal` reads.
pub integer_literal-text :
    (n : ℕ) (text : String) (t u : Token) (us : List Token)
    → integer_value text ≡ some n
    → IsPiece (integer, text, false) t
    → integer_literal (t ∷ (u ∷ us)) ≡ ok (n, u ∷ us)
unfolding integer_literal skip
integer_literal-text n text t u us value is =
    rw (integer_literal, here integer text false t (u ∷ us) is, is.1, value) refl

pub bracket-Consumes :
    (i : Instruction) → Consumes (expect rbracket "']'") ((rbracket, "]", false) ∷ []) i i
bracket-Consumes i = expect-Consumes rbracket "']'" "]" i

pub no_offset :
    (i : Instruction)
    → Consumes (λ c. offset c >>= expect rbracket "']'") ((rbracket, "]", false) ∷ []) i i
unfolding offset expect skip
no_offset i = one_piece _ _ i i λ t u us pending is.
    rw
      (
        elsewhere rbracket plus "]" false t (u ∷ us) is refl,
        elsewhere rbracket minus "]" false t (u ∷ us) is refl,
        here rbracket "]" false t (u ∷ us) is,
      )
      refl

pub two_pieces :
    (f : Cursor → Parsed) (p q : Piece) (i j : Instruction)
    → ((t v u : Token) (us : List Token) (pending : List PendingBranch)
        → IsPiece p t
        → IsPiece q v
        → f (cursor (t ∷ (v ∷ (u ∷ us))) i pending) ≡ ok (cursor (u ∷ us) j pending))
    → Consumes f (p ∷ (q ∷ [])) i j
two_pieces f p q i j h = record { parses = λ ts shaped u us pending. go ts shaped u us pending }
  where
    go :
        (ts : List Token)
        → Shaped (p ∷ (q ∷ [])) ts
        → (u : Token) (us : List Token) (pending : List PendingBranch)
        → f (cursor (ts ++ (u ∷ us)) i pending) ≡ ok (cursor (u ∷ us) j pending)
    go [] shaped u us pending = absurd shaped
    go (t ∷ []) (is, more) u us pending = absurd more
    go (t ∷ (v ∷ [])) (is, (is', tt)) u us pending = h t v u us pending is is'
    go (t ∷ (v ∷ (w ∷ ws))) (is, (is', more)) u us pending = absurd more

pub added_offset :
    (n : ℕ) (i : Instruction)
    → n < 2 ^ 32
    → Consumes offset
        ((plus, "+", false) ∷ ((integer, decimal_text n, false) ∷ []))
        i
        (record i { imm = n })
unfolding offset skip
added_offset n i lt = two_pieces offset _ _ i _ λ t v u us pending is is'.
    rw
      (
        offset,
        here plus "+" false t (v ∷ (u ∷ us)) is,
        elsewhere plus minus "+" false t (v ∷ (u ∷ us)) is refl,
        integer_literal-text n (decimal_text n) v u us (integer_value-text n lt).0 is',
      )
      refl

pub subtracted_offset :
    (n : ℕ) (i : Instruction)
    → n < 2 ^ 32
    → Consumes offset
        ((minus, "-", false) ∷ ((integer, decimal_text n, false) ∷ []))
        i
        (record i { imm = (2 ^ 32 - n) % 2 ^ 32 })
unfolding offset skip
subtracted_offset n i lt = two_pieces offset _ _ i _ λ t v u us pending is is'.
    rw
      (
        offset,
        here minus "-" false t (v ∷ (u ∷ us)) is,
        elsewhere minus plus "-" false t (v ∷ (u ∷ us)) is refl,
        integer_literal-text n (decimal_text n) v u us (integer_value-text n lt).0 is',
      )
      refl

-- The part of an address behind its register.
abbrev pub address_end : Cursor → Parsed
address_end c = offset c >>= expect rbracket "']'"

abbrev address_base : Cursor → Parsed
address_base a = do
  r ← general_register a.rest
  address_end (record a { rest = r.1; out = record a.out { src0 = r.0; imm_flag = true; imm = 0 } })

address_base-Consumes :
    (r : ℕ) (ps : List Piece) (i j : Instruction)
    → r < 64
    → Consumes address_end ps (record i { src0 = r; imm_flag = true; imm = 0 }) j
    → Consumes address_base ((identifier, reg r, false) ∷ ps) i j
address_base-Consumes r ps i j lt b = record {
  parses = λ ts shaped u us pending. go ts shaped u us pending;
}
  where
    go :
        (ts : List Token)
        → Shaped ((identifier, reg r, false) ∷ ps) ts
        → (u : Token) (us : List Token) (pending : List PendingBranch)
        → address_base (cursor (ts ++ (u ∷ us)) i pending) ≡ ok (cursor (u ∷ us) j pending)
    go [] shaped u us pending = absurd shaped
    go (t ∷ ts) (is, shaped) u us pending =
        let (v, vs, ahead) = front ts u us in
        rw (ahead, general_register-reg r t v vs lt is, sym ahead) (b.parses ts shaped u us pending)

pub address_step-Consumes :
    (r : ℕ) (ps : List Piece) (i j : Instruction)
    → r < 64
    → Consumes address_end ps (record i { src0 = r; imm_flag = true; imm = 0 }) j
    → Consumes address_step ((lbracket, "[", false) ∷ ((identifier, reg r, false) ∷ ps)) i j
unfolding address_step
address_step-Consumes r ps i j lt b =
    Consumes-then (expect lbracket "'['") address_base (expect-Consumes lbracket "'['" "[" i)
      (address_base-Consumes r ps i j lt b)
