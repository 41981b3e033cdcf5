-- ===== src/Asm/Roundtrip/Starts.antt =====
-- The tokens of a printed statement begin no blank line, directive or label of src/asm/assembler.cpp.
use warp_sim.Base.{ℕ, String, ◌≡◌, refl, Option, Bool, true, false, List, [], ◌∷◌, ◌++◌}
use warp_sim.Asm.Lexer.{Token, identifier, directive, guard, colon, newline}
use warp_sim.Asm.Lexer.Pieces.{Piece, IsPiece, Shaped}
use warp_sim.Asm.Operands.{at}
use warp_sim.Asm.Printing.{pred}
use warp_sim.Asm.Assembler.{Parser, has_label, take_label, instruction_line, statement, line_step}
use warp_sim.Asm.Roundtrip.Texts.{NoColon}
use warp_sim.Asm.Roundtrip.Steps.{here, elsewhere}
use warp_sim.Asm.Roundtrip.Guards.{guard_pieces}

-- Tokens that start no blank line, no directive and no label.
pub Statement : List Token → Type 0
Statement ts = (at newline ts ≡ false) × (at directive ts ≡ false) × (has_label ts ≡ false)

pub line_step-instruction :
    (parse_float : String → Option ℕ) (p : Parser)
    → Statement p.rest
    → line_step parse_float p ≡ instruction_line parse_float p
unfolding line_step statement take_label Statement
line_step-instruction parse_float p (a, b, c) = rw (a, b, c) refl

-- No colon is behind a mnemonic.
no_colon :
    (ps : List Piece) (os : List Token) (nl : Token) (us : List Token)
    → NoColon ps
    → Shaped ps os
    → IsPiece (newline, "\n", false) nl
    → at colon (os ++ (nl ∷ us)) ≡ false
no_colon [] [] nl us none' shaped is = elsewhere newline colon "\n" false nl us is refl
no_colon [] (o ∷ os) nl us none' shaped is = absurd shaped
no_colon (q ∷ ps) [] nl us none' shaped is = absurd shaped
no_colon ((kind, text, negate) ∷ ps) (o ∷ os) nl us none' (here', shaped) is =
    elsewhere kind colon text negate o (os ++ (nl ∷ us)) here' none'

pub printed-Statement :
    (present negate : Bool) (k : ℕ) (name : String) (ps : List Piece) (gs : List Token) (m : Token)
    (os : List Token) (nl : Token) (us : List Token)
    → NoColon ps
    → Shaped (guard_pieces (record { present = present; negate = negate; pred = k })) gs
    → IsPiece (identifier, name, false) m
    → Shaped ps os
    → IsPiece (newline, "\n", false) nl
    → Statement (gs ++ (m ∷ (os ++ (nl ∷ us))))
unfolding Statement has_label
printed-Statement true negate k name ps [] m os nl us none' shaped is shaped' is' = absurd shaped
printed-Statement true negate k name ps (t ∷ []) m os nl us none' (is_t, tt) is shaped' is' = (
  elsewhere guard newline (pred k) negate t _ is_t refl,
  elsewhere guard directive (pred k) negate t _ is_t refl,
  rw (elsewhere guard identifier (pred k) negate t (m ∷ (os ++ (nl ∷ us))) is_t refl) refl,
)
printed-Statement true negate k name ps (t ∷ (v ∷ vs)) m os nl us none' (is_t, more) is shaped'
      is' =
    absurd more
printed-Statement false negate k name ps (t ∷ gs) m os nl us none' shaped is shaped' is' =
    absurd shaped
printed-Statement false negate k name ps [] m os nl us none' shaped is shaped' is' = (
  elsewhere identifier newline name false m _ is refl,
  elsewhere identifier directive name false m _ is refl,
  rw (no_colon ps os nl us none' shaped' is', here identifier name false m (os ++ (nl ∷ us)) is)
      refl,
)
