-- ===== src/Asm/Roundtrip/Lines.antt =====
-- A printed statement as a line of source, through src/asm/lexer.cpp and src/asm/assembler.cpp.
use Prim.Native.String.{◌++◌ as ◌+++◌}
use warp_sim.Base.{
  ℕ, String, ◌^◌, ◌<◌, ◌≡◌, inl, inr, refl, ◌∙◌, ap, subst, Bool, true, false, Option, some, List,
  [], ◌∷◌, ◌++◌, ok, length, outcome,
}
use warp_sim.Isa.Opcode.{Opcode, Shape, number, opcode_info_of}
use warp_sim.Isa.Instruction.{Instruction, validate}
use warp_sim.Isa.Encoding.{pack}
use warp_sim.Isa.Validity.{validate-Canonical_iff}
use warp_sim.Asm.Cfg.{is_bra}
use warp_sim.Asm.Lexer.{
  is_ident_char, identifier, Token, TokenKind, newline, lex, Scan, close, ends_in_newline, make,
  end_of_source,
}
use warp_sim.Asm.Lexer.Total.{lex_total}
use warp_sim.Asm.Lexer.Scanning.{at_text, lex_from-Scans}
use warp_sim.Asm.Lexer.Pieces.{Piece, IsPiece, Shaped, Reads, Reads-trans, newline-Reads}
use warp_sim.Asm.Operands.{at, Cursor, Parsed}
use warp_sim.Asm.Operands.Cursors.{is_bra_shape}
use warp_sim.Asm.Assembler.{Parser, line_step}
use warp_sim.Asm.Roundtrip.Starts.{line_step-instruction, printed-Statement}
use warp_sim.Asm.Disassembler.{Labels, guard_text, operands_text, format_instruction}
use warp_sim.Asm.Roundtrip.Texts.{Boundary}
use warp_sim.Asm.Operands.Branches.{is_bra_opcode}
use warp_sim.Asm.Roundtrip.Steps.{append_assoc as tokens_assoc, Shaped-split, here}
use warp_sim.Asm.Roundtrip.Immediates.{NoFloat}
use warp_sim.Asm.Roundtrip.Guards.{guard_pieces}
use warp_sim.Asm.Roundtrip.Shapes.{NamesParameter, OperandsRead}
use warp_sim.Asm.Roundtrip.Operations.{operands-Read}
use warp_sim.Asm.Roundtrip.Statements.{statement_pieces, statement-Reads, statement-Parses}

abbrev is_newline_kind : TokenKind → Bool
is_newline_kind kind = elim kind [ newline ↦ true | _ ↦ false ]

Shaped-cons :
    (q : Piece) (qs : List Piece) (ts : List Token)
    → Shaped (q ∷ qs) ts
    → (t : Token) × (us : List Token) × (ts ≡ t ∷ us) × IsPiece q t × Shaped qs us
Shaped-cons q qs [] h = absurd h
Shaped-cons q qs (t ∷ ts) (is, h) = (t, ts, refl, is, h)

Shaped-nil : (ts : List Token) → Shaped [] ts → ts ≡ []
Shaped-nil [] h = refl
Shaped-nil (t ∷ ts) h = absurd h

ends_in_newline-last :
    (ts : List Token) (nl : Token) → nl.kind ≡ newline → ends_in_newline (ts ++ (nl ∷ [])) ≡ true
ends_in_newline-last [] nl e = ap is_newline_kind e
ends_in_newline-last (t ∷ []) nl e = ap is_newline_kind e
ends_in_newline-last (t ∷ (u ∷ ts)) nl e = ends_in_newline-last (u ∷ ts) nl e

close-last :
    (ts : List Token) (nl : Token) (s : Scan)
    → nl.kind ≡ newline
    → close (ts ++ (nl ∷ [])) s ≡ ts ++ (nl ∷ (make end_of_source "" s ∷ []))
unfolding close
close-last ts nl s e =
    rw (close, ends_in_newline-last ts nl e)
      (tokens_assoc ts (nl ∷ []) (make end_of_source "" s ∷ []))

-- Only a branch has the shape of one.
is_bra_shape-opcode : (op : Opcode) → is_bra_shape (opcode_info_of op).shape ≡ is_bra_opcode op
unfolding opcode_info_of number
is_bra_shape-opcode Opcode.add = refl
is_bra_shape-opcode _ = refl

-- What `lex` gives for a text and the tokens that it was read as.
lex-Reads :
    (source : String) (ps : List Piece)
    → Reads source (ps ++ ((newline, "\n", false) ∷ [])) ""
    → (ts : List Token) × (nl : Token) × (e : Token) × (lex source
        ≡ some (ok (ts ++ (nl ∷ (e ∷ [])))))
      × Shaped ps ts
      × IsPiece (newline, "\n", false) nl
unfolding lex
lex-Reads source ps h =
    let (all, end, run, e, shaped) = h.scans 1 1 in
    let (ts, last, f, first, second) = Shaped-split ps ((newline, "\n", false) ∷ []) all shaped in
    let (nl, more, g, is, none') = Shaped-cons (newline, "\n", false) [] last second in
    let (r, ends, good) = lex_total source in
    let made = lex_from-Scans _ [] all (at_text source 1 1) end r run e ends in
    let whole : all ≡ ts ++ (nl ∷ []) =
      f ∙ ap (λ l. ts ++ l) (g ∙ ap (λ l. nl ∷ l) (Shaped-nil more none')) in
    (
      ts,
      nl,
      make end_of_source "" end,
      ends ∙ ap some (made ∙ ap ok (ap (λ l. close l end) whole ∙ close-last ts nl end is.0)),
      first,
      is,
    )

newline-Boundary : Boundary "\n"
unfolding is_ident_char
newline-Boundary = refl

-- The tokens of a printed statement and a newline: a guard's, the mnemonic, those of the operands.
lex-statement :
    (parse_float : String → Option ℕ) (float_text : ℕ → String) (p : Parser) (i : Instruction)
    (labels : Labels) (read : Cursor → Parsed) (ops : String) (h : OperandsRead read ops i)
    → (gs : List Token) × (m : Token) × (os : List Token) × (nl : Token) × (e : Token) × (lex
          ((guard_text i +++ ((opcode_info_of i.opcode).mnemonic +++ ops)) +++ "\n")
        ≡ some (ok (gs ++ (m ∷ (os ++ (nl ∷ (e ∷ [])))))))
      × Shaped (guard_pieces i.guard) gs
      × IsPiece (identifier, (opcode_info_of i.opcode).mnemonic, false) m
      × Shaped h.pieces os
      × IsPiece (newline, "\n", false) nl
lex-statement parse_float float_text p i labels read ops h =
    let pieces = statement_pieces parse_float float_text p i labels h.pieces in
    let (ts, nl, e, lexed, shaped, is) =
      lex-Reads ((guard_text i +++ ((opcode_info_of i.opcode).mnemonic +++ ops)) +++ "\n") pieces (
        Reads-trans
          (statement-Reads parse_float float_text p i labels read ops h "\n" newline-Boundary)
          (newline-Reads "")) in
    let (gs, ms, split, at_guard, others) = Shaped-split (guard_pieces i.guard) _ ts shaped in
    let (m, os, head, named, operands) = Shaped-cons _ _ ms others in
    let flat : ts ++ (nl ∷ (e ∷ [])) ≡ gs ++ (m ∷ (os ++ (nl ∷ (e ∷ [])))) =
      ap (λ l. l ++ (nl ∷ (e ∷ []))) (split ∙ ap (λ l. gs ++ l) head)
      ∙ tokens_assoc gs (m ∷ os) (nl ∷ (e ∷ [])) in
    (gs, m, os, nl, e, lexed ∙ ap (λ l. some (ok l)) flat, at_guard, named, operands, is)

-- A valid instruction that is no branch, whose immediate has 32 bits and is printed as no float, is read
-- back as it was: the text that `format_instruction` gives for it, with a newline behind it, is lexed,
-- and one round of the parser's loop makes of the tokens the word that encodes the instruction, at the
-- end of the program, and stops at the newline. A parameter that it loads must have an identifier as
-- its name, and no earlier parameter the same.
pub line_step-format_instruction :
    (parse_float : String → Option ℕ) (float_text : ℕ → String) (p : Parser) (i : Instruction)
    (labels : Labels) (text : String)
    → validate i ≡ ok tt
    → i.imm < 2 ^ 32
    → is_bra i ≡ false
    → NoFloat i
    → ((opcode_info_of i.opcode).shape ≡ Shape.ldp → NamesParameter p.program.params i)
    → format_instruction float_text i labels p.program.params ≡ ok text
    → (tokens : List Token) × (rest : List Token) × (lex (text +++ "\n") ≡ some (ok tokens))
      × (line_step parse_float (record p { rest = tokens })
          ≡ ok (record p {
            rest = rest;
            program = record p.program { words = p.program.words ++ (pack i ∷ []) };
          }))
      × (at newline rest ≡ true)
unfolding format_instruction
line_step-format_instruction parse_float float_text p i labels text valid lt other plain named h =
    elim (outcome
      (operands_text float_text (opcode_info_of i.opcode).shape i labels p.program.params)) [
        | inl (e, failed) ↦ absurd (cc (h, failed))
        | inr (ops, printed) ↦
            let (fits, canonical, shape) = (validate-Canonical_iff i).0 valid in
            let read =
              operands-Read parse_float float_text labels p.program.params (length p.program.words)
                i fits lt plain (opcode_info_of i.opcode).shape ops
                (is_bra_shape-opcode i.opcode ∙ other) shape named printed in
            let same : guard_text i +++ ((opcode_info_of i.opcode).mnemonic +++ ops) ≡ text =
              cc (h, printed) in
            let (gs, m, os, nl, e, lexed, at_guard, named', operands, is) =
              lex-statement parse_float float_text p i labels _ ops read in
            let tokens = gs ++ (m ∷ (os ++ (nl ∷ (e ∷ [])))) in
            (
              tokens,
              nl ∷ (e ∷ []),
              subst (λ (t : String). lex (t +++ "\n") ≡ some (ok tokens)) same lexed,
              line_step-instruction parse_float (record p { rest = tokens })
                    (printed-Statement i.guard.present i.guard.negate i.guard.pred
                      (opcode_info_of i.opcode).mnemonic read.pieces gs m os nl (e ∷ []) read.opens
                      at_guard named' operands is)
                  ∙ statement-Parses parse_float float_text p i labels gs m os nl (e ∷ []) ops read
                      fits canonical valid at_guard named' operands is,
              here newline "\n" false nl (e ∷ []) is,
            )
      ]
