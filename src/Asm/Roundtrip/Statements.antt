-- ===== src/Asm/Roundtrip/Statements.antt =====
-- A statement that `format_instruction` of src/asm/disassembler.cpp prints, through `lex` and the part
-- of `Parser::statement` in src/asm/assembler.cpp behind the label.
use Prim.Native.String.{◌++◌ as ◌+++◌}
use text.Mathlib.TextLemmas.{append_assoc}
use warp_sim.Base.{
  ℕ, String, ◌<◌, ◌≡◌, inl, inr, refl, arith, Bool, true, false, ◌⊎◌, Option, List, [], ◌∷◌, ◌++◌,
  ok, length,
}
use warp_sim.Isa.Opcode.{Opcode, opcode_info_of}
use warp_sim.Isa.Instruction.{Instruction, validate}
use warp_sim.Isa.Encoding.{encode, pack}
use warp_sim.Isa.Table.{mnemonic_lookup, opcode-opcode_info_of}
use warp_sim.Isa.Validity.{FitsFields, GuardCanonical}
use warp_sim.Asm.Cfg.{default_instruction}
use warp_sim.Asm.Lexer.{Token, identifier, guard, newline}
use warp_sim.Asm.Lexer.Pieces.{Piece, IsPiece, Shaped, Reads, Reads-trans}
use warp_sim.Asm.Operands.{skip, Cursor, Parsed, PendingBranch, parse_operands, sequence, steps_of}
use warp_sim.Asm.Printing.{pred}
use warp_sim.Asm.Printing.Reading.{register_index-reg}
use warp_sim.Asm.Assembler.{Parser, take_guard, mnemonic, emit, end_of_line, instruction_line}
use warp_sim.Asm.Disassembler.{Labels, guard_text}
use warp_sim.Asm.Roundtrip.Texts.{Boundary}
use warp_sim.Asm.Roundtrip.Steps.{cursor, here, elsewhere}
use warp_sim.Asm.Roundtrip.Names.{mnemonic-Text}
use warp_sim.Asm.Roundtrip.Guards.{guard_pieces, guard_text-Loose}
use warp_sim.Asm.Roundtrip.Shapes.{headed, OperandsRead}

take_guard-Read :
    (present negate : Bool) (k : ℕ) (gs : List Token) (m : Token) (us : List Token)
    (pending : List PendingBranch) (name : String)
    → k < 8
    → (present ≡ true) ⊎ ((negate ≡ false) × (k ≡ 0))
    → Shaped (guard_pieces (record { present = present; negate = negate; pred = k })) gs
    → IsPiece (identifier, name, false) m
    → take_guard (cursor (gs ++ (m ∷ us)) default_instruction pending)
      ≡ ok (
          cursor
            (m ∷ us)
            (record default_instruction {
              guard = record { present = present; negate = negate; pred = k };
            })
            pending)
unfolding take_guard skip
take_guard-Read true negate k [] m us pending name lt canonical shaped is = absurd shaped
take_guard-Read true negate k (t ∷ []) m us pending name lt canonical (at_t, tt) is =
    rw
      (
        take_guard,
        here guard (pred k) negate t (m ∷ us) at_t,
        at_t.1,
        (register_index-reg 0 k (omega arith) lt).1,
        at_t.2,
      )
      refl
take_guard-Read true negate k (t ∷ (v ∷ vs)) m us pending name lt canonical (at_t, more) is =
    absurd more
take_guard-Read false negate k [] m us pending name lt (inl e) shaped is = absurd (cc (e))
take_guard-Read false negate k [] m us pending name lt (inr (n, z)) shaped is =
    rw (take_guard, elsewhere identifier guard name false m us is refl, n, z) refl
take_guard-Read false negate k (t ∷ gs) m us pending name lt canonical shaped is = absurd shaped

mnemonic-Read :
    (op : Opcode) (m : Token) (us : List Token)
    → IsPiece (identifier, (opcode_info_of op).mnemonic, false) m
    → mnemonic (m ∷ us) ≡ ok (opcode_info_of op)
unfolding mnemonic
mnemonic-Read op m us is =
    rw
      (
        mnemonic,
        here identifier (opcode_info_of op).mnemonic false m us is,
        is.1,
        mnemonic_lookup op,
      )
      refl

emit-Read :
    (p : Parser) (i : Instruction) (nl : Token) (us : List Token)
    → IsPiece (newline, "\n", false) nl
    → validate i ≡ ok tt
    → emit p (cursor (nl ∷ us) i p.pending)
      ≡ ok (record p {
        rest = nl ∷ us;
        program = record p.program { words = p.program.words ++ (pack i ∷ []) };
      })
unfolding emit end_of_line encode
emit-Read p i nl us is valid = rw (here newline "\n" false nl us is, valid) refl

skip-front :
    (m : Token) (os : List Token) (u : Token) (us : List Token)
    → skip (m ∷ (os ++ (u ∷ us))) ≡ os ++ (u ∷ us)
unfolding skip
skip-front m [] u us = refl
skip-front m (o ∷ os) u us = refl

-- The tokens of a printed statement, and what the parser makes of them.
module _ (parse_float : String → Option ℕ) (float_text : ℕ → String) (p : Parser) (i : Instruction)
    (labels : Labels) where
  abbrev pub statement_pieces : List Piece → List Piece
  statement_pieces ops =
      guard_pieces i.guard ++ ((identifier, (opcode_info_of i.opcode).mnemonic, false) ∷ ops)

  pub statement-Reads :
      (read : Cursor → Parsed) (ops : String) (h : OperandsRead read ops i) (rest : String)
      → Boundary rest
      → Reads
          ((guard_text i +++ ((opcode_info_of i.opcode).mnemonic +++ ops)) +++ rest)
          (statement_pieces h.pieces)
          rest
  statement-Reads read ops h rest k =
      rw
        (
          append_assoc (guard_text i) ((opcode_info_of i.opcode).mnemonic +++ ops) rest,
          append_assoc (opcode_info_of i.opcode).mnemonic ops rest,
        )
        (Reads-trans
          ((guard_text-Loose i).reads ((opcode_info_of i.opcode).mnemonic +++ (ops +++ rest)))
          (Reads-trans ((mnemonic-Text i.opcode).reads (ops +++ rest) (h.marks rest k))
            (h.reads rest k)))

  -- The instruction from its tokens.
  pub statement-Parses :
      (gs : List Token) (m : Token) (os : List Token) (nl : Token) (us : List Token) (ops : String)
      (h : OperandsRead
        (sequence parse_float p.program.params (length p.program.words) (
          steps_of parse_float p.program.params
            (length p.program.words)
            (opcode_info_of i.opcode).shape))
        ops
        i)
      → FitsFields i
      → GuardCanonical i
      → validate i ≡ ok tt
      → Shaped (guard_pieces i.guard) gs
      → IsPiece (identifier, (opcode_info_of i.opcode).mnemonic, false) m
      → Shaped h.pieces os
      → IsPiece (newline, "\n", false) nl
      → instruction_line parse_float (record p { rest = gs ++ (m ∷ (os ++ (nl ∷ us))) })
        ≡ ok (record p {
          rest = nl ∷ us;
          program = record p.program { words = p.program.words ++ (pack i ∷ []) };
        })
  unfolding instruction_line parse_operands
  statement-Parses gs m os nl us ops h fits canonical valid shaped is shaped' is' =
      rw
        (
          take_guard-Read i.guard.present i.guard.negate i.guard.pred gs m (os ++ (nl ∷ us))
              p.pending (opcode_info_of i.opcode).mnemonic fits.pred_fits canonical shaped is,
          mnemonic-Read i.opcode m (os ++ (nl ∷ us)) is,
          parsed,
        )
        (emit-Read (record p { rest = gs ++ (m ∷ (os ++ (nl ∷ us))) }) i nl us is' valid)
    where
      parsed :
          parse_operands parse_float p.program.params
            (length p.program.words)
            (opcode_info_of i.opcode)
            (cursor
              (skip (m ∷ (os ++ (nl ∷ us))))
              (record (headed i) { opcode = (opcode_info_of i.opcode).opcode })
              p.pending)
          ≡ ok (cursor (nl ∷ us) i p.pending)
      parsed =
          rw (skip-front m os nl us, opcode-opcode_info_of i.opcode)
            (h.consumes.parses os shaped' nl us p.pending)
