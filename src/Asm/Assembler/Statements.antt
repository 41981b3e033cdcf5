-- ===== src/Asm/Assembler/Statements.antt =====
-- Statements and the loop of `Parser::run` in src/asm/assembler.cpp: the loop comes to an end, and what
-- it ends with satisfies the invariant.
use warp_sim.Base.{
  ℕ, zero, suc, String, ◌≡◌, inl, inr, refl, arith, Bool, true, false, ◌&&◌, Option, some, List, [],
  ◌∷◌, length, if◌then◌else◌, Bool-cases, Option-cases, ok, fail,
}
use warp_sim.Isa.Opcode.{Opcode, OpcodeInfo}
use warp_sim.Asm.Lexer.{Token, identifier, directive, newline, end_of_source}
use warp_sim.Asm.Cfg.{default_instruction}
use warp_sim.Asm.Operands.{cur, at, skip, Cursor, parse_operands}
use warp_sim.Asm.Operands.Cursors.{Holds-both, Holds, >>=-Holds, Left, skip-Left, Good}
use warp_sim.Asm.Operands.Branches.{BraOnly, Operated, parse_operands-Operated}
use warp_sim.Asm.Operands.Params.{Undeclared, LdpOnly, parse_operands-Declared}
use warp_sim.Asm.Assembler.{
  Parser, Parsing, find_label, has_label, take_label, take_guard, mnemonic, instruction_line,
  statement, line_step, parse_lines,
}
use warp_sim.Asm.Assembler.Lines.{
  Sound, SoundParser, used, directive_line-Sound, take_guard-Left, mnemonic-BraOnly, emit-Sound,
}

has_label-identifier : (ts : List Token) → has_label ts ≡ true → at identifier ts ≡ true
unfolding has_label
has_label-identifier [] h = ground (arith, h)
has_label-identifier (t ∷ ts) h = ground (arith, h)

-- A label is used up with its colon; without one nothing is.
AfterLabel : ℕ → Bool → Parser → Type 0
AfterLabel n labelled p =
    Sound p.program.params p.program.words p.labels p.pending
    × Left (suc n) p.rest
    × (labelled ≡ true → Left n p.rest)

take_label-AfterLabel :
    (n : ℕ) (p : Parser)
    → SoundParser (suc n) p
    → Holds (AfterLabel n (has_label p.rest)) (take_label p)
unfolding take_label AfterLabel
take_label-AfterLabel n p (l, h) = elim (Bool-cases (has_label p.rest)) [
  | inr e ↦ rw (take_label, e) (h, l, λ k. ground (arith, k))
  | inl e ↦ elim (Option-cases (find_label (cur p.rest).text p.labels)) [
    | inr (old, f) ↦ rw (take_label, e, f) tt
    | inl f ↦
        let (end, le) =
          skip-Left n (skip p.rest)
            (used n identifier p.rest l (has_label-identifier p.rest e) (omega arith)) in
        rw (take_label, e, f)
          (
            record {
              instructions = h.instructions;
              coded = h.coded;
              pend_fit = h.pend_fit;
              labels_fit = (omega arith, h.labels_fit);
              declares = h.declares;
            },
            (end, omega (arith, le)),
            λ k. (end, le),
          )
  ]
]

module _ (parse_float : String → Option ℕ) (n : ℕ) where
  instruction_line-Sound :
      (p : Parser) → SoundParser (suc n) p → Holds (SoundParser n) (instruction_line parse_float p)
  unfolding instruction_line
  instruction_line-Sound p (l, h) =
      let start : Cursor = record {
        rest = p.rest;
        out = default_instruction;
        pending = p.pending;
      } in
      >>=-Holds (Good (suc n) Opcode.exit p.pending) (SoundParser n) (take_guard start) _
        (take_guard-Left n (suc n) Opcode.exit p.pending start
          (record { left = l; imm_fits = omega arith; same_opcode = refl; same_pending = refl }))
        (λ g good.
          >>=-Holds
            (λ (info : OpcodeInfo). BraOnly info × LdpOnly info × (at identifier g.rest ≡ true))
            (SoundParser n) (mnemonic g.rest) _ (mnemonic-BraOnly n g.rest)
            (λ info k.
              >>=-Holds
                (λ (c : Cursor).
                  Operated n (length p.program.words) info.opcode p.pending c
                  × (c.out.opcode ≡ info.opcode → ¬ Undeclared p.program.params c.out))
                (SoundParser n)
                (parse_operands parse_float p.program.params (length p.program.words) info _) _
                (Holds-both _ _
                  (parse_operands parse_float p.program.params (length p.program.words) info _)
                  (parse_operands-Operated parse_float p.program.params n (length p.program.words)
                    info.opcode p.pending info _ refl k.0
                    (record {
                      left = used n identifier g.rest good.left k.2 (omega arith);
                      imm_fits = good.imm_fits;
                      same_opcode = refl;
                      same_pending = good.same_pending;
                    }))
                  (parse_operands-Declared parse_float p.program.params (length p.program.words)
                    info _ k.1))
                (λ c o. emit-Sound n p c info.opcode h o.0 (o.1 o.0.same_opcode))))

  statement-Sound :
      (p : Parser) → SoundParser (suc n) p → Holds (SoundParser n) (statement parse_float p)
  unfolding statement
  statement-Sound p s =
      >>=-Holds (AfterLabel n (has_label p.rest)) (SoundParser n) (take_label p) _
        (take_label-AfterLabel n p s) (λ q a. after q (has_label p.rest) (at newline q.rest) a)
    where
      after :
          (q : Parser) (labelled ended : Bool)
          → AfterLabel n labelled q
          → Holds
              (SoundParser n)
              (if labelled && ended then ok q else instruction_line parse_float q)
      after q true true a = unfold AfterLabel in (a.2 refl, a.0)
      after q true false a = unfold AfterLabel in instruction_line-Sound q (a.1, a.0)
      after q false b a = unfold AfterLabel in instruction_line-Sound q (a.1, a.0)

  line_step-Sound :
      (p : Parser) → SoundParser (suc n) p → Holds (SoundParser n) (line_step parse_float p)
  unfolding line_step
  line_step-Sound p (l, h) = elim (Bool-cases (at newline p.rest)) [
    | inl e ↦ rw (line_step, e) (used n newline p.rest l e (omega arith), h)
    | inr line ↦ elim (Bool-cases (at directive p.rest)) [
      | inl e ↦ rw (line_step, line, e) (directive_line-Sound n p e (l, h))
      | inr other ↦ rw (line_step, line, other) (statement-Sound p (l, h))
    ]
  ]

not-Ended : (ts : List Token) → Left 0 ts → ⊥
not-Ended [] (e, le) = e
not-Ended (t ∷ ts) (e, le) = omega (arith, le)

abbrev pub SoundEnd : Parsing → Type 0
SoundEnd r = Holds (λ (q : Parser). Sound q.program.params q.program.words q.labels q.pending) r

-- The loop after a round.
continue :
    (parse_float : String → Option ℕ) (n : ℕ) (r : Parsing)
    → Holds (SoundParser n) r
    → ((q : Parser)
        → SoundParser n q
        → (s : Parsing) × (parse_lines parse_float n q ≡ some s) × SoundEnd s)
    → (s : Parsing) × ((elim r as (λ _. Option Parsing) [
      | fail e ↦ some (fail e)
      | ok q ↦ parse_lines parse_float n q
    ])
        ≡ some s)
      × SoundEnd s
continue parse_float n (fail e) h later = (fail e, refl, tt)
continue parse_float n (ok q) h later = later q h

-- With as much fuel as there are tokens, the loop ends, with an error or with the invariant.
pub parse_lines_lem :
    (parse_float : String → Option ℕ) (n : ℕ) (p : Parser)
    → SoundParser n p
    → (r : Parsing) × (parse_lines parse_float n p ≡ some r) × SoundEnd r
unfolding parse_lines
parse_lines_lem parse_float zero p (l, h) = absurd (not-Ended p.rest l)
parse_lines_lem parse_float (suc n) p (l, h) = elim (Bool-cases (at end_of_source p.rest)) [
  | inl e ↦ (ok p, rw (parse_lines, e) refl, h)
  | inr e ↦
      rw (parse_lines, e)
        (continue parse_float n (line_step parse_float p) (line_step-Sound parse_float n p (l, h))
          (λ q s. parse_lines_lem parse_float n q s))
]
