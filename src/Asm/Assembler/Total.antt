-- ===== src/Asm/Assembler/Total.antt =====
-- `assemble` of src/asm/assembler.cpp as a whole.
use warp_sim.Base.{
  ℕ, String, ◌≤◌, ◌≡◌, inl, inr, refl, sym, ap, arith, subst, false, ltb, Bool-cases, Option, none,
  some, List, [], ◌∷◌, ◌++◌, length, Result, ok, fail,
}
use warp_sim.Isa.Instruction.{no_reconvergence}
use warp_sim.Asm.Program.{Program}
use warp_sim.Asm.Lexer.{AssemblyError, Token, end_of_source, is_empty}
use warp_sim.Asm.Lexer.Total.{IsStream, Lexes, lex_total}
use warp_sim.Asm.Operands.{kind_number}
use warp_sim.Asm.Operands.Cursors.{Holds, Ended}
use warp_sim.Asm.Operands.Params.{Declares}
use warp_sim.Asm.Assembler.{
  Parser, Parsing, start, missing_entry, too_long, annotate, link, finish, run_parser, assemble,
}
use warp_sim.Asm.Assembler.Lines.{Sound}
use warp_sim.Asm.Assembler.Statements.{SoundEnd, parse_lines_lem}
use warp_sim.Asm.Assembler.Link.{Words, Linked, resolve_branches_lem, annotate_lem}

-- What an assembled program is.
pub record Assembled (program : Program) : Type 0 where
  pub named : is_empty program.entry ≡ false
  pub short : length program.words ≤ no_reconvergence
  pub linked : Linked program.params (length program.words) program.words

-- The outcome of a pass: it ends, with an error or with what Q says.
abbrev pub Ends : {A : Type 0} → (A → Type 0) → Option (Result A AssemblyError) → Type 0
Ends {A} Q o = (r : Result A AssemblyError) × (o ≡ some r) × Holds Q r

link-Ends :
    (p : Parser)
    → is_empty p.program.entry ≡ false
    → length p.program.words ≤ no_reconvergence
    → Sound p.program.params p.program.words p.labels p.pending
    → Ends Assembled (link p)
unfolding link
link-Ends p named short h =
    let n = length p.program.words in
    let (r, e, w) =
      resolve_branches_lem p.program.params n p.labels p.pending p.program.words h.labels_fit
        (h.instructions, h.coded, h.pend_fit, h.declares, refl) in
    rw (link, e) (resolved r w)
  where
    final :
        (s : Result (List ℕ) AssemblyError)
        → Holds (Linked p.program.params (length p.program.words)) s
        → Ends Assembled (elim s as (λ _. Option (Result Program AssemblyError)) [
          | fail e ↦ some (fail e)
          | ok ws ↦ some (ok (record p.program { words = ws }))
        ])
    final (fail e) l = (fail e, refl, tt)
    final (ok ws) l = (
      ok _,
      refl,
      record {
        named = named;
        short = omega (arith, short, l.length_is);
        linked = subst (λ k. Linked p.program.params k ws) (sym l.length_is) l;
      },
    )

    resolved :
        (r : Result (List ℕ) AssemblyError)
        → Holds (Words p.program.params (length p.program.words) []) r
        → Ends Assembled (elim r as (λ _. Option (Result Program AssemblyError)) [
          | fail e ↦ some (fail e)
          | ok words ↦ elim (annotate words) as (λ _. Option (Result Program AssemblyError)) [
            | none ↦ none
            | some s ↦ elim s as (λ _. Option (Result Program AssemblyError)) [
              | fail e ↦ some (fail e)
              | ok ws ↦ some (ok (record p.program { words = ws }))
            ]
          ]
        ])
    resolved (fail e) w = (fail e, refl, tt)
    resolved (ok words) w =
        let (s, e, l) = annotate_lem p.program.params (length p.program.words) words w in
        rw e (final s l)

finish-Ends :
    (p : Parser)
    → Sound p.program.params p.program.words p.labels p.pending
    → Ends Assembled (finish p)
unfolding finish
finish-Ends p h = elim (Bool-cases (is_empty p.program.entry)) [
  | inl e ↦ (fail missing_entry, rw (finish, e) refl, tt)
  | inr named ↦ elim (Bool-cases (ltb no_reconvergence (length p.program.words))) [
    | inl e ↦ (fail too_long, rw (finish, named, e) refl, tt)
    | inr short ↦ rw (finish, named, short) (link-Ends p named (ground (arith, short)) h)
  ]
]

Ended-append :
    (body : List Token) (n e : Token) → e.kind ≡ end_of_source → Ended (body ++ (n ∷ (e ∷ [])))
Ended-append [] n e h = ap kind_number h
Ended-append (t ∷ []) n e h = ap kind_number h
Ended-append (t ∷ (u ∷ ts)) n e h = Ended-append (u ∷ ts) n e h

no_instructions : Declares [] []
no_instructions k i e = absurd (cc (e))

run_parser-Ends :
    (parse_float : String → Option ℕ) (ts : List Token)
    → IsStream ts
    → Ends Assembled (run_parser parse_float ts)
unfolding run_parser
run_parser-Ends parse_float ts (body, n, e, same, words, kn, xn, ke, xe) =
    let end : Ended ts = subst (λ l. Ended l) (sym same) (Ended-append body n e ke) in
    let (r, f, s) = parse_lines_lem parse_float (length ts) (start ts) (
      (end, omega arith),
      record {
        instructions = [];
        coded = tt;
        pend_fit = tt;
        labels_fit = tt;
        declares = no_instructions;
      },
    ) in
    rw (run_parser, f) (parsed r s)
  where
    parsed :
        (r : Parsing)
        → SoundEnd r
        → Ends Assembled (elim r as (λ _. Option (Result Program AssemblyError)) [
          | fail e ↦ some (fail e)
          | ok p ↦ finish p
        ])
    parsed (fail e) s = (fail e, refl, tt)
    parsed (ok p) s = finish-Ends p s

-- Assembling ends on every source, with an error or with a program: its entry is named, it has at most
-- 65535 words, each word decodes to an instruction that encodes to it, no branch is out of range, the
-- branches are annotated with their reconvergence points, and only declared parameters are loaded.
pub assemble_lem :
    (parse_float : String → Option ℕ) (source : String)
    → (r : Result Program AssemblyError) × (assemble parse_float source ≡ some r)
      × Holds Assembled r
unfolding assemble
assemble_lem parse_float source = let (r, e, l) = lex_total source in rw (assemble, e) (lexed r l)
  where
    lexed :
        (r : Result (List Token) AssemblyError)
        → Lexes r
        → Ends Assembled (elim r as (λ _. Option (Result Program AssemblyError)) [
          | fail e ↦ some (fail e)
          | ok ts ↦ run_parser parse_float ts
        ])
    lexed (fail e) l = (fail e, refl, tt)
    lexed (ok ts) l = run_parser-Ends parse_float ts l
