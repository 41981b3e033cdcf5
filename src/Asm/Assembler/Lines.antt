-- ===== src/Asm/Assembler/Lines.antt =====
-- What a line of source does to `Parser` of src/asm/assembler.cpp: it uses up tokens and keeps the
-- invariant of the words and the pending branches.
use warp_sim.Base.{
  length-append, ◌≤◌, ℕ, zero, suc, String, ◌^◌, ◌<◌, ◌==◌, ◌≡◌, ◌≢◌, inl, inr, refl, sym, ◌∙◌,
  arith, subst, Bool, true, false, not, Option, none, some, List, [], ◌∷◌, ◌++◌, length, get_elem?,
  if◌then◌else◌, Bool-cases, Option-cases, Result, ok, fail,
}
use Prim.Native.String.{◌++◌ as ◌+++◌}
use text.Mathlib.Text.{◌==◌ as str_eq}
use warp_sim.Isa.Opcode.{Opcode, OpcodeInfo, opcode_info_named}
use warp_sim.Isa.Instruction.{Instruction, IsaError, to_string}
use warp_sim.Isa.Encoding.{encode}
use warp_sim.Asm.Program.{Program}
use warp_sim.Asm.Lexer.{AssemblyError, TokenKind, Token, identifier, directive, guard, is_empty}
use warp_sim.Asm.Cfg.{is_bra}
use warp_sim.Asm.Numbers.{predicate_name}
use warp_sim.Asm.Operands.{
  kind_number, cur, at, skip, error_at, error_if, PendingBranch, Cursor, integer_literal,
}
use warp_sim.Asm.Operands.Cursors.{
  Holds, >>=-Holds, >>=-Holds_any, NumberLeft, error_if-Holds, Left, skip-Left, skip-used, Good,
  integer_literal-Left,
}
use warp_sim.Asm.Operands.Branches.{
  is_bra_opcode, BraOnly, Pends, Operated, opcode_info_named-BraOnly,
}
use warp_sim.Asm.Operands.Params.{
  Undeclared, Declares, Declares-mono, Declares-snoc, LdpOnly, opcode_info_named-LdpOnly,
}
use warp_sim.Asm.Assembler.{
  Parser, Parsing, end_of_line, finish_line, member_of, entry_directive, param_directive,
  shared_directive, directive_line, take_guard, mnemonic, emit,
}
use warp_sim.Asm.Assembler.Codes.{Coded, Coded-length, Coded-snoc, encode-Code}

-- Every pending branch is a branch of the program.
abbrev pub PendFit : List Instruction → List PendingBranch → Type 0
PendFit is [] = Unit {0}
PendFit is (b ∷ bs) =
    ((i : Instruction) × (get_elem? is b.pc ≡ some i) × (is_bra i ≡ true)) × PendFit is bs

abbrev pub LabelsFit : List (String × ℕ) → Type 0
LabelsFit [] = Unit {0}
LabelsFit ((l, pc) ∷ ls) = (pc < 2 ^ 16) × LabelsFit ls

pub record Sound (params : List String) (words : List ℕ) (labels : List (String × ℕ))
    (pending : List PendingBranch) : Type 0 where
  pub instructions : List Instruction
  pub coded : Coded words instructions
  pub pend_fit : PendFit instructions pending
  pub labels_fit : LabelsFit labels
  pub declares : Declares params instructions

abbrev pub SoundParser : ℕ → Parser → Type 0
SoundParser n p = Left n p.rest × Sound p.program.params p.program.words p.labels p.pending

get_elem?-snoc-old :
    (is : List Instruction) (k : ℕ) (i j : Instruction)
    → get_elem? is k ≡ some i
    → get_elem? (is ++ (j ∷ [])) k ≡ some i
get_elem?-snoc-old [] k i j h = ground (arith, h)
get_elem?-snoc-old (x ∷ xs) zero i j h = h
get_elem?-snoc-old (x ∷ xs) (suc k) i j h = get_elem?-snoc-old xs k i j h

get_elem?-snoc-new :
    (is : List Instruction) (k : ℕ) (j : Instruction)
    → k ≡ length is
    → get_elem? (is ++ (j ∷ [])) k ≡ some j
get_elem?-snoc-new [] k j h = rw h refl
get_elem?-snoc-new (x ∷ xs) zero j h = ground (arith, h)
get_elem?-snoc-new (x ∷ xs) (suc k) j h = get_elem?-snoc-new xs k j (omega (arith, h))

PendFit-snoc-old :
    (is : List Instruction) (bs : List PendingBranch) (j : Instruction)
    → PendFit is bs
    → PendFit (is ++ (j ∷ [])) bs
PendFit-snoc-old is [] j h = tt
PendFit-snoc-old is (b ∷ bs) j ((i, e, bra), hs) =
    ((i, get_elem?-snoc-old is b.pc i j e, bra), PendFit-snoc-old is bs j hs)

PendFit-snoc-new :
    (is : List Instruction) (bs : List PendingBranch) (b : PendingBranch) (j : Instruction)
    → PendFit is bs
    → b.pc ≡ length is
    → is_bra j ≡ true
    → PendFit (is ++ (j ∷ [])) (bs ++ (b ∷ []))
PendFit-snoc-new is [] b j h e bra = ((j, get_elem?-snoc-new is b.pc j e, bra), tt)
PendFit-snoc-new is (c ∷ bs) b j ((i, f, old), hs) e bra =
    ((i, get_elem?-snoc-old is c.pc i j f, old), PendFit-snoc-new is bs b j hs e bra)

Pends-PendFit :
    (is : List Instruction) (pc : ℕ) (op : Opcode) (i : Instruction) (old new : List PendingBranch)
    → pc ≡ length is
    → i.opcode ≡ op
    → Pends pc op old new
    → PendFit is old
    → PendFit (is ++ (i ∷ [])) new
Pends-PendFit is pc op i old new e o (inl same) h =
    subst (λ bs. PendFit (is ++ (i ∷ [])) bs) (sym same) (PendFit-snoc-old is old i h)
Pends-PendFit is pc op i old new e o (inr (bra, b, at_end, same)) h =
    subst (λ bs. PendFit (is ++ (i ∷ [])) bs) (sym same)
      (PendFit-snoc-new is old b i h (at_end ∙ e) (subst (λ x. is_bra_opcode x ≡ true) (sym o) bra))

pub used :
    (n : ℕ) (kind : TokenKind) (ts : List Token)
    → Left (suc n) ts
    → at kind ts ≡ true
    → kind_number kind ≢ 13
    → Left n (skip ts)
used n kind ts (e, le) h ne =
    let (lt, (end, le'), some') = skip-used (suc n) kind ts (e, le) h ne in
    (end, omega (arith, lt, le))

module _ (n : ℕ) where
  finish_line-Sound :
      (program : Program) (p : Parser)
      → program.words ≡ p.program.words
      → length p.program.params ≤ length program.params
      → SoundParser n p
      → Holds (SoundParser n) (finish_line program p)
  unfolding finish_line
  finish_line-Sound program p e le (l, h) =
      >>=-Holds_any (SoundParser n) (end_of_line (skip p.rest)) _ (λ u. (
        skip-Left n p.rest l,
        subst (λ ws. Sound program.params ws p.labels p.pending) (sym e)
            (record {
              instructions = h.instructions;
              coded = h.coded;
              pend_fit = h.pend_fit;
              labels_fit = h.labels_fit;
              declares = Declares-mono p.program.params program.params h.instructions le h.declares;
            }),
      ))

  entry_directive-Sound : (p : Parser) → SoundParser n p → Holds (SoundParser n) (entry_directive p)
  unfolding entry_directive
  entry_directive-Sound p h =
      >>=-Holds_any (SoundParser n) (error_if (not (is_empty p.program.entry)) _ p.rest) _ (λ u.
        >>=-Holds_any (SoundParser n) (error_if (not (length p.program.words == 0)) _ p.rest) _
          (λ v.
            >>=-Holds_any (SoundParser n) (error_if (not (at identifier p.rest)) _ p.rest) _
              (λ w. finish_line-Sound _ p refl (omega arith) h)))

  param_directive-Sound : (p : Parser) → SoundParser n p → Holds (SoundParser n) (param_directive p)
  unfolding param_directive
  param_directive-Sound p h =
      >>=-Holds_any (SoundParser n) (error_if (not (at identifier p.rest)) _ p.rest) _ (λ u.
        >>=-Holds_any (SoundParser n)
          (error_if (member_of (cur p.rest).text p.program.params) _ p.rest) _
          (λ v.
            finish_line-Sound _ p refl
              (omega (arith, length-append p.program.params ((cur p.rest).text ∷ []))) h))

  shared_directive-Sound :
      (p : Parser) → SoundParser n p → Holds (SoundParser n) (shared_directive p)
  unfolding shared_directive
  shared_directive-Sound p (l, h) =
      >>=-Holds (NumberLeft n Opcode.exit []) (SoundParser n) (integer_literal p.rest) _
        (integer_literal-Left n Opcode.exit [] p.rest l)
        (λ r k. >>=-Holds_any (SoundParser n) (end_of_line r.1) _ (λ u. (k.1, h)))

  pub directive_line-Sound :
      (p : Parser)
      → at directive p.rest ≡ true
      → SoundParser (suc n) p
      → Holds (SoundParser n) (directive_line p)
  unfolding directive_line
  directive_line-Sound p e (l, h) =
      let name = (cur p.rest).text in
      choose (str_eq name ".entry") (str_eq name ".param") (str_eq name ".shared")
    where
      next : Parser
      next = record p { rest = skip p.rest }

      next-Sound : SoundParser n next
      next-Sound = (used n directive p.rest l e (omega arith), h)

      choose :
          (a b c : Bool)
          → Holds (SoundParser n) (
              if a
              then entry_directive (record p { rest = skip p.rest })
              else if b
              then param_directive (record p { rest = skip p.rest })
              else if c
              then shared_directive (record p { rest = skip p.rest })
              else error_at ("unknown directive '" +++ ((cur p.rest).text +++ "'")) (skip p.rest))
      choose true b c = entry_directive-Sound next next-Sound
      choose false true c = param_directive-Sound next next-Sound
      choose false false true = shared_directive-Sound next next-Sound
      choose false false false = tt

  -- The guard and the mnemonic.
  pub take_guard-Left :
      (m : ℕ) (op : Opcode) (pending : List PendingBranch) (c : Cursor)
      → Good m op pending c
      → Holds (Good m op pending) (take_guard c)
  unfolding take_guard
  take_guard-Left m op pending c h = elim (Bool-cases (at guard c.rest)) [
    | inr e ↦ rw (take_guard, e) h
    | inl e ↦ elim (Option-cases (predicate_name (cur c.rest).text)) [
      | inl f ↦ rw (take_guard, e, f) tt
      | inr (k, f) ↦
          rw (take_guard, e, f)
            (record {
              left = skip-Left m c.rest h.left;
              imm_fits = h.imm_fits;
              same_opcode = h.same_opcode;
              same_pending = h.same_pending;
            })
    ]
  ]

  pub mnemonic-BraOnly :
      (ts : List Token)
      → Holds
          (λ (info : OpcodeInfo). BraOnly info × LdpOnly info × (at identifier ts ≡ true))
          (mnemonic ts)
  unfolding mnemonic
  mnemonic-BraOnly ts =
      >>=-Holds _ _ (error_if (not (at identifier ts)) _ ts) _
        (error_if-Holds (not (at identifier ts)) _ ts)
        (λ u e. found (opcode_info_named (cur ts).text) refl (ground (arith, e)))
    where
      found :
          (o : Option OpcodeInfo)
          → opcode_info_named (cur ts).text ≡ o
          → at identifier ts ≡ true
          → Holds
              (λ (info : OpcodeInfo). BraOnly info × LdpOnly info × (at identifier ts ≡ true))
              (elim o as (λ _. Result OpcodeInfo AssemblyError) [
                | none ↦ error_at ("unknown mnemonic '" +++ ((cur ts).text +++ "'")) ts
                | some info ↦ ok info
              ])
      found none e h = tt
      found (some info) e h = (
        opcode_info_named-BraOnly (cur ts).text info e,
        opcode_info_named-LdpOnly (cur ts).text info e,
        h,
      )

  pub emit-Sound :
      (p : Parser) (c : Cursor) (op : Opcode)
      → Sound p.program.params p.program.words p.labels p.pending
      → Operated n (length p.program.words) op p.pending c
      → ¬ Undeclared p.program.params c.out
      → Holds (SoundParser n) (emit p c)
  unfolding emit
  emit-Sound p c op h o declared =
      >>=-Holds_any (SoundParser n) (end_of_line c.rest) _ (λ u. coded (encode c.out) refl)
    where
      coded :
          (r : Result ℕ IsaError)
          → encode c.out ≡ r
          → Holds (SoundParser n) (elim r as (λ _. Parsing) [
            | fail e ↦ error_at (to_string e) c.rest
            | ok word ↦ ok (record p {
              rest = c.rest;
              pending = c.pending;
              program = record p.program { words = p.program.words ++ (word ∷ []) };
            })
          ])
      coded (fail e) f = tt
      coded (ok word) f = (
        o.left,
        record {
          instructions = h.instructions ++ (c.out ∷ []);
          coded =
              Coded-snoc p.program.words h.instructions word c.out h.coded
                (encode-Code c.out word f o.imm_fits);
          pend_fit =
              Pends-PendFit h.instructions (length p.program.words) op c.out p.pending c.pending
                (Coded-length p.program.words h.instructions h.coded) o.same_opcode o.pends
                h.pend_fit;
          labels_fit = h.labels_fit;
          declares = Declares-snoc p.program.params h.instructions c.out h.declares declared;
        },
      )
