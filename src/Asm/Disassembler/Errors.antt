-- ===== src/Asm/Disassembler/Errors.antt =====
-- When `disassemble` (src/asm/disassembler.cpp) fails.
use Prim.Native.String.{◌++◌ as ◌+++◌}
use mathlib.Core.Option.{some-injective}
use warp_sim.Base.{
  ℕ, zero, suc, String, ◌+◌, ◌≤◌, leb, leb→le, ◌≡◌, inl, inr, refl, arith, subst, Bool, true, false,
  Bool-cases, Option, none, some, Option-cases, List, [], ◌∷◌, length, get_elem?, Result, ok, fail,
  if◌then◌else◌,
}
use warp_sim.Isa.Opcode.{
  Shape, opcode_info, opcode_info_of, special_register_info, SpecialRegisterInfo, index,
}
use warp_sim.Isa.Instruction.{Instruction, IsaError, validate, branch_target, to_string}
use warp_sim.Isa.Encoding.{decode, opcode_field}
use warp_sim.Isa.Validity.{ShapeCanonical, validate-Canonical_iff}
use warp_sim.Isa.Roundtrip.{decode_entry-eq-ok}
use warp_sim.Asm.Program.{Program}
use warp_sim.Asm.Cfg.{is_bra}
use warp_sim.Asm.Assembler.{emplace}
use warp_sim.Asm.Operands.Params.{Undeclared}
use warp_sim.Asm.Printing.{decimal_text}
use warp_sim.Asm.Printing.Reading.{all_below, all_below-at}
use warp_sim.Asm.Disassembler.{
  DisassemblyError, Labels, target_labels, label_line, header_text, guard_text, operands_text,
  format_instruction, print_words, disassemble,
}

-- What is wrong with word number k of the program.
pub data Bad (params : List String) (words : List ℕ) (k : ℕ) : Type 0 where
  undecodable :
      {w : ℕ} {e : IsaError} → get_elem? words k ≡ some w → decode w ≡ fail e → Bad params words k
  undeclared :
      {w : ℕ} {i : Instruction}
      → get_elem? words k ≡ some w
      → decode w ≡ ok i
      → Undeclared params i
      → Bad params words k

later :
    (params : List String) (w : ℕ) (ws : List ℕ) (k : ℕ)
    → Bad params ws k
    → Bad params (w ∷ ws) (suc k)
later params w ws k (undecodable g e) = undecodable g e
later params w ws k (undeclared g e u) = undeclared g e u

abbrev is_found : Option SpecialRegisterInfo → Bool
is_found none = false
is_found (some r) = true

decode-validate : (w : ℕ) (i : Instruction) → decode w ≡ ok i → validate i ≡ ok tt
unfolding decode
decode-validate w i e =
    let (info, found, same, valid) = decode_entry-eq-ok (opcode_info (opcode_field w)) w e in
    subst (λ (j : Instruction). validate j ≡ ok tt) same valid

special_registers : all_below 10 (λ k. is_found (special_register_info k)) ≡ true
unfolding special_register_info index
special_registers = refl

-- The operands of a valid instruction have no text only if it loads an undeclared parameter.
operands_text-eq-fail :
    (float_text : ℕ → String) (s : Shape) (i : Instruction) (labels : Labels) (params : List String)
    (e : DisassemblyError)
    → ShapeCanonical s i
    → operands_text float_text s i labels params ≡ fail e
    → (s ≡ Shape.ldp) × (length params ≤ i.imm)
unfolding operands_text
operands_text-eq-fail f Shape.rrr i labels params e c h = cc (h)
operands_text-eq-fail f Shape.prr i labels params e c h = cc (h)
operands_text-eq-fail f Shape.rr i labels params e c h = cc (h)
operands_text-eq-fail f Shape.acc i labels params e c h = cc (h)
operands_text-eq-fail f Shape.sreg i labels params e c h =
    elim (Option-cases (special_register_info i.src0)) [
      | inl none' ↦
          let found =
            all_below-at 10 (λ k. is_found (special_register_info k)) i.src0 special_registers
              c.0 in
          absurd (ground (arith, found, none'))
      | inr (r, some') ↦ cc (h, some')
    ]
operands_text-eq-fail f Shape.bra i labels params e c h = cc (h)
operands_text-eq-fail f Shape.no_operands i labels params e c h = cc (h)
operands_text-eq-fail f Shape.ld i labels params e c h = cc (h)
operands_text-eq-fail f Shape.st i labels params e c h = cc (h)
operands_text-eq-fail f Shape.ldp i labels params e c h =
    elim (Bool-cases (leb (length params) i.imm)) [
      | inl b ↦ (refl, leb→le (length params) i.imm b)
      | inr b ↦ cc (h, b)
    ]

ldp_shape :
    (s : Shape) (i : Instruction) (labels : Labels) (params : List String) (f : ℕ → String)
    (text : String)
    → operands_text f s i labels params ≡ ok text
    → s ≡ Shape.ldp
    → length params ≤ i.imm
    → ⊥
unfolding operands_text
ldp_shape s i labels params f text h same le =
    let at_ldp : operands_text f Shape.ldp i labels params ≡ ok text =
      subst (λ (x : Shape). operands_text f x i labels params ≡ ok text) same h in
    elim (Bool-cases (leb (length params) i.imm)) [
      | inl b ↦ cc (at_ldp, b)
      | inr b ↦ ground (arith, b, le)
    ]

no-Bad :
    (params : List String) (w : ℕ) (ws : List ℕ) (i : Instruction)
    → decode w ≡ ok i
    → ¬ Undeclared params i
    → ((k : ℕ) → ¬ Bad params ws k)
    → (k : ℕ) → ¬ Bad params (w ∷ ws) k
no-Bad params w ws i d n hs zero (undecodable g e) =
    let same = some-injective _ _ g in cc (d, e, same)
no-Bad params w ws i d n hs zero (undeclared {i = j} g e u) =
    let same = some-injective _ _ g in
    let equal : j ≡ i = cc (d, e, same) in
    n (subst (λ (x : Instruction). Undeclared params x) equal u)
no-Bad params w ws i d n hs (suc k) (undecodable g e) = hs k (undecodable g e)
no-Bad params w ws i d n hs (suc k) (undeclared g e u) = hs k (undeclared g e u)

no_words : (params : List String) (k : ℕ) → ¬ Bad params [] k
no_words params k (undecodable g e) = cc (g)
no_words params k (undeclared g e u) = cc (g)

-- What a loop over the words from number `pc` gives: something, or an error at a bad word.
abbrev Outcome :
    {A : Type 0} → (A → Type 0) → List String → ℕ → List ℕ → Result A DisassemblyError → Type 0
Outcome P params pc ws (ok a) = P a
Outcome P params pc ws (fail e) = (k : ℕ) × (e.pc ≡ pc + k) × Bad params ws k

abbrev AllDecode : List ℕ → Type 0
AllDecode [] = Unit {0}
AllDecode (w ∷ ws) = ((i : Instruction) × (decode w ≡ ok i)) × AllDecode ws

target_labels_lem :
    (params : List String) (pc : ℕ) (ws : List ℕ) (labels : Labels)
    → Outcome (λ l. AllDecode ws) params pc ws (target_labels pc ws labels)
unfolding target_labels
target_labels_lem params pc [] labels = tt
target_labels_lem params pc (w ∷ ws) labels =
    go (decode w) refl (λ ls. target_labels_lem params (pc + 1) ws ls)
  where
    shifted :
        (r : Result Labels DisassemblyError)
        → ((i : Instruction) × (decode w ≡ ok i))
        → Outcome (λ l. AllDecode ws) params (pc + 1) ws r
        → Outcome (λ l. AllDecode (w ∷ ws)) params pc (w ∷ ws) r
    shifted (ok l) d h = (d, h)
    shifted (fail e) d (k, p, bad) = (suc k, omega (arith, p), later params w ws k bad)

    go :
        (r : Result Instruction IsaError)
        → decode w ≡ r
        → ((ls : Labels)
            → Outcome (λ l. AllDecode ws) params (pc + 1) ws (target_labels (pc + 1) ws ls))
        → Outcome
            (λ l. AllDecode (w ∷ ws))
            params
            pc
            (w ∷ ws)
            (elim r as (λ _. Result Labels DisassemblyError) [
              | fail e ↦ fail (record { pc = pc; message = to_string e })
              | ok i ↦ target_labels (pc + 1) ws (
                  if is_bra i
                  then emplace (branch_target i) ("L" +++ decimal_text (branch_target i)) labels
                  else labels)
            ])
    go (fail e) d next = (0, omega arith, undecodable refl d)
    go (ok i) d next = shifted _ (i, d) (next _)

print_words_lem :
    (float_text : ℕ → String) (labels : Labels) (params : List String) (pc : ℕ) (ws : List ℕ)
    (out : String)
    → AllDecode ws
    → (r : Result String DisassemblyError) × (print_words float_text labels params pc ws out
        ≡ some r)
      × Outcome (λ text. (k : ℕ) → ¬ Bad params ws k) params pc ws r
unfolding print_words format_instruction
print_words_lem f labels params pc [] out h = (ok out, refl, no_words params)
print_words_lem f labels params pc (w ∷ ws) out ((i, d), hs) =
    rw (print_words, d)
      (go (operands_text f (opcode_info_of i.opcode).shape i labels params) refl
        (λ o. print_words_lem f labels params (pc + 1) ws o hs))
  where
    go :
        (r : Result String DisassemblyError)
        → operands_text f (opcode_info_of i.opcode).shape i labels params ≡ r
        → ((o : String)
            → (s : Result String DisassemblyError) × (print_words f labels params (pc + 1) ws o
                ≡ some s)
              × Outcome (λ text. (k : ℕ) → ¬ Bad params ws k) params (pc + 1) ws s)
        → (s : Result String DisassemblyError) × ((elim (elim r
                as (λ _. Result String DisassemblyError) [
                  | fail e ↦ fail e
                  | ok text ↦ ok (guard_text i +++ ((opcode_info_of i.opcode).mnemonic +++ text))
                ])
              as (λ _. Option (Result String DisassemblyError)) [
                | fail e ↦ some (fail (record { pc = pc; message = e.message }))
                | ok text ↦
                    print_words f labels params
                      (pc + 1)
                      ws
                      (out +++ (label_line pc labels +++ ("    " +++ (text +++ "\n"))))
              ])
            ≡ some s)
          × Outcome (λ text. (k : ℕ) → ¬ Bad params (w ∷ ws) k) params pc (w ∷ ws) s
    go (fail e) g next =
        let (fits, guarded, shape) = (validate-Canonical_iff i).0 (decode-validate w i d) in
        let u = operands_text-eq-fail f (opcode_info_of i.opcode).shape i labels params e shape g in
        (
          fail (record { pc = pc; message = e.message }),
          refl,
          (0, omega arith, undeclared refl d u),
        )
    go (ok text) g next =
        let (s, e, h) = next (
          out
          +++ (label_line pc labels
              +++ ("    "
                  +++ ((guard_text i +++ ((opcode_info_of i.opcode).mnemonic +++ text))
                      +++ "\n")))) in
        (s, e, onward s h)
      where
        onward :
            (s : Result String DisassemblyError)
            → Outcome (λ text. (k : ℕ) → ¬ Bad params ws k) params (pc + 1) ws s
            → Outcome (λ text. (k : ℕ) → ¬ Bad params (w ∷ ws) k) params pc (w ∷ ws) s
        onward (ok t) h =
            no-Bad params w ws i d
              (λ u. ldp_shape (opcode_info_of i.opcode).shape i labels params f text g u.0 u.1) h
        onward (fail e) (k, p, bad) = (suc k, omega (arith, p), later params w ws k bad)

abbrev pub Explained : Program → Result String DisassemblyError → Type 0
Explained p (ok text) = (k : ℕ) → ¬ Bad p.params p.words k
Explained p (fail e) = Bad p.params p.words e.pc

-- Disassembling ends on every program. It fails exactly if there is a word that does not decode or that
-- loads a parameter that the program does not declare, and the error has the number of such a word.
pub disassemble_lem :
    (float_text : ℕ → String) (p : Program)
    → (r : Result String DisassemblyError) × (disassemble float_text p ≡ some r) × Explained p r
unfolding disassemble
disassemble_lem float_text p =
    go (target_labels 0 p.words p.labels) (target_labels_lem p.params 0 p.words p.labels)
  where
    explained :
        (r : Result String DisassemblyError)
        → Outcome (λ text. (k : ℕ) → ¬ Bad p.params p.words k) p.params 0 p.words r
        → Explained p r
    explained (ok text) h = h
    explained (fail e) (k, q, bad) =
        let same : k ≡ e.pc = omega (arith, q) in subst (λ j. Bad p.params p.words j) same bad

    go :
        (t : Result Labels DisassemblyError)
        → Outcome (λ l. AllDecode p.words) p.params 0 p.words t
        → (r : Result String DisassemblyError) × ((elim t
              as (λ _. Option (Result String DisassemblyError)) [
                | fail e ↦ some (fail e)
                | ok labels ↦ print_words float_text labels p.params 0 p.words (header_text p)
              ])
            ≡ some r)
          × Explained p r
    go (fail e) (k, q, bad) =
        let same : k ≡ e.pc = omega (arith, q) in
        (fail e, refl, subst (λ j. Bad p.params p.words j) same bad)
    go (ok labels) h =
        let (r, e, o) = print_words_lem float_text labels p.params 0 p.words (header_text p) h in
        (r, e, explained r o)
