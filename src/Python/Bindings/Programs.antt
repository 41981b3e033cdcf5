-- ===== src/Python/Bindings/Programs.antt =====
-- The programs that `assemble` of python/bindings/module.cpp returns, given to the other functions.
use warp_sim.Base.{
  ℕ, zero, suc, String, ◌+◌, ◌≡◌, refl, sym, ap, arith, subst, Option, some, List, [], ◌∷◌, length,
  get_elem?, Result, ok, fail,
}
use warp_sim.Isa.Instruction.{Instruction, branch_target}
use warp_sim.Asm.Program.{Program}
use warp_sim.Asm.Lexer.{AssemblyError}
use warp_sim.Asm.Annotate.Targets.{Stray}
use warp_sim.Asm.Assembler.{assemble}
use warp_sim.Asm.Assembler.Codes.{Code, Coded, Coded-length}
use warp_sim.Asm.Assembler.Link.{Linked, get_elem?-some}
use warp_sim.Asm.Annotate.Points.{get_elem?-lt}
use warp_sim.Asm.Assembler.Total.{Assembled, assemble_lem}
use warp_sim.Asm.Operands.Cursors.{Holds}
use warp_sim.Asm.Operands.Params.{Declares}
use warp_sim.Asm.Disassembler.{DisassemblyError, disassemble}
use warp_sim.Asm.Disassembler.Errors.{Bad, undecodable, undeclared, Explained, disassemble_lem}
use warp_sim.Core.Device.Launch.{decode_words}
use warp_sim.Python.Bindings.{assemble_call, disassemble_call, program_length}

decode_words-Coded :
    (pc : ℕ) (ws : List ℕ) (is : List Instruction) → Coded ws is → decode_words pc ws ≡ ok is
unfolding decode_words
decode_words-Coded pc [] [] h = refl
decode_words-Coded pc [] (i ∷ is) h = absurd h
decode_words-Coded pc (w ∷ ws) [] h = absurd h
decode_words-Coded pc (w ∷ ws) (i ∷ is) ((e, d), hs) =
    rw (decode_words, d, decode_words-Coded (pc + 1) ws is hs) refl

Coded-at :
    (ws : List ℕ) (is : List Instruction) (k w : ℕ)
    → Coded ws is
    → get_elem? ws k ≡ some w
    → (i : Instruction) × (get_elem? is k ≡ some i) × Code w i
Coded-at [] is k w h e = absurd (cc (e))
Coded-at (x ∷ ws) [] k w h e = absurd h
Coded-at (x ∷ ws) (i ∷ is) zero w (h, hs) e =
    let same : x ≡ w = cc (e) in (i, refl, subst (λ y. Code y i) same h)
Coded-at (x ∷ ws) (i ∷ is) (suc k) w (h, hs) e = Coded-at ws is k w hs e

not-Bad :
    (params : List String) (ws : List ℕ) (is : List Instruction) (k : ℕ)
    → Coded ws is
    → Declares params is
    → ¬ Bad params ws k
not-Bad params ws is k h declares (undecodable {w = w} {e = f} at failed) =
    let (i, there, (e, d)) = Coded-at ws is k w h at in cc (d, failed)
not-Bad params ws is k h declares (undeclared {w = w} {i = j} at decoded u) =
    let (i, there, (e, d)) = Coded-at ws is k w h at in
    let same : i ≡ j = cc (d, decoded) in
    declares k j (subst (λ (x : Instruction). get_elem? is k ≡ some x) same there) u

assemble_call-Assembled :
    (parse_float : String → Option ℕ) (source : String) (p : Program)
    → assemble_call parse_float source ≡ some (ok p)
    → Assembled p
unfolding assemble_call
assemble_call-Assembled parse_float source p h =
    let (r, e, holds) = assemble_lem parse_float source in go r e holds
  where
    go :
        (r : Result Program AssemblyError)
        → assemble parse_float source ≡ some r
        → Holds Assembled r
        → Assembled p
    go (fail f) e holds = absurd (cc (h, e))
    go (ok q) e holds =
        let same : q ≡ p = cc (h, e) in subst (λ (x : Program). Assembled x) same holds

disassemble_call-text :
    (float_text : ℕ → String) (p : Program)
    → ((k : ℕ) → ¬ Bad p.params p.words k)
    → (text : String) × (disassemble_call float_text p ≡ some (ok text))
unfolding disassemble_call
disassemble_call-text float_text p fine =
    let (r, e, explained) = disassemble_lem float_text p in go r e explained
  where
    go :
        (r : Result String DisassemblyError)
        → disassemble float_text p ≡ some r
        → Explained p r
        → (text : String) × (disassemble_call float_text p ≡ some (ok text))
    go (fail f) e bad = absurd (fine f.pc bad)
    go (ok text) e explained = (text, rw (disassemble_call, e) refl)

-- The branches of an annotated program are in range, since annotation keeps their targets.
after_in_range :
    (params : List String) (n : ℕ) (ws : List ℕ) (l : Linked params n ws) (k : ℕ) (j : Instruction)
    → get_elem? l.after k ≡ some j
    → ¬ Stray (length l.after) j
after_in_range params n ws l k j e (bra, beyond) =
    let (i, f) =
      get_elem?-some l.before k (omega (arith, get_elem?-lt l.after k j e, l.annotated.0)) in
    let (j', g, a) = l.annotated.1 k i f in
    let same : j' ≡ j = cc (e, g) in
    let kept : branch_target j ≡ branch_target i = cc (a.target_same, same) in
    let opcode : i.opcode ≡ j.opcode = cc (ap (λ (x : Instruction). x.opcode) a.rest_same, same) in
    l.in_range k i f (cc (opcode, bra), omega (arith, beyond, kept, l.annotated.0))

-- A program that `assemble` returns is accepted by the rest: `Program.disassemble` gives a text for it,
-- the decoding loop of `Device::launch` finds an instruction in every word, and each branch among these
-- instructions leads to one of them.
pub assemble_call-accepted :
    (parse_float : String → Option ℕ) (float_text : ℕ → String) (source : String) (p : Program)
    → assemble_call parse_float source ≡ some (ok p)
    → ((text : String) × (disassemble_call float_text p ≡ some (ok text)))
      × ((decoded : List Instruction) × (decode_words 0 p.words ≡ ok decoded)
          × (length decoded ≡ program_length p)
          × ((k : ℕ) (i : Instruction) → get_elem? decoded k ≡ some i → ¬ Stray (length decoded) i))
unfolding program_length
assemble_call-accepted parse_float float_text source p h =
    let l = (assemble_call-Assembled parse_float source p h).linked in
    (
      disassemble_call-text float_text p λ k. not-Bad p.params p.words l.after k l.coded l.declares,
      (
        l.after,
        decode_words-Coded 0 p.words l.after l.coded,
        sym (Coded-length p.words l.after l.coded),
        after_in_range p.params (length p.words) p.words l,
      ),
    )
