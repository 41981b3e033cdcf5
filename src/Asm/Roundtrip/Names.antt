-- ===== src/Asm/Roundtrip/Names.antt =====
-- Mnemonics, special registers, parameters and guards as src/asm/disassembler.cpp prints them.
use Prim.Native.Char.{code}
use Prim.Native.String.{◌++◌ as ◌+++◌}
use text.Mathlib.TextLemmas.{append_assoc}
use warp_sim.Base.{
  ℕ, zero, suc, String, ◌%◌, ◌^◌, ◌<◌, ◌≡◌, refl, sym, ap, arith, subst, Bool, true, false, not,
  ◌&&◌, Option, none, some, List, [], ◌∷◌, ok, ◌>>◌,
}
use warp_sim.Isa.Opcode.{
  Opcode, opcode_info_of, number, SpecialRegisterInfo, special_register_info,
  special_register_info_named, index,
}
use warp_sim.Isa.Instruction.{Instruction}
use warp_sim.Asm.Lexer.{
  identifier, special, lbracket, rbracket, is_ident_char, is_ident_start, is_empty,
}
use warp_sim.Asm.Lexer.Words.{AllChars}
use warp_sim.Asm.Lexer.Pieces.{IsIdent, identifier-Reads, special-Reads}
use warp_sim.Asm.Operands.{
  at, skip, cur, expect, Cursor, Parsed, special_step, param_ref, find_param, error_if, error_at,
}
use warp_sim.Asm.Roundtrip.Texts.{
  Text, Loose-Text, Text-Marks, Loose-any, lbracket-Loose, rbracket-Loose, rbracket-Marks, one_char,
}
use warp_sim.Asm.Roundtrip.Steps.{Consumes, Consumes-then, cursor, one_piece, here, expect-Consumes}
use warp_sim.Asm.Roundtrip.Addresses.{two_pieces, bracket-Consumes}
use warp_sim.Asm.Roundtrip.Operands.{Printed}

-- A test of every character.
abbrev passes : (ℕ → Bool) → String → Bool
passes test String.[] = true
passes test (String.◌∷◌ c s) = test (code c) && passes test s

passes-AllChars : (test : ℕ → Bool) (s : String) → passes test s ≡ true → AllChars test s
passes-AllChars test String.[] h = tt
passes-AllChars test (String.◌∷◌ c s) h =
    (ground (arith, h), passes-AllChars test s (ground (arith, h)))

abbrev starts : String → Bool
starts String.[] = false
starts (String.◌∷◌ c s) = is_ident_start (code c)

named-IsIdent : (s : String) → (starts s && passes is_ident_char s) ≡ true → IsIdent s
named-IsIdent String.[] h = absurd (ground (arith, h))
named-IsIdent (String.◌∷◌ c s) h =
    (ground (arith, h), passes-AllChars is_ident_char (String.◌∷◌ c s) (ground (arith, h)))

mnemonic_name :
    (op : Opcode)
    → (starts (opcode_info_of op).mnemonic && passes is_ident_char (opcode_info_of op).mnemonic)
      ≡ true
unfolding opcode_info_of number is_ident_start is_ident_char
mnemonic_name Opcode.add = refl
mnemonic_name _ = refl

identifier-Text : (s : String) → IsIdent s → Text s ((identifier, s, false) ∷ [])
identifier-Text s h = record { reads = λ rest k. identifier-Reads s rest h k }

pub mnemonic-Text :
    (op : Opcode)
    → Text (opcode_info_of op).mnemonic ((identifier, (opcode_info_of op).mnemonic, false) ∷ [])
mnemonic-Text op = identifier-Text _ (named-IsIdent (opcode_info_of op).mnemonic (mnemonic_name op))

-- A special register's name leads back to its number.
record SpecialName (k : ℕ) : Type 0 where
  entry : SpecialRegisterInfo
  word : String
  found : special_register_info k ≡ some entry
  name_is : entry.name ≡ "%" +++ word
  full : is_empty word ≡ false
  letters : passes is_ident_char word ≡ true
  back : special_register_info_named entry.name ≡ some entry
  number_is : index entry.reg ≡ k

special_name :
    (k : ℕ) (entry : SpecialRegisterInfo) (word : String)
    → special_register_info k ≡ some entry
    → entry.name ≡ "%" +++ word
    → is_empty word ≡ false
    → passes is_ident_char word ≡ true
    → special_register_info_named entry.name ≡ some entry
    → index entry.reg ≡ k
    → SpecialName k
special_name k entry word f n u l b i = record {
  entry = entry;
  word = word;
  found = f;
  name_is = n;
  full = u;
  letters = l;
  back = b;
  number_is = i;
}

special_names : (k : ℕ) → k < 10 → SpecialName k
unfolding special_register_info special_register_info_named index is_ident_char
special_names zero lt = special_name 0 _ "tid.x" refl refl refl refl refl refl
special_names (suc zero) lt = special_name 1 _ "tid.y" refl refl refl refl refl refl
special_names (suc (suc zero)) lt = special_name 2 _ "ntid.x" refl refl refl refl refl refl
special_names (suc (suc (suc zero))) lt = special_name 3 _ "ntid.y" refl refl refl refl refl refl
special_names (suc (suc (suc (suc zero)))) lt =
    special_name 4 _ "ctaid.x" refl refl refl refl refl refl
special_names (suc (suc (suc (suc (suc zero))))) lt =
    special_name 5 _ "ctaid.y" refl refl refl refl refl refl
special_names (suc (suc (suc (suc (suc (suc zero)))))) lt =
    special_name 6 _ "nctaid.x" refl refl refl refl refl refl
special_names (suc (suc (suc (suc (suc (suc (suc zero))))))) lt =
    special_name 7 _ "nctaid.y" refl refl refl refl refl refl
special_names (suc (suc (suc (suc (suc (suc (suc (suc zero)))))))) lt =
    special_name 8 _ "laneid" refl refl refl refl refl refl
special_names (suc (suc (suc (suc (suc (suc (suc (suc (suc zero))))))))) lt =
    special_name 9 _ "warpid" refl refl refl refl refl refl
special_names (suc (suc (suc (suc (suc (suc (suc (suc (suc (suc k)))))))))) lt =
    absurd (omega (arith, lt))

special-Text :
    (w : String)
    → is_empty w ≡ false
    → passes is_ident_char w ≡ true
    → Text ("%" +++ w) ((special, "%" +++ w, false) ∷ [])
special-Text w full letters = record {
  reads = λ rest k.
      rw (append_assoc "%" w rest, one_char "%" (w +++ rest))
        (special-Reads w rest full (passes-AllChars is_ident_char w letters) k);
}

-- The special register with number k is printed, and read back.
pub special_step-Printed :
    (k : ℕ) (x : Instruction)
    → k < 10
    → (entry : SpecialRegisterInfo) × (special_register_info k ≡ some entry)
      × Printed entry.name special_step x (record x { src0 = k })
unfolding special_step skip
special_step-Printed k x lt =
    let s = special_names k lt in
    (
      s.entry,
      s.found,
      record {
        pieces = (special, s.entry.name, false) ∷ [];
        text =
            subst (λ (n : String). Text n ((special, n, false) ∷ [])) (sym s.name_is)
              (special-Text s.word s.full s.letters);
        opens = refl;
        consumes = one_piece special_step _ x _ λ t u us pending is.
            rw (special_step, here special s.entry.name false t (u ∷ us) is, is.1, s.back)
              (ap (λ (n : ℕ). ok (cursor (u ∷ us) (record x { src0 = n }) pending)) s.number_is);
      },
    )

-- `param_ref` after its bracket.
abbrev parameter : List String → Cursor → Parsed
parameter params a = do
  error_if (not (at identifier a.rest)) "expected a parameter name" a.rest
  elim (find_param (cur a.rest).text params 0) [
    | some i ↦
        expect rbracket "']'" (record a {
          rest = skip a.rest;
          out = record a.out { imm_flag = true; imm = i % 2 ^ 32 };
        })
    | none ↦ error_at ("undeclared parameter '" +++ ((cur a.rest).text +++ "'")) a.rest
  ]

parameter-Consumes :
    (params : List String) (k : ℕ) (name : String) (x : Instruction)
    → find_param name params 0 ≡ some k
    → k < 2 ^ 32
    → Consumes
        (parameter params)
        ((identifier, name, false) ∷ ((rbracket, "]", false) ∷ []))
        x
        (record x { imm_flag = true; imm = k })
unfolding skip
parameter-Consumes params k name x found lt =
    two_pieces (parameter params) _ _ x _ λ t v u us pending is is'.
      let out : Instruction = record x { imm_flag = true; imm = k % 2 ^ 32 } in
      rw
        (
          here identifier name false t (v ∷ (u ∷ us)) is,
          is.1,
          found,
          (bracket-Consumes out).parses (v ∷ []) (is', tt) u us pending,
        )
        (ap (λ (n : ℕ). ok (cursor (u ∷ us) (record x { imm_flag = true; imm = n }) pending))
          (omega (arith, lt)))

-- A parameter that is declared under a name that no earlier one has.
pub param_ref-Printed :
    (parse_float : String → Option ℕ) (params : List String) (pc k : ℕ) (name : String)
    (x : Instruction)
    → IsIdent name
    → find_param name params 0 ≡ some k
    → k < 2 ^ 32
    → Printed
        ("[" +++ (name +++ "]"))
        (param_ref parse_float params pc)
        x
        (record x { imm_flag = true; imm = k })
unfolding param_ref
param_ref-Printed parse_float params pc k name x ident found lt = record {
  pieces = _;
  text =
      Loose-Text lbracket-Loose
        (Text-Marks (identifier-Text name ident) rbracket-Marks (Loose-any rbracket-Loose));
  opens = refl;
  consumes =
      Consumes-then (expect lbracket "'['") (parameter params)
        (expect-Consumes lbracket "'['" "[" x) (parameter-Consumes params k name x found lt);
}
