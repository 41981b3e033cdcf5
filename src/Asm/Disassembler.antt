-- ===== src/Asm/Disassembler.antt =====
-- src/asm/disassembler.cpp and include/warpsim/asm/disassembler.hpp, but for the printing of numbers.
-- The result of `disassemble` is `none` if `.value()` is called on an error;
-- `Disassembler.Errors` is about that. `std::to_chars` for a float is a parameter.
pub mod Errors
use Prim.Native.Char.{code}
use Prim.Native.String
use Prim.Native.String.{◌++◌ as ◌+++◌}
use warp_sim.Base.{
  ℕ, String, ◌+◌, ◌-◌, ◌/◌, ◌%◌, ◌^◌, leb, ◌==◌, if◌then◌else◌, Bool, true, false, not, ◌||◌,
  Option, none, some, List, [], ◌∷◌, length, get_or, Result, ok, fail, fail_if, ◌>>◌, ◌>>=◌,
}
use warp_sim.Isa.Opcode.{Opcode, Shape, opcode_info_of, special_register_info}
use warp_sim.Isa.Instruction.{
  Instruction, branch_target, reconvergence_pc, no_reconvergence, to_string,
}
use warp_sim.Isa.Encoding.{decode}
use warp_sim.Asm.Program.{Program}
use warp_sim.Asm.Cfg.{is_bra}
use warp_sim.Asm.Assembler.{emplace}
use warp_sim.Asm.Printing.{decimal_text, reg, pred, signed_decimal, hex}

pub record DisassemblyError : Type 0 where
  pub pc : ℕ
  pub message : String

abbrev pub Labels : Type 0
Labels = List (ℕ × String)

unfoldable pub prints_float_immediate : Opcode → Bool
prints_float_immediate Opcode.fadd = true
prints_float_immediate Opcode.fsub = true
prints_float_immediate Opcode.fmul = true
prints_float_immediate Opcode.fmin = true
prints_float_immediate Opcode.fmax = true
prints_float_immediate Opcode.fneg = true
prints_float_immediate Opcode.cvt_s32_f32 = true
prints_float_immediate Opcode.setp_eq_f32 = true
prints_float_immediate Opcode.setp_ne_f32 = true
prints_float_immediate Opcode.setp_lt_f32 = true
prints_float_immediate Opcode.setp_le_f32 = true
prints_float_immediate Opcode.setp_gt_f32 = true
prints_float_immediate Opcode.setp_ge_f32 = true
prints_float_immediate _ = false

abbrev pub is_mov : Opcode → Bool
is_mov op = elim op [ Opcode.mov ↦ true | _ ↦ false ]

-- `text.find(c) != npos`
unfoldable pub has_char : ℕ → String → Bool
has_char k String.[] = false
has_char k (String.◌∷◌ c s) = code c == k || has_char k s

-- `std::isfinite` of the bits of a float: the exponent is not all ones.
unfoldable pub is_finite : ℕ → Bool
is_finite bits = not (bits / 2 ^ 23 % 2 ^ 8 == 255)

unfoldable pub address_text : Instruction → String
address_text i =
    if i.imm == 0
    then "[" +++ (reg i.src0 +++ "]")
    else if leb (2 ^ 31) i.imm
    then "[" +++ (reg i.src0 +++ ("-" +++ (decimal_text ((2 ^ 32 - i.imm) % 2 ^ 32) +++ "]")))
    else "[" +++ (reg i.src0 +++ ("+" +++ (decimal_text i.imm +++ "]")))

unfoldable pub name_of : ℕ → Labels → Option String
name_of pc [] = none
name_of pc ((k, l) ∷ ls) = if k == pc then some l else name_of pc ls

unfoldable pub label_for : ℕ → Labels → String
label_for pc labels = elim (name_of pc labels) [ some l ↦ l | none ↦ "L" +++ decimal_text pc ]

unfoldable pub guard_text : Instruction → String
guard_text i =
    if i.guard.present
    then (if i.guard.negate then "@!" else "@") +++ (pred i.guard.pred +++ " ")
    else ""

unfoldable pub branch_text : Instruction → Labels → String
branch_text i labels =
    " "
    +++ (label_for (branch_target i) labels
        +++ (if reconvergence_pc i == no_reconvergence
            then ""
            else "    // reconverge " +++ label_for (reconvergence_pc i) labels))

-- The first loop of `disassemble`: a label for every branch target.
unfoldable pub target_labels : ℕ → List ℕ → Labels → Result Labels DisassemblyError
target_labels pc [] labels = ok labels
target_labels pc (w ∷ ws) labels = elim (decode w) [
  | fail e ↦ fail (record { pc = pc; message = to_string e })
  | ok i ↦ target_labels (pc + 1) ws (
      if is_bra i
      then emplace (branch_target i) ("L" +++ decimal_text (branch_target i)) labels
      else labels)
]

unfoldable pub params_text : List String → String
params_text [] = ""
params_text (x ∷ xs) = ".param " +++ (x +++ ("\n" +++ params_text xs))

unfoldable pub header_text : Program → String
header_text p =
    ".entry "
    +++ (p.entry
        +++ ("\n"
            +++ (params_text p.params
                +++ (".shared " +++ (decimal_text p.shared_bytes +++ "\n\n")))))

-- The label line before an instruction.
unfoldable pub label_line : ℕ → Labels → String
label_line pc labels = elim (name_of (pc % 2 ^ 16) labels) [ none ↦ "" | some l ↦ l +++ ":\n" ]

module _ (float_text : ℕ → String) where
  unfoldable pub immediate_text : Instruction → String
  immediate_text i =
      let text = float_text i.imm in
      if prints_float_immediate i.opcode
      then (if is_finite i.imm
          then (if has_char b'.' text || has_char b'e' text then text else text +++ ".0")
          else hex i.imm)
      else if is_mov i.opcode
      then hex i.imm
      else signed_decimal i.imm

  -- The operands of `format_instruction`.
  unfoldable pub operands_text :
      Shape → Instruction → Labels → List String → Result String DisassemblyError
  operands_text Shape.rrr i labels params = ok (
      " "
      +++ (reg i.dst
          +++ (", "
              +++ (reg i.src0
                  +++ (", " +++ (if i.imm_flag then immediate_text i else reg i.src1))))))
  operands_text Shape.prr i labels params = ok (
      " "
      +++ (pred i.dst
          +++ (", "
              +++ (reg i.src0
                  +++ (", " +++ (if i.imm_flag then immediate_text i else reg i.src1))))))
  operands_text Shape.rr i labels params =
      ok (" " +++ (reg i.dst +++ (", " +++ (if i.imm_flag then immediate_text i else reg i.src0))))
  operands_text Shape.acc i labels params =
      ok (" " +++ (reg i.dst +++ (", " +++ (reg i.src0 +++ (", " +++ reg i.src1)))))
  operands_text Shape.sreg i labels params = elim (special_register_info i.src0) [
    | none ↦ fail (record { pc = 0; message = "special register out of range" })
    | some s ↦ ok (" " +++ (reg i.dst +++ (", " +++ s.name)))
  ]
  operands_text Shape.bra i labels params = ok (branch_text i labels)
  operands_text Shape.no_operands i labels params = ok ""
  operands_text Shape.ld i labels params = ok (" " +++ (reg i.dst +++ (", " +++ address_text i)))
  operands_text Shape.st i labels params = ok (" " +++ (address_text i +++ (", " +++ reg i.src1)))
  operands_text Shape.ldp i labels params = do
    fail_if (leb (length params) i.imm)
        (record { pc = 0; message = "parameter ordinal out of range" })
    ok (" " +++ (reg i.dst +++ (", [" +++ (get_or params i.imm "" +++ "]"))))

  unfoldable pub format_instruction :
      Instruction → Labels → List String → Result String DisassemblyError
  format_instruction i labels params =
      let info = opcode_info_of i.opcode in
      elim (operands_text info.shape i labels params) [
        | fail e ↦ fail e
        | ok text ↦ ok (guard_text i +++ (info.mnemonic +++ text))
      ]

  -- The second loop of `disassemble`.
  unfoldable pub print_words :
      Labels → List String → ℕ → List ℕ → String → Option (Result String DisassemblyError)
  print_words labels params pc [] out = some (ok out)
  print_words labels params pc (w ∷ ws) out = elim (decode w) [
    | fail e ↦ none
    | ok i ↦ elim (format_instruction i labels params) [
      | fail e ↦ some (fail (record { pc = pc; message = e.message }))
      | ok text ↦
          print_words labels params (pc + 1) ws
            (out +++ (label_line pc labels +++ ("    " +++ (text +++ "\n"))))
    ]
  ]

  unfoldable pub disassemble : Program → Option (Result String DisassemblyError)
  disassemble p = elim (target_labels 0 p.words p.labels) [
    | fail e ↦ some (fail e)
    | ok labels ↦ print_words labels p.params 0 p.words (header_text p)
  ]
