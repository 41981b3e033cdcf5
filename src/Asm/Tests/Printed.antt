-- ===== src/Asm/Tests/Printed.antt =====
-- A guarded load with an offset, printed and read back.
use Prim.Native.String.{◌++◌ as ◌+++◌}
use warp_sim.Base.{ℕ, String, ◌≡◌, refl, arith, true, Option, none, some, List, [], ◌∷◌, ◌++◌, ok}
use warp_sim.Isa.Opcode.{Opcode, opcode_info, opcode_info_of, number}
use warp_sim.Isa.Instruction.{Instruction, validate}
use warp_sim.Isa.Encoding.{pack}
use warp_sim.Asm.Lexer.{Token, newline, lex}
use warp_sim.Asm.Operands.{at}
use warp_sim.Asm.Assembler.{Parser, start, line_step}
use warp_sim.Asm.Printing.{decimal_text, reg, pred, to_base, digit_char}
use warp_sim.Asm.Disassembler.{
  guard_text, address_text, operands_text, format_instruction, prints_float_immediate,
}
use warp_sim.Asm.Roundtrip.Lines.{line_step-format_instruction}

abbrev no_floats : String → Option ℕ
no_floats text = none

abbrev no_text : ℕ → String
no_text bits = ""

abbrev guarded_load : Instruction
guarded_load = record {
  opcode = Opcode.ld_global;
  guard = record { present = true; negate = true; pred = 3 };
  dst = 2;
  src0 = 17;
  src1 = 0;
  imm_flag = true;
  imm = 4294967288;
}

abbrev empty_parser : Parser
empty_parser = start []

read_valid : validate guarded_load ≡ ok tt
unfolding validate opcode_info number
read_valid = refl

load_text : format_instruction no_text guarded_load [] [] ≡ ok "@!p3 ld.global r2, [r17-8]"
unfolding format_instruction opcode_info_of number guard_text operands_text address_text
    decimal_text reg pred to_base digit_char
load_text = refl

line_step-format_instruction_example :
    (tokens : List Token) × (rest : List Token) × (lex ("@!p3 ld.global r2, [r17-8]" +++ "\n")
      ≡ some (ok tokens))
    × (line_step no_floats (record empty_parser { rest = tokens })
        ≡ ok (record empty_parser {
          rest = rest;
          program = record empty_parser.program { words = [] ++ (pack guarded_load ∷ []) };
        }))
    × (at newline rest ≡ true)
unfolding opcode_info_of number prints_float_immediate
line_step-format_instruction_example =
    line_step-format_instruction no_floats no_text empty_parser guarded_load []
      "@!p3 ld.global r2, [r17-8]" read_valid (omega arith) refl refl (λ e. absurd (cc (e)))
      load_text
