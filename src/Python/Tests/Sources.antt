-- ===== src/Python/Tests/Sources.antt =====
-- A source through `assemble`, and what `assemble_call-accepted` says of its program.
use warp_sim.Base.{ℕ, String, ◌≡◌, refl, Option, none, some, List, [], ◌∷◌, ok, length, get_elem?}
use warp_sim.Isa.Instruction.{Instruction}
use warp_sim.Asm.Program.{Program}
use warp_sim.Asm.Annotate.Targets.{Stray}
use warp_sim.Core.Device.Launch.{decode_words}
use warp_sim.Python.Bindings.{assemble_call, disassemble_call, program_length}
use warp_sim.Python.Bindings.Programs.{assemble_call-accepted}
use warp_sim.Asm.Lexer.{
  is_ident_start, word_token, lex_number, punctuation, word_identifier, lex_word, next_token, lex,
}
use warp_sim.Asm.Numbers.{
  digit_value, parse_digits, parse_number, register_index, predicate_name, integer_value,
}
use warp_sim.Asm.Operands.{
  at, skip, expect, comma_step, general_register, dst_reg, src0_reg, integer_literal, find_param,
  integer_immediate, immediate, src1_reg_or_imm, param_ref, branch_step, sequence, steps_of,
  parse_operands,
}
use warp_sim.Asm.Assembler.{
  end_of_line, finish_line, member_of, entry_directive, param_directive, directive_line, find_label,
  emplace, has_label, take_label, take_guard, mnemonic, emit, resolve_one, resolve_branches,
  decode_all, encode_all, annotate_decoded, annotate, link, finish, instruction_line, statement,
  line_step, parse_lines, run_parser, assemble,
}
use warp_sim.Asm.Cfg.{build_cfg}
use warp_sim.Asm.BlockSet.{new_set, contains, insert, erase, intersect, same_set, cardinality}
use warp_sim.Asm.Dominators.{post_dominators, immediate_post_dominator}
use warp_sim.Asm.Annotate.{annotate_reconvergence}
use warp_sim.Isa.Opcode.{number, opcode_info_of, opcode_info_named}
use warp_sim.Isa.Instruction.{branch_target, make_branch_imm, validate}
use warp_sim.Isa.Encoding.{pack, encode, unpack, decode}
use warp_sim.Core.Types.{popcount}

abbrev no_parse : String → Option ℕ
no_parse text = none

abbrev no_text : ℕ → String
no_text bits = ""

abbrev source : String
source = ".entry k\n.param n\nld.param r1, [n]\n@p0 bra done\nadd r2, r1, -1\ndone: exit"

abbrev assembled : Program
assembled = record {
  entry = "k";
  params = "n" ∷ [];
  shared_bytes = 0;
  words = 3314684514411741184 ∷ 2846274964498350083 ∷ 72128521127854079 ∷ 2882303761517117440 ∷ [];
  labels = (3, "done") ∷ [];
}

assemble_source : assemble_call no_parse source ≡ some (ok assembled)
unfolding assemble_call is_ident_start word_token lex_number punctuation word_identifier lex_word
    next_token lex digit_value parse_digits parse_number register_index predicate_name integer_value
    at skip expect comma_step general_register dst_reg src0_reg integer_literal find_param
    integer_immediate immediate src1_reg_or_imm param_ref branch_step sequence steps_of
    parse_operands end_of_line finish_line member_of entry_directive param_directive directive_line
    find_label emplace has_label take_label take_guard mnemonic emit resolve_one resolve_branches
    decode_all encode_all annotate_decoded annotate link finish instruction_line statement line_step
    parse_lines run_parser assemble build_cfg new_set contains insert erase intersect same_set
    cardinality post_dominators immediate_post_dominator annotate_reconvergence number
    opcode_info_of opcode_info_named branch_target make_branch_imm validate pack encode unpack
    decode popcount
assemble_source = refl

assemble_call-accepted_example :
    ((text : String) × (disassemble_call no_text assembled ≡ some (ok text)))
    × ((decoded : List Instruction) × (decode_words 0 assembled.words ≡ ok decoded)
        × (length decoded ≡ program_length assembled)
        × ((k : ℕ) (i : Instruction) → get_elem? decoded k ≡ some i → ¬ Stray (length decoded) i))
assemble_call-accepted_example =
    assemble_call-accepted no_parse no_text source assembled assemble_source
