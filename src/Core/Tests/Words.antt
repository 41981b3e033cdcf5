-- ===== src/Core/Tests/Words.antt =====
-- Words, bytes and the addresses of a warp.
use warp_sim.Base.{
  ℕ, ◌*◌, ◌%◌, ◌^◌, true, ◌≡◌, refl, arith, not, if◌then◌else◌, ◌/◌, ◌<◌, ◌≤◌, ◌⊎◌, ◌==◌, ◌&&◌,
  List, [], ◌∷◌, ok, length,
}
use warp_sim.Isa.Opcode.{Opcode}
use warp_sim.Core.Registers.{fresh, read, read_pred}
use warp_sim.Core.Memory.{ByteMemory, zeroed, check, word_at, put_word, load32, store32}
use warp_sim.Core.Types.{has_lane}
use warp_sim.Core.Alu.{
  execute_alu, evaluate, fetch, is_setp, is_setp_f32, compare_f32, compare_s32, wrap_add, wrap_mul,
  s32_div, s32_rem, sra,
}
use warp_sim.Core.Alu.Lanes.{execute_alu_lane}
use warp_sim.Core.Alu.Division.{s32_div-s32_rem}
use warp_sim.Core.Alu.Shifts.{floor_div, sra-floor_div}
use warp_sim.Core.Signed.{as_s32, from_s32}
use warp_sim.Core.Memory.Bytes.{load32-store32}
use warp_sim.Core.Memory.Analysis.{distinct_segments, bank_conflict_degree}
use warp_sim.Core.Memory.Sets.{Lists}
use warp_sim.Core.Memory.Segments.{distinct_segments_lem}
use warp_sim.Core.Memory.Banks.{in_bank, bank_conflict_degree_lem}
use warp_sim.Core.Tests.{no_floats, add_instruction, context}

execute_alu_lane_example :
    (read (execute_alu no_floats add_instruction context 12 fresh) 2 1 ≡ (
      if has_lane 12 2 && not (is_setp Opcode.add) && true
      then evaluate no_floats add_instruction Opcode.add
          (fetch add_instruction fresh 2)
          (read fresh 2 1)
          2
          context
      else read fresh 2 1))
    × (read_pred (execute_alu no_floats add_instruction context 12 fresh) 2 1 ≡ (
        if has_lane 12 2 && is_setp Opcode.add && true
        then (if is_setp_f32 Opcode.add
            then compare_f32 no_floats Opcode.add
                (fetch add_instruction fresh 2).a
                (fetch add_instruction fresh 2).b
            else compare_s32 Opcode.add
                (fetch add_instruction fresh 2).a
                (fetch add_instruction fresh 2).b)
        else read_pred fresh 2 1))
execute_alu_lane_example =
    execute_alu_lane no_floats add_instruction context 12 fresh 2 1 1 (omega arith)

-- The bytes of the word 0x01020304 at address 4 of 8 bytes.
abbrev stored : ByteMemory
stored = record { bytes = 0 ∷ 0 ∷ 0 ∷ 0 ∷ 4 ∷ 3 ∷ 2 ∷ 1 ∷ [] }

store_word : store32 (zeroed 8) 4 16909060 0 ≡ ok stored
unfolding store32 check zeroed put_word
store_word = refl

load32-store32_example :
    (load32 stored 4 1 ≡ (if 4 == 4 then ok 16909060 else load32 (zeroed 8) 4 1))
    × (length stored.bytes ≡ length (zeroed 8).bytes)
load32-store32_example = load32-store32 (zeroed 8) stored 4 4 16909060 0 1 store_word (omega arith)

load_word : load32 stored 4 0 ≡ ok 16909060
unfolding load32 check word_at
load_word = refl

-- Lane l accesses the address 64 * l: two lanes to a segment.
abbrev strided : ℕ → ℕ
strided lane = 64 * lane

distinct_segments_lem_example :
    (segments : List ℕ) × Lists 32 (λ lane. strided lane / 128) (has_lane 15) segments
    × (distinct_segments strided 15 ≡ length segments)
distinct_segments_lem_example = distinct_segments_lem strided 15

bank_conflict_degree_lem_example :
    (banks : ℕ → List ℕ) × ((b : ℕ) → Lists 32 strided (in_bank strided 15 b) (banks b))
    × ((b : ℕ) → length (banks b) ≤ bank_conflict_degree strided 15)
    × ((bank_conflict_degree strided 15 ≡ 0)
        ⊎ ((b : ℕ) × (b < 32) × (length (banks b) ≡ bank_conflict_degree strided 15)))
bank_conflict_degree_lem_example = bank_conflict_degree_lem strided 15

-- -7 divided by 2.
s32_div-s32_rem_example :
    wrap_add (wrap_mul (s32_div 4294967289 2) 2) (s32_rem 4294967289 2) ≡ 4294967289
s32_div-s32_rem_example = s32_div-s32_rem 4294967289 2 (omega arith) (omega arith) (omega arith)

sra-floor_div_example : sra 4294967289 33 ≡ from_s32 (floor_div (as_s32 4294967289) (2 ^ (33 % 32)))
sra-floor_div_example = sra-floor_div 4294967289 33 (omega arith)
