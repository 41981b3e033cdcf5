-- ===== src/Python/Report.antt =====
-- What the bindings (python/bindings/module.cpp) report: `Fault::describe` of src/core/warp.cpp, the two
-- exceptions with their attributes, and the dictionary of a launch.
use Prim.Native.String.{◌++◌ as ◌+++◌}
use warp_sim.Base.{ℕ, zero, suc, String, ◌*◌, ◌/◌, ◌%◌, ◌^◌, List, [], ◌∷◌}
use warp_sim.Asm.Lexer.{AssemblyError}
use warp_sim.Asm.Printing.{decimal_text, digit_char}
use warp_sim.Core.Warp.{Fault}
use warp_sim.Core.Device.{LaunchStats}
use warp_sim.Instr.Timing.{CostBreakdown, default_model, estimate}

-- The loop over `shift` in `Fault::describe`: the digits at 4 * (rounds - 1), …, 4, 0.
unfoldable pub hex_digits : ℕ → ℕ → String
hex_digits zero address = ""
hex_digits (suc rounds) address =
    String.◌∷◌ (digit_char (address / 2 ^ (4 * rounds) % 16)) (hex_digits rounds address)

unfoldable pub describe : Fault → String
describe f =
    f.message
    +++ (" (block "
        +++ (decimal_text f.block
            +++ (", warp "
                +++ (decimal_text f.warp
                    +++ (", lane "
                        +++ (decimal_text f.lane
                            +++ (", pc "
                                +++ (decimal_text f.pc
                                    +++ (", address 0x"
                                        +++ (hex_digits 8 f.address +++ ")"))))))))))

-- `AssemblyErrorPy::what`
unfoldable pub assembly_what : AssemblyError → String
assembly_what e = decimal_text e.line +++ (":" +++ (decimal_text e.column +++ (": " +++ e.message)))

-- A value of a Python dictionary or an attribute.
pub data Value : Type 0 where
  whole_number : ℕ → Value
  text : String → Value
  numbers : List ℕ → Value
  costs : List (String × ℕ) → Value

abbrev pub Dict : Type 0
Dict = List (String × Value)

-- What a call raises: `SimFaultError`, `AssemblyErrorPy`, `std::runtime_error`, `std::out_of_range`, or an
-- error of NumPy's own. `undefined_index` is no exception: the code indexes `bytes()` at its size or past
-- it, which C++ leaves undefined, and the model stops there.
pub data Raised : Type 0 where
  sim_fault : Fault → Raised
  assembly_error : AssemblyError → Raised
  runtime_error : String → Raised
  out_of_range : String → Raised
  numpy_error : Raised
  undefined_index : Raised

-- The exception translator: the message, and the attributes that it sets.
unfoldable pub translated : Raised → String × Dict
translated (sim_fault f) = (
  describe f,
  ("message", text f.message)
      ∷ ("block", whole_number f.block)
      ∷ ("warp", whole_number f.warp)
      ∷ ("lane", whole_number f.lane)
      ∷ ("pc", whole_number f.pc)
      ∷ ("address", whole_number f.address)
      ∷ [],
)
translated (assembly_error e) = (
  assembly_what e,
  ("line", whole_number e.line)
      ∷ ("column", whole_number e.column)
      ∷ ("message", text e.message)
      ∷ [],
)
translated (runtime_error what) = (what, [])
translated (out_of_range what) = (what, [])
translated numpy_error = ("", [])
translated undefined_index = ("", [])

unfoldable pub cost_dict : CostBreakdown → List (String × ℕ)
cost_dict c =
    ("issue", c.issue) ∷ ("global", c.global) ∷ ("shared", c.shared) ∷ ("total", c.total) ∷ []

unfoldable pub stats_to_dict : LaunchStats → Dict
stats_to_dict s =
    ("instructions_issued", whole_number s.instructions_issued)
    ∷ ("alu_instructions", whole_number s.alu_instructions)
    ∷ ("memory_instructions", whole_number s.memory_instructions)
    ∷ ("control_instructions", whole_number s.control_instructions)
    ∷ ("barrier_instructions", whole_number s.barrier_instructions)
    ∷ ("reconvergence_events", whole_number s.reconvergence_events)
    ∷ ("active_lane_sum", whole_number s.active_lane_sum)
    ∷ ("lanes_launched", whole_number s.lanes_launched)
    ∷ ("active_lane_histogram", numbers s.active_lane_histogram)
    ∷ ("cost", costs (cost_dict (estimate s default_model)))
    ∷ ("divergent_branches", whole_number s.divergent_branches)
    ∷ ("barriers_completed", whole_number s.barriers_completed)
    ∷ ("blocks_executed", whole_number s.blocks_executed)
    ∷ ("warps_launched", whole_number s.warps_launched)
    ∷ ("global_loads", whole_number s.memory.global_loads)
    ∷ ("global_stores", whole_number s.memory.global_stores)
    ∷ ("global_lane_accesses", whole_number s.memory.global_lane_accesses)
    ∷ ("global_segments", whole_number s.memory.global_segments)
    ∷ ("shared_accesses", whole_number s.memory.shared_accesses)
    ∷ ("shared_lane_accesses", whole_number s.memory.shared_lane_accesses)
    ∷ ("shared_wavefronts", whole_number s.memory.shared_wavefronts)
    ∷ ("shared_conflicted_accesses", whole_number s.memory.shared_conflicted_accesses)
    ∷ []

-- `COST_WEIGHTS`
unfoldable pub cost_weights : Dict
cost_weights =
    ("issue_slot", whole_number default_model.issue_slot)
    ∷ ("global_segment", whole_number default_model.global_segment)
    ∷ ("shared_wavefront", whole_number default_model.shared_wavefront)
    ∷ []
