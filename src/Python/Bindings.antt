-- ===== src/Python/Bindings.antt =====
-- The functions and the classes `Program` and `Device` of python/bindings/module.cpp. NumPy's arrays and
-- dtypes are not of this repository: what the code uses of them is the record Numpy.
pub mod Copies
pub mod Reads
pub mod Sessions
pub mod Programs
use Prim.Native.String
use warp_sim.Base.{
  ℕ, zero, suc, String, ◌+◌, ◌*◌, ◌%◌, ◌^◌, ltb, leb, not, Bool, Option, none, some, List, [], ◌∷◌,
  length, get_or, set, Result, ok, fail, fail_if, ◌>>◌, ◌>>=◌,
}
use warp_sim.Asm.Program.{Program}
use warp_sim.Asm.Assembler.{assemble}
use warp_sim.Asm.Disassembler.{disassemble}
use warp_sim.Core.Types.{Dim2}
use warp_sim.Core.Alu.{Binary32}
use warp_sim.Core.Memory.{ByteMemory, zeroed}
use warp_sim.Core.Device.Launch.{launch}
use warp_sim.Python.Report.{
  Dict, Raised, sim_fault, assembly_error, runtime_error, out_of_range, numpy_error,
  undefined_index, stats_to_dict,
}

-- An array of NumPy: the size of an element, the number of elements, and their bytes in C order.
pub record Array : Type 0 where
  pub itemsize : ℕ
  pub size : ℕ
  pub bytes : List ℕ

-- `py::dtype(text)` with its element size, if the text names one; whether `py::array(dt, count)` is made
-- for a count and an element size.
pub record Numpy : Type 0 where
  pub dtype : String → Option ℕ
  pub makes : ℕ → ℕ → Bool

-- `Program(entry, params, shared_bytes, words)`
unfoldable pub new_program : String → List String → ℕ → List ℕ → Program
new_program entry params shared_bytes words = record {
  entry = entry;
  params = params;
  shared_bytes = shared_bytes;
  words = words;
  labels = [];
}

unfoldable pub to_dim : ℕ × ℕ → Dim2
to_dim (x, y) = record { x = x; y = y }

-- `std::memcpy` of n bytes into the memory, from an offset on.
unfoldable pub copy_in : ℕ → List ℕ → ℕ → List ℕ → List ℕ
copy_in zero memory offset source = memory
copy_in (suc n) memory offset source =
    set (copy_in n memory offset source) (offset + n) (get_or source n 0)

-- `std::memcpy` of n bytes out of the memory.
unfoldable pub copy_out : ℕ → List ℕ → ℕ → List ℕ
copy_out zero memory offset = []
copy_out (suc n) memory offset = get_or memory offset 0 ∷ copy_out n memory (offset + 1)

unfoldable pub nbytes : ℕ → ℕ → ℕ
nbytes count itemsize = count * itemsize % 2 ^ 64

-- `Device(global_bytes)`
unfoldable pub new_device : ℕ → ByteMemory
new_device global_bytes = zeroed global_bytes

-- `Device.write`. The copy is to `&bytes()[offset]`, which needs an offset below the size.
unfoldable pub write : ByteMemory → ℕ → Array → Result ByteMemory Raised
write d offset a = do
  fail_if (ltb (length d.bytes) ((offset + nbytes a.size a.itemsize) % 2 ^ 64))
      (out_of_range "write past the end of global memory")
  fail_if (leb (length d.bytes) offset) undefined_index
  ok (record d { bytes = copy_in (nbytes a.size a.itemsize) d.bytes offset a.bytes })

module _ (numpy : Numpy) where
  -- `Device.read`, after the dtype. The copy is from `&bytes()[offset]`, as in `write`.
  unfoldable pub read_items : ByteMemory → ℕ → ℕ → ℕ → Result Array Raised
  read_items d offset count itemsize = do
    fail_if (ltb (length d.bytes) ((offset + nbytes count itemsize) % 2 ^ 64))
        (out_of_range "read past the end of global memory")
    fail_if (not (numpy.makes count itemsize)) numpy_error
    fail_if (leb (length d.bytes) offset) undefined_index
    ok (record {
      itemsize = itemsize;
      size = count;
      bytes = copy_out (nbytes count itemsize) d.bytes offset;
    })

  -- `Device.read`
  unfoldable pub read : ByteMemory → ℕ → ℕ → String → Result Array Raised
  read d offset count dtype = elim (numpy.dtype dtype) [
    | none ↦ fail numpy_error
    | some itemsize ↦ read_items d offset count itemsize
  ]

-- `Device.launch`: the memory that it leaves, and the dictionary or what it raises; no answer if the
-- fuel ran out.
unfoldable pub launch_call :
    Binary32
    → ℕ
    → ByteMemory
    → Program
    → ℕ × ℕ
    → ℕ × ℕ
    → List ℕ
    → ByteMemory × Option (Result Dict Raised)
launch_call fp fuel d program grid block params =
    let l = launch fp fuel program (to_dim grid) (to_dim block) params d in
    (
      l.memory,
      elim l.result [
        | none ↦ none
        | some r ↦ elim r [
          | fail f ↦ some (fail (sim_fault f))
          | ok s ↦ some (ok (stats_to_dict s))
        ]
      ],
    )

-- `assemble`
unfoldable pub assemble_call : (String → Option ℕ) → String → Option (Result Program Raised)
assemble_call parse_float source = elim (assemble parse_float source) [
  | none ↦ none
  | some r ↦ elim r [ fail e ↦ some (fail (assembly_error e)) | ok p ↦ some (ok p) ]
]

-- `Program.disassemble`
unfoldable pub disassemble_call : (ℕ → String) → Program → Option (Result String Raised)
disassemble_call float_text p = elim (disassemble float_text p) [
  | none ↦ none
  | some r ↦ elim r [ fail e ↦ some (fail (runtime_error e.message)) | ok t ↦ some (ok t) ]
]

-- `Program.__len__`
unfoldable pub program_length : Program → ℕ
program_length p = length p.words
