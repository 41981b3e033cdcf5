-- ===== src/Python/Tests.antt =====
-- The calls of a `Device` on a memory of eight bytes and an array of one element.
mod Sources
use warp_sim.Base.{zero, suc, ◌*◌, ◌^◌, ltb, ltb→lt, ◌≡◌, refl, ◌⊎◌, arith, some, [], ◌∷◌, ok}
use warp_sim.Asm.Program.{Program}
use warp_sim.Core.Memory.{ByteMemory, zeroed}
use warp_sim.Core.Memory.Bytes.{IsBytes}
use warp_sim.Core.Tests.{no_floats}
use warp_sim.Python.Bindings.{
  Array, Numpy, new_program, new_device, copy_in, nbytes, write, read, launch_call,
}
use warp_sim.Python.Bindings.Copies.{
  IsArray, Addresses, OutOfRange, EmptyAtEnd, CopiedBack, write-read,
}
use warp_sim.Python.Bindings.Reads.{LimitsArrays, Answered}
use warp_sim.Python.Bindings.Sessions.{
  writes, launches, Reached, made, called, Sound, session-reads,
}

abbrev numpy : Numpy
numpy = record { dtype = λ text. some 4; makes = λ count itemsize. ltb (count * itemsize) (2 ^ 63) }

abbrev word : Array
word = record { itemsize = 4; size = 1; bytes = 1 ∷ 2 ∷ 3 ∷ 4 ∷ [] }

word-IsArray : IsArray word
word-IsArray = record { sized = refl; small = omega arith }

abbrev device : ByteMemory
device = new_device 8

device-Addresses : Addresses device 4
unfolding new_device zeroed
device-Addresses = record { host = omega arith; offset_bound = omega arith }

write-read_example :
    OutOfRange numpy device 4 word
    ⊎ (EmptyAtEnd numpy device 4 word ⊎ CopiedBack numpy device 4 word)
write-read_example = write-read numpy device 4 word word-IsArray device-Addresses refl

abbrev written : ByteMemory
written = record { bytes = 0 ∷ 0 ∷ 0 ∷ 0 ∷ 1 ∷ 2 ∷ 3 ∷ 4 ∷ [] }

write_word : write device 4 word ≡ ok written
unfolding write new_device zeroed copy_in nbytes
write_word = refl

word-IsBytes : IsBytes word.bytes
word-IsBytes zero = omega arith
word-IsBytes (suc zero) = omega arith
word-IsBytes (suc (suc zero)) = omega arith
word-IsBytes (suc (suc (suc zero))) = omega arith
word-IsBytes (suc (suc (suc (suc j)))) = omega arith

numpy-LimitsArrays : LimitsArrays numpy
numpy-LimitsArrays count itemsize h = ltb→lt (count * itemsize) (2 ^ 63) h

abbrev exit_program : Program
exit_program = new_program "main" [] 0 (2882303761517117440 ∷ [])

abbrev after_launch : ByteMemory
after_launch = (launch_call no_floats 1 written exit_program (1, 1) (3, 1) []).0

session : Reached 8 after_launch
session =
    called (called made (writes 4 word (omega arith) word-IsArray word-IsBytes write_word))
      (launches no_floats 1 exit_program (1, 1) (3, 1) [])

session-reads_example :
    Sound 8 after_launch × Answered after_launch 4 1 (read numpy after_launch 4 1 "uint32")
session-reads_example =
    session-reads numpy 8 after_launch 4 1 "uint32" numpy-LimitsArrays (omega arith) (omega arith)
      session
