-- ===== src/Python/Bindings/Sessions.antt =====
-- The calls on a `Device` of python/bindings/module.cpp, one after the other.
use warp_sim.Base.{
  length-replicate, get_or-replicate, fail, Option, none, some, ℕ, String, ◌<◌, ◌^◌, ◌≡◌, refl, sym,
  ◌∙◌, arith, List, length, ok, subst, inl, ◌-◌,
}
use warp_sim.Asm.Program.{Program}
use warp_sim.Core.Alu.{Binary32}
use warp_sim.Core.Memory.{ByteMemory, zeroed}
use warp_sim.Core.Memory.Bytes.{IsBytes}
use warp_sim.Core.Device.Memories.{launch-memory}
use warp_sim.Python.Report.{numpy_error}
use warp_sim.Python.Bindings.{
  Array, Numpy, new_device, write, read_items, read, launch_call, to_dim,
}
use warp_sim.Python.Bindings.Copies.{IsArray, Addresses, Overwritten, write-Overwritten}
use warp_sim.Python.Bindings.Reads.{
  LimitsArrays, Answered, numpy_error-defined, read_items-Answered,
}

-- A call on a device, from the memory before to the one after. A call of `write` that raises and one of
-- `read` leave it as it is.
pub data Called : ByteMemory → ByteMemory → Type 0 where
  writes :
      {d d' : ByteMemory} (offset : ℕ) (a : Array)
      → offset < 2 ^ 32
      → IsArray a
      → IsBytes a.bytes
      → write d offset a ≡ ok d'
      → Called d d'
  launches :
      {d : ByteMemory} (fp : Binary32) (fuel : ℕ) (program : Program) (grid block : ℕ × ℕ)
      (params : List ℕ)
      → Called d (launch_call fp fuel d program grid block params).0

-- The memories of a device that was made with so many bytes.
pub data Reached (global_bytes : ℕ) : ByteMemory → Type 0 where
  made : Reached global_bytes (new_device global_bytes)
  called : {d d' : ByteMemory} → Reached global_bytes d → Called d d' → Reached global_bytes d'

Overwritten-IsBytes :
    (before : List ℕ) (offset : ℕ) (source : List ℕ) (after : List ℕ)
    → IsBytes before
    → IsBytes source
    → Overwritten before offset source after
    → IsBytes after
Overwritten-IsBytes before offset source after b c (kept, cells) j =
    ground (arith, cells j, b j, c (j - offset))

-- As many bytes as the device was made with, and each of them below 2 ^ 8.
abbrev pub Sound : ℕ → ByteMemory → Type 0
Sound global_bytes d = (length d.bytes ≡ global_bytes) × IsBytes d.bytes

new_device-Sound : (n : ℕ) → Sound n (new_device n)
unfolding new_device zeroed
new_device-Sound n = (length-replicate n 0, λ j. omega (arith, get_or-replicate {A = ℕ} n j 0))

addresses :
    {n : ℕ} (d : ByteMemory) (offset : ℕ)
    → n < 2 ^ 63
    → offset < 2 ^ 32
    → Sound n d
    → Addresses d offset
addresses d offset small bound sound = record {
  host = subst (λ k. k < 2 ^ 63) (sym sound.0) small;
  offset_bound = bound;
}

Reached-Sound : (n : ℕ) (d : ByteMemory) → n < 2 ^ 63 → Reached n d → Sound n d
unfolding launch_call
Reached-Sound n d small made = new_device-Sound n
Reached-Sound n e small (called {d = d} r (writes offset a bound array bytes h)) =
    let sound = Reached-Sound n d small r in
    let over = write-Overwritten d offset a array (addresses d offset small bound sound) h in
    (over.0 ∙ sound.0, Overwritten-IsBytes d.bytes offset a.bytes _ sound.1 bytes over)
Reached-Sound n e small (called {d = d} r (launches fp fuel program grid block params)) =
    let sound = Reached-Sound n d small r in
    let (size, cells, unchanged) =
      launch-memory fp fuel program (to_dim grid) (to_dim block) params d sound.1 in
    (size ∙ sound.0, cells)

read-Answered :
    (numpy : Numpy) (d : ByteMemory) (offset count : ℕ) (dtype : String)
    → LimitsArrays numpy
    → Addresses d offset
    → Answered d offset count (read numpy d offset count dtype)
unfolding read
read-Answered numpy d offset count dtype limits s = go (numpy.dtype dtype)
  where
    go :
        (o : Option ℕ)
        → Answered d offset count (elim o [
          | none ↦ fail numpy_error
          | some itemsize ↦ read_items numpy d offset count itemsize
        ])
    go none = inl (numpy_error, refl, numpy_error-defined)
    go (some itemsize) = read_items-Answered numpy d offset count itemsize s limits

-- After any sequence of launches, whatever they return, and of writes of NumPy's arrays that succeed, the
-- memory of a device that was made with n < 2 ^ 63 bytes has n bytes, each below 2 ^ 8; and if NumPy
-- makes no array of 2 ^ 63 bytes or more, a `read` from it raises, or gives an array of as many elements
-- as were asked for whose bytes are those of the memory at the offset, all of them within the memory, or
-- indexes `bytes()` at its size, which is undefined, and does so only at the offset n.
pub session-reads :
    (numpy : Numpy) (n : ℕ) (d : ByteMemory) (offset count : ℕ) (dtype : String)
    → LimitsArrays numpy
    → n < 2 ^ 63
    → offset < 2 ^ 32
    → Reached n d
    → Sound n d × Answered d offset count (read numpy d offset count dtype)
session-reads numpy n d offset count dtype limits small bound r =
    let sound = Reached-Sound n d small r in
    (sound, read-Answered numpy d offset count dtype limits (addresses d offset small bound sound))
