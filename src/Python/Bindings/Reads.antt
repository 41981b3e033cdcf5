-- ===== src/Python/Bindings/Reads.antt =====
-- `Device.read` of python/bindings/module.cpp: how a read ends, and what one that succeeds gives.
use warp_sim.Base.{
  ℕ, ◌+◌, ◌*◌, ◌%◌, ◌^◌, ◌<◌, ◌≤◌, ltb, leb, true, ◌≡◌, refl, ◌∙◌, ◌≢◌, ◌⊎◌, inl, inr, Bool-cases,
  String, Result, arith, length, get_or, ok, fail, false, subst,
}
use warp_sim.Core.Memory.{ByteMemory}
use warp_sim.Python.Report.{Raised, numpy_error, out_of_range, undefined_index}
use warp_sim.Python.Bindings.{Array, Numpy, copy_out, nbytes, read_items}
use warp_sim.Python.Bindings.Copies.{
  length-copy_out, get_or-copy_out, nbytes_lem, IsArray, Addresses,
}

-- NumPy makes no array of 2 ^ 63 bytes or more.
abbrev pub LimitsArrays : Numpy → Type 0
LimitsArrays numpy =
    (count itemsize : ℕ) → numpy.makes count itemsize ≡ true → count * itemsize < 2 ^ 63

-- The elements are those of the memory at the offset, all of them within it.
abbrev ReadFrom : ByteMemory → ℕ → ℕ → Array → Type 0
ReadFrom d offset count a =
    (a.size ≡ count)
    × IsArray a
    × (offset < length d.bytes)
    × (offset + length a.bytes ≤ length d.bytes)
    × ((j : ℕ) → j < length a.bytes → get_or a.bytes j 0 ≡ get_or d.bytes (offset + j) 0)

-- How a read ends: it raises; or it asks for no bytes at the end of the memory, where `bytes()` is indexed
-- at its size; or it gives what the memory holds.
abbrev pub Answered : ByteMemory → ℕ → ℕ → Result Array Raised → Type 0
Answered d offset count r =
    ((what : Raised) × (r ≡ fail what) × (what ≢ undefined_index))
    ⊎ (((offset ≡ length d.bytes) × (r ≡ fail undefined_index))
        ⊎ ((a : Array) × (r ≡ ok a) × ReadFrom d offset count a))

pub numpy_error-defined : numpy_error ≢ undefined_index
numpy_error-defined e = cc (e)

out_of_range-defined : (what : String) → out_of_range what ≢ undefined_index
out_of_range-defined what e = cc (e)

module _ (numpy : Numpy) (d : ByteMemory) (offset count itemsize : ℕ) (s : Addresses d offset) where
  items : Array
  items = record {
    itemsize = itemsize;
    size = count;
    bytes = copy_out (nbytes count itemsize) d.bytes offset;
  }

  items-ReadFrom :
      ltb (length d.bytes) ((offset + nbytes count itemsize) % 2 ^ 64) ≡ false
      → offset < length d.bytes
      → count * itemsize < 2 ^ 63
      → ReadFrom d offset count items
  unfolding items
  items-ReadFrom fits below small =
      let full : length items.bytes ≡ nbytes count itemsize =
        length-copy_out (nbytes count itemsize) d.bytes offset in
      let exact : nbytes count itemsize ≡ count * itemsize = nbytes_lem count itemsize small in
      (
        refl,
        record { sized = full ∙ exact; small = small },
        below,
        ground (arith, fits, full, exact, small, s.offset_bound),
        λ j k. get_or-copy_out (nbytes count itemsize) d.bytes offset j (subst (λ n. j < n) full k),
      )

  at_end :
      ltb (length d.bytes) ((offset + nbytes count itemsize) % 2 ^ 64) ≡ false
      → length d.bytes ≤ offset
      → count * itemsize < 2 ^ 63
      → offset ≡ length d.bytes
  at_end fits beyond small =
      let exact : nbytes count itemsize ≡ count * itemsize = nbytes_lem count itemsize small in
      ground (arith, fits, beyond, exact, small, s.offset_bound)

  -- A read stays within the memory, though its test is of a sum and a product that wrap.
  pub read_items-Answered :
      LimitsArrays numpy → Answered d offset count (read_items numpy d offset count itemsize)
  unfolding read_items items
  read_items-Answered limits =
      elim (Bool-cases (ltb (length d.bytes) ((offset + nbytes count itemsize) % 2 ^ 64))) [
        | inl out ↦ inl (
          out_of_range "read past the end of global memory",
          rw (read_items, out) refl,
          out_of_range-defined _,
        )
        | inr fits ↦ elim (Bool-cases (numpy.makes count itemsize)) [
          | inr unmade ↦ inl (numpy_error, rw (read_items, fits, unmade) refl, numpy_error-defined)
          | inl made ↦ elim (Bool-cases (leb (length d.bytes) offset)) [
            | inl end ↦ inr (
                inl (
                  at_end fits (ground (arith, end)) (limits count itemsize made),
                  rw (read_items, fits, made, end) refl,
                ))
            | inr index ↦ inr (
                inr (
                  items,
                  rw (read_items, fits, made, index) refl,
                  items-ReadFrom fits (ground (arith, index)) (limits count itemsize made),
                ))
          ]
        ]
      ]
