-- ===== src/Python/Bindings/Copies.antt =====
-- `Device.write` and `Device.read` of python/bindings/module.cpp: what the two copies change and return.
use warp_sim.Base.{
  ℕ, zero, suc, ◌+◌, ◌-◌, ◌*◌, ◌%◌, ◌^◌, ◌<◌, ◌≤◌, ltb, leb, fail_if, ◌>>◌, inl, inr, ◌&&◌,
  if◌then◌else◌, true, ◌≡◌, refl, sym, ap, ◌∙◌, arith, List, [], ◌∷◌, length, get_or, get_or-set,
  length-set, ok, fail, Bool-cases, Bool, false, subst, ltb→lt, ◌⊎◌,
}
use warp_sim.Core.Memory.{ByteMemory}
use warp_sim.Python.Report.{Raised, out_of_range, numpy_error, undefined_index}
use warp_sim.Python.Bindings.{Array, Numpy, copy_in, copy_out, nbytes, write, read_items}

length-copy_in :
    (n : ℕ) (m : List ℕ) (offset : ℕ) (source : List ℕ)
    → length (copy_in n m offset source) ≡ length m
unfolding copy_in
length-copy_in zero m offset source = refl
length-copy_in (suc n) m offset source = simp (length-set, length-copy_in n m offset source)

get_or-copy_in :
    (n : ℕ) (m : List ℕ) (offset : ℕ) (source : List ℕ) (j : ℕ)
    → offset + n ≤ length m
    → get_or (copy_in n m offset source) j 0
      ≡ (if leb offset j && ltb j (offset + n) then get_or source (j - offset) 0 else get_or m j 0)
unfolding copy_in
get_or-copy_in zero m offset source j h = ground arith
get_or-copy_in (suc n) m offset source j h =
    rw (get_or-set (copy_in n m offset source) (offset + n) j (get_or source n 0) 0) (
      ground
        (arith, length-copy_in n m offset source, get_or-copy_in n m offset source j (omega arith)))

pub length-copy_out : (n : ℕ) (m : List ℕ) (offset : ℕ) → length (copy_out n m offset) ≡ n
unfolding copy_out
length-copy_out zero m offset = refl
length-copy_out (suc n) m offset = ap suc (length-copy_out n m (offset + 1))

pub get_or-copy_out :
    (n : ℕ) (m : List ℕ) (offset j : ℕ)
    → j < n
    → get_or (copy_out n m offset) j 0 ≡ get_or m (offset + j) 0
unfolding copy_out
get_or-copy_out zero m offset j h = omega (arith, h)
get_or-copy_out (suc n) m offset zero h = ap (λ k. get_or m k 0) (omega arith)
get_or-copy_out (suc n) m offset (suc j) h =
    get_or-copy_out n m (offset + 1) j (omega arith) ∙ ap (λ k. get_or m k 0) (omega arith)

-- Lists of one length with the same cells.
get_or-ext :
    (xs ys : List ℕ)
    → length xs ≡ length ys
    → ((j : ℕ) → j < length xs → get_or xs j 0 ≡ get_or ys j 0)
    → xs ≡ ys
get_or-ext [] [] e cells = refl
get_or-ext [] (y ∷ ys) e cells = absurd (omega (arith, e))
get_or-ext (x ∷ xs) [] e cells = absurd (omega (arith, e))
get_or-ext (x ∷ xs) (y ∷ ys) e cells =
    rw
      (
        cells 0 (omega arith),
        get_or-ext xs ys (omega (arith, e)) λ j h. cells (suc j) (omega arith),
      )
      refl

copy_out-copy_in :
    (m : List ℕ) (offset : ℕ) (source : List ℕ)
    → offset + length source ≤ length m
    → copy_out (length source) (copy_in (length source) m offset source) offset ≡ source
copy_out-copy_in m offset source h =
    get_or-ext _ source (length-copy_out (length source) _ offset) λ j k.
      let small : j < length source =
        subst (λ n. j < n)
          (length-copy_out (length source) (copy_in (length source) m offset source) offset) k in
      get_or-copy_out (length source) _ offset j small
      ∙ (get_or-copy_in (length source) m offset source (offset + j) h ∙ ground (arith, small))

-- The facts of NumPy that the code relies on: an array's bytes are as many as its elements need, and
-- no array has 2 ^ 63 bytes.
pub record IsArray (a : Array) : Type 0 where
  pub sized : length a.bytes ≡ a.size * a.itemsize
  pub small : a.size * a.itemsize < 2 ^ 63

-- A device is made in a host's memory, and an offset is a `std::uint32_t`.
pub record Addresses (d : ByteMemory) (offset : ℕ) : Type 0 where
  pub host : length d.bytes < 2 ^ 63
  pub offset_bound : offset < 2 ^ 32

-- The bytes of a range of the memory are those of a list, the others are as before.
abbrev pub Overwritten : List ℕ → ℕ → List ℕ → List ℕ → Type 0
Overwritten before offset source after =
    (length after ≡ length before)
    × ((j : ℕ)
        → get_or after j 0 ≡ (
            if leb offset j && ltb j (offset + length source)
            then get_or source (j - offset) 0
            else get_or before j 0))

pub nbytes_lem :
    (count itemsize : ℕ) → count * itemsize < 2 ^ 63 → nbytes count itemsize ≡ count * itemsize
unfolding nbytes
nbytes_lem count itemsize h = omega (arith, h)

nbytes-IsArray : (a : Array) → IsArray a → nbytes a.size a.itemsize ≡ length a.bytes
nbytes-IsArray a n = nbytes_lem a.size a.itemsize n.small ∙ sym n.sized

no_wrap :
    (d : ByteMemory) (offset n : ℕ)
    → Addresses d offset
    → n < 2 ^ 63
    → (offset + n) % 2 ^ 64 ≡ offset + n
no_wrap d offset n s h = omega (arith, s.offset_bound, h)

-- The outcome of three guards.
guarded :
    {A : Type 0} (b c e : Bool) (x y z : Raised) (a : A)
    → (do fail_if b x; fail_if c y; fail_if e z; ok a)
      ≡ (if b then fail x else if c then fail y else if e then fail z else ok a)
guarded true c e x y z a = refl
guarded false true e x y z a = refl
guarded false false true x y z a = refl
guarded false false false x y z a = refl

guarded_twice :
    {A : Type 0} (b e : Bool) (x z : Raised) (a : A)
    → (do fail_if b x; fail_if e z; ok a) ≡ (if b then fail x else if e then fail z else ok a)
guarded_twice true e x z a = refl
guarded_twice false true x z a = refl
guarded_twice false false x z a = refl

guards-eq-ok :
    {A : Type 0} (b e : Bool) (x z : Raised) (v : A) {a : A}
    → (if b then fail x else if e then fail z else ok v) ≡ ok a
    → (b ≡ false) × (e ≡ false) × (v ≡ a)
guards-eq-ok true e x z v h = absurd (cc (h))
guards-eq-ok false true x z v h = absurd (cc (h))
guards-eq-ok false false x z v h = (refl, refl, cc (h))

-- With the facts of NumPy and of the host, `write` raises exactly if the bytes of the array do not fit
-- behind the offset; otherwise it copies them, if the offset is an index.
write-eq :
    (d : ByteMemory) (offset : ℕ) (a : Array)
    → IsArray a
    → Addresses d offset
    → write d offset a ≡ (
        if ltb (length d.bytes) (offset + length a.bytes)
        then fail (out_of_range "write past the end of global memory")
        else if leb (length d.bytes) offset
        then fail undefined_index
        else ok (record d { bytes = copy_in (length a.bytes) d.bytes offset a.bytes }))
unfolding write
write-eq d offset a n s =
    rw (nbytes-IsArray a n, no_wrap d offset (length a.bytes) s (omega (arith, n.sized, n.small)))
      (guarded_twice (ltb (length d.bytes) (offset + length a.bytes)) (leb (length d.bytes) offset)
        _ _ _)

read-eq :
    (numpy : Numpy) (d : ByteMemory) (offset : ℕ) (a : Array)
    → IsArray a
    → Addresses d offset
    → numpy.makes a.size a.itemsize ≡ true
    → read_items numpy d offset a.size a.itemsize ≡ (
        if ltb (length d.bytes) (offset + length a.bytes)
        then fail (out_of_range "read past the end of global memory")
        else if leb (length d.bytes) offset
        then fail undefined_index
        else ok (record a { bytes = copy_out (length a.bytes) d.bytes offset }))
unfolding read_items
read-eq numpy d offset a n s made =
    rw
      (
        nbytes-IsArray a n,
        no_wrap d offset (length a.bytes) s (omega (arith, n.sized, n.small)),
        made,
      )
      (guarded (ltb (length d.bytes) (offset + length a.bytes)) false (leb (length d.bytes) offset)
        _ numpy_error _ _)

-- The three outcomes of a write of an array at an offset and a read of as many elements there.
abbrev pub OutOfRange : Numpy → ByteMemory → ℕ → Array → Type 0
OutOfRange numpy d offset a =
    (length d.bytes < offset + length a.bytes)
    × (write d offset a ≡ fail (out_of_range "write past the end of global memory"))
    × (read_items numpy d offset a.size a.itemsize
        ≡ fail (out_of_range "read past the end of global memory"))

abbrev pub EmptyAtEnd : Numpy → ByteMemory → ℕ → Array → Type 0
EmptyAtEnd numpy d offset a =
    (offset ≡ length d.bytes)
    × (length a.bytes ≡ 0)
    × (write d offset a ≡ fail undefined_index)
    × (read_items numpy d offset a.size a.itemsize ≡ fail undefined_index)

abbrev pub CopiedBack : Numpy → ByteMemory → ℕ → Array → Type 0
CopiedBack numpy d offset a =
    (offset < length d.bytes)
    × (offset + length a.bytes ≤ length d.bytes)
    × ((d' : ByteMemory) × (write d offset a ≡ ok d')
        × Overwritten d.bytes offset a.bytes d'.bytes
        × (read_items numpy d' offset a.size a.itemsize ≡ ok a))

module _ (numpy : Numpy) (d : ByteMemory) (offset : ℕ) (a : Array) (n : IsArray a)
    (s : Addresses d offset) (made : numpy.makes a.size a.itemsize ≡ true) where
  copied_back :
      ltb (length d.bytes) (offset + length a.bytes) ≡ false
      → leb (length d.bytes) offset ≡ false
      → CopiedBack numpy d offset a
  copied_back fits index =
      let room : offset + length a.bytes ≤ length d.bytes = ground (arith, fits) in
      let copied : List ℕ = copy_in (length a.bytes) d.bytes offset a.bytes in
      let kept : length copied ≡ length d.bytes =
        length-copy_in (length a.bytes) d.bytes offset a.bytes in
      (
        ground (arith, index),
        room,
        (
          record d { bytes = copied },
          rw (write-eq d offset a n s, fits, index) refl,
          (kept, λ j. get_or-copy_in (length a.bytes) d.bytes offset a.bytes j room),
          rw
              (
                read-eq numpy (record d { bytes = copied }) offset a n
                    (record {
                      host = subst (λ k. k < 2 ^ 63) (sym kept) s.host;
                      offset_bound = s.offset_bound;
                    })
                    made,
                kept,
                fits,
                index,
                copy_out-copy_in d.bytes offset a.bytes room,
              )
              refl,
        ),
      )

-- For an array of NumPy and a memory and an offset of the host, one of three things holds. The array's
-- bytes do not fit behind the offset, and both `write` of it and `read` of as many elements there raise
-- `std::out_of_range`. Or the array has no bytes and the offset is the size of the memory: then both
-- calls index `bytes()` at its size, which is undefined. Or the offset is below the size and the bytes
-- fit: `write` succeeds, keeps the size of the memory, makes the cells of the range those of the array
-- and leaves every other cell, and `read` of as many elements of that size at that offset, if NumPy
-- makes such an array, then gives the array back.
pub write-read :
    (numpy : Numpy) (d : ByteMemory) (offset : ℕ) (a : Array)
    → IsArray a
    → Addresses d offset
    → numpy.makes a.size a.itemsize ≡ true
    → OutOfRange numpy d offset a ⊎ (EmptyAtEnd numpy d offset a ⊎ CopiedBack numpy d offset a)
write-read numpy d offset a n s made =
    elim (Bool-cases (ltb (length d.bytes) (offset + length a.bytes))) [
      | inl out ↦ inl (
        ltb→lt _ _ out,
        rw (write-eq d offset a n s, out) refl,
        rw (read-eq numpy d offset a n s made, out) refl,
      )
      | inr fits ↦ elim (Bool-cases (leb (length d.bytes) offset)) [
        | inl end ↦ inr (
            inl (
              ground (arith, fits, end),
              ground (arith, fits, end),
              rw (write-eq d offset a n s, fits, end) refl,
              rw (read-eq numpy d offset a n s made, fits, end) refl,
            ))
        | inr index ↦ inr (inr (copied_back numpy d offset a n s made fits index))
      ]
    ]

-- A write that succeeds.
pub write-Overwritten :
    (d : ByteMemory) (offset : ℕ) (a : Array) {d' : ByteMemory}
    → IsArray a
    → Addresses d offset
    → write d offset a ≡ ok d'
    → Overwritten d.bytes offset a.bytes d'.bytes
write-Overwritten d offset a {d' = d'} n s h =
    let (fits, index, e) =
      guards-eq-ok (ltb (length d.bytes) (offset + length a.bytes)) (leb (length d.bytes) offset) _
        _ _ {a = d'} (sym (write-eq d offset a n s) ∙ h) in
    subst (λ (m : ByteMemory). Overwritten d.bytes offset a.bytes m.bytes) e
      (
        length-copy_in (length a.bytes) d.bytes offset a.bytes,
        λ j. get_or-copy_in (length a.bytes) d.bytes offset a.bytes j (ground (arith, fits)),
      )
