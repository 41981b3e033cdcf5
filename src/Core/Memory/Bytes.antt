-- ===== src/Core/Memory/Bytes.antt =====
-- `ByteMemory` of src/core/memory.cpp: what a store changes and what a load sees.
use warp_sim.Base.{
  ℕ, ◌+◌, ◌/◌, ◌%◌, ◌^◌, ◌<◌, ◌≤◌, ◌==◌, if◌then◌else◌, ◌≡◌, ◌≢◌, ◌⊎◌, ◌↔◌, refl, arith, List,
  length, get_or, get_or-set, length-set, ok, fail, >>=-eq-ok, Bool-cases, Result-cases, ==_iff,
  inl, inr, ap, subst,
}
use warp_sim.Core.Memory.{ByteMemory, AccessFault, check, word_at, put_word, load32, store32}

length-put_word : (bs : List ℕ) (a v : ℕ) → length (put_word bs a v) ≡ length bs
unfolding put_word
length-put_word bs a v = simp length-set

get_or-put_word :
    (bs : List ℕ) (a v j : ℕ)
    → a + 4 ≤ length bs
    → get_or (put_word bs a v) j 0 ≡ (
        if j == a
        then v % 2 ^ 8
        else if j == a + 1
        then v / 2 ^ 8 % 2 ^ 8
        else if j == a + 2
        then v / 2 ^ 16 % 2 ^ 8
        else if j == a + 3
        then v / 2 ^ 24 % 2 ^ 8
        else get_or bs j 0)
unfolding put_word
get_or-put_word bs a v j h = simp (get_or-set, length-set) (ground arith)

word_at-put_word :
    (bs : List ℕ) (a v : ℕ) → a + 4 ≤ length bs → v < 2 ^ 32 → word_at (put_word bs a v) a ≡ v
unfolding word_at
word_at-put_word bs a v h k = ground (
  arith,
  get_or-put_word bs a v a h,
  get_or-put_word bs a v (a + 1) h,
  get_or-put_word bs a v (a + 2) h,
  get_or-put_word bs a v (a + 3) h,
)

word_at-put_word_apart :
    (bs : List ℕ) (a b v : ℕ)
    → a + 4 ≤ length bs
    → (a + 4 ≤ b) ⊎ (b + 4 ≤ a)
    → word_at (put_word bs a v) b ≡ word_at bs b
unfolding word_at
word_at-put_word_apart bs a b v h apart = ground (
  arith,
  get_or-put_word bs a v b h,
  get_or-put_word bs a v (b + 1) h,
  get_or-put_word bs a v (b + 2) h,
  get_or-put_word bs a v (b + 3) h,
)

-- An access is let through exactly when it is aligned and in bounds.
check_iff :
    (m : ByteMemory) (a lane : ℕ)
    → (check m a lane ≡ ok tt) ↔ ((a % 4 ≡ 0) × (a + 4 ≤ length m.bytes))
unfolding check
check_iff m a lane = (λ h. ground arith, λ h. ground arith)

store32-eq-ok :
    (m : ByteMemory) (a v lane : ℕ) {m' : ByteMemory}
    → store32 m a v lane ≡ ok m'
    → (check m a lane ≡ ok tt) × (record m { bytes = put_word m.bytes a v } ≡ m')
unfolding store32
store32-eq-ok m a v lane h = let (u, c, e) = >>=-eq-ok (check m a lane) _ h in (c, cc e)

check_congr :
    (m n : ByteMemory) (a lane : ℕ)
    → length m.bytes ≡ length n.bytes
    → check m a lane ≡ check n a lane
unfolding check
check_congr m n a lane e = rw e

check_cases :
    (m : ByteMemory) (a lane : ℕ)
    → (check m a lane ≡ ok tt) ⊎ ((f : AccessFault) × (check m a lane ≡ fail f))
check_cases m a lane = Result-cases (check m a lane)

separate : (a b : ℕ) → a % 4 ≡ 0 → b % 4 ≡ 0 → b ≢ a → (a + 4 ≤ b) ⊎ (b + 4 ≤ a)
separate a b ha hb ne = omega arith

load32-put_word :
    (m : ByteMemory) (a b v lane lane' : ℕ)
    → check m a lane ≡ ok tt
    → v < 2 ^ 32
    → load32 (record m { bytes = put_word m.bytes a v }) b lane'
      ≡ (if b == a then ok v else load32 m b lane')
unfolding load32
load32-put_word m a b v lane lane' c hv =
    rw
      (check_congr (record m { bytes = put_word m.bytes a v }) m b lane'
        (length-put_word m.bytes a v))
      (elim (Bool-cases (b == a)) [
        | inl same ↦
            let e = (==_iff b a).0 same in
            rw (same, e)
              (rw ((check_iff m a lane').1 ok_a) (ap ok (word_at-put_word m.bytes a v ok_a.1 hv)))
        | inr apart ↦ rw apart (elim (check_cases m b lane') [
          | inl good ↦ rw good (
              ap ok (
                word_at-put_word_apart m.bytes a b v ok_a.1
                  (separate a b ok_a.0 ((check_iff m b lane').0 good).0 (λ e. ground (arith, e)))))
          | inr (f, bad) ↦ rw bad refl
        ])
      ])
  where
    ok_a : (a % 4 ≡ 0) × (a + 4 ≤ length m.bytes)
    ok_a = (check_iff m a lane).0 c

-- After a store of a 32-bit value that was let through, a load gives the value at the store's own
-- address, and at any other address what the memory gave before, faults included; the size of the
-- memory does not change.
pub load32-store32 :
    (m m' : ByteMemory) (a b v lane lane' : ℕ)
    → store32 m a v lane ≡ ok m'
    → v < 2 ^ 32
    → (load32 m' b lane' ≡ (if b == a then ok v else load32 m b lane'))
      × (length m'.bytes ≡ length m.bytes)
load32-store32 m m' a b v lane lane' h hv =
    let (c, e) = store32-eq-ok m a v lane {m' = m'} h in
    subst
      (λ n.
        (load32 n b lane' ≡ (if b == a then ok v else load32 m b lane'))
        × (length n.bytes ≡ length m.bytes))
      e (load32-put_word m a b v lane lane' c hv, length-put_word m.bytes a v)

-- Bytes are bytes.
abbrev pub IsBytes : List ℕ → Type 0
IsBytes bs = (j : ℕ) → get_or bs j 0 < 2 ^ 8

pub store32-length :
    (m m' : ByteMemory) (a v lane : ℕ)
    → store32 m a v lane ≡ ok m'
    → length m'.bytes ≡ length m.bytes
store32-length m m' a v lane h =
    let (c, e) = store32-eq-ok m a v lane {m' = m'} h in
    subst (λ (n : ByteMemory). length n.bytes ≡ length m.bytes) e (length-put_word m.bytes a v)

-- If every cell of the memory is below 2 ^ 8, it is so after a store that was let through.
pub store32-IsBytes :
    (m m' : ByteMemory) (a v lane : ℕ)
    → IsBytes m.bytes
    → store32 m a v lane ≡ ok m'
    → IsBytes m'.bytes
store32-IsBytes m m' a v lane w h =
    let (c, e) = store32-eq-ok m a v lane {m' = m'} h in
    subst (λ (n : ByteMemory). IsBytes n.bytes) e
      λ j. ground (arith, get_or-put_word m.bytes a v j ((check_iff m a lane).0 c).1, w j)
