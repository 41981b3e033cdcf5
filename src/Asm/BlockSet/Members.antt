-- ===== src/Asm/BlockSet/Members.antt =====
-- The operations of `BlockSet` in src/asm/reconvergence.cpp as operations on a set of numbers.
use Prim.Native.Nat.{bit_and-bitwise}
use warp_sim.Base.{
  ltb, ℕ, zero, suc, ◌+◌, ◌-◌, ◌/◌, ◌%◌, ◌^◌, ◌<◌, ◌≤◌, ◌==◌, ◌≡◌, ◌≢◌, refl, ap, ◌∙◌, sym,
  if◌then◌else◌, Bool, true, false, not, ◌&&◌, bit_and, bit_or, min, List, [], ◌∷◌, get_or, set,
  replicate, length, length-set, length-replicate, get_or-set, arith, Bool-cases, inl, inr,
}
use warp_sim.Bits.{
  bit, bit-le-one, bit-zero, bit-bit_and, bit-bit_or, bit_and-lt, bit_or-lt, bit-complement,
  bit-pow, bit_and-mask, pow-lt-pow, bit-ones, bit-shift,
}
use warp_sim.Asm.BlockSet.{
  BlockSet, bit_of, all_ones, new_set, contains, insert, erase, intersect, intersect_words,
}

-- The bit of a number in a set.
unfoldable pub member : BlockSet → ℕ → ℕ
member s i = bit (get_or s.words (i / 64) 0) (i % 64)

-- Every word is a 64-bit word.
abbrev pub WordsFit : List ℕ → Type 0
WordsFit [] = Unit {0}
WordsFit (x ∷ xs) = (x < 2 ^ 64) × WordsFit xs

-- A set for numbers below n.
pub record Sized (n : ℕ) (s : BlockSet) : Type 0 where
  pub size_is : s.size ≡ n
  pub words_are : length s.words ≡ (n + 63) / 64
  pub fit : WordsFit s.words

word-lt : (ws : List ℕ) (i : ℕ) → WordsFit ws → get_or ws i 0 < 2 ^ 64
word-lt [] i h = omega arith
word-lt (x ∷ xs) zero h = h.0
word-lt (x ∷ xs) (suc i) h = word-lt xs i h.1

WordsFit-set : (ws : List ℕ) (i v : ℕ) → WordsFit ws → v < 2 ^ 64 → WordsFit (set ws i v)
WordsFit-set [] i v h lt = tt
WordsFit-set (x ∷ xs) zero v h lt = (lt, h.1)
WordsFit-set (x ∷ xs) (suc i) v h lt = (h.0, WordsFit-set xs i v h.1 lt)

pub member-le-one : (s : BlockSet) (i : ℕ) → member s i ≤ 1
unfolding member
member-le-one s i = bit-le-one (get_or s.words (i / 64) 0) (i % 64)

pub contains-member : (s : BlockSet) (i : ℕ) → contains s i ≡ (member s i == 1)
unfolding contains member
contains-member s i =
    let x = get_or s.words (i / 64) 0 in
    rw (bit_and-mask 1 (x / 2 ^ (i % 64)), bit-shift x (i % 64))
      (ground (arith, bit-le-one x (i % 64)))

Sized-set :
    (n i v : ℕ) (s : BlockSet)
    → Sized n s
    → v < 2 ^ 64
    → Sized n (record s { words = set s.words i v })
Sized-set n i v s h lt = record {
  size_is = h.size_is;
  words_are = length-set s.words i v ∙ h.words_are;
  fit = WordsFit-set s.words i v h.fit lt;
}

bit_of-pow : (i : ℕ) → bit_of i ≡ 2 ^ (i % 64)
unfolding bit_of
bit_of-pow i = omega (arith, pow-lt-pow (i % 64) 64 (omega arith))

-- A word of the set that changes, at one number.
member-set :
    (n i j v : ℕ) (s : BlockSet)
    → Sized n s
    → i < n
    → member (record s { words = set s.words (i / 64) v }) j
      ≡ (if i / 64 == j / 64 then bit v (j % 64) else member s j)
unfolding member
member-set n i j v s h lt =
    rw (get_or-set s.words (i / 64) (j / 64) v 0) (ground (arith, h.words_are, lt))

same_place : (i j : ℕ) → (i / 64 == j / 64 && j % 64 == i % 64) ≡ (j == i)
same_place i j = ground arith

pub Sized-insert : (n i : ℕ) (s : BlockSet) → Sized n s → Sized n (insert i s)
unfolding insert
Sized-insert n i s h = Sized-set n (i / 64) _ s h (
    bit_or-lt 64 _ _ (word-lt s.words (i / 64) h.fit)
      (rw (bit_of-pow i) (pow-lt-pow (i % 64) 64 (omega arith))))

pub member-insert :
    (n i j : ℕ) (s : BlockSet)
    → Sized n s
    → i < n
    → member (insert i s) j ≡ (if j == i then 1 else member s j)
unfolding insert
member-insert n i j s h lt =
    rw
      (
        member-set n i j (bit_or (get_or s.words (i / 64) 0) (bit_of i)) s h lt,
        bit-bit_or (get_or s.words (i / 64) 0) (bit_of i) (j % 64),
        bit_of-pow i,
        bit-pow (i % 64) (j % 64),
      )
      (unfold member in
        ground (arith, same_place i j, bit-le-one (get_or s.words (i / 64) 0) (j % 64)))

mask_bit : (i j : ℕ) → j < 64 → bit (all_ones - bit_of i) j ≡ (if j == i % 64 then 0 else 1)
mask_bit i j lt =
    rw
      (
        bit-complement 64 (bit_of i) j (rw (bit_of-pow i) (pow-lt-pow (i % 64) 64 (omega arith)))
            lt,
        bit_of-pow i,
        bit-pow (i % 64) j,
      )
      (ground arith)

pub Sized-erase : (n i : ℕ) (s : BlockSet) → Sized n s → Sized n (erase i s)
unfolding erase
Sized-erase n i s h =
    Sized-set n (i / 64) _ s h (bit_and-lt 64 _ _ (word-lt s.words (i / 64) h.fit))

pub member-erase :
    (n i j : ℕ) (s : BlockSet)
    → Sized n s
    → i < n
    → member (erase i s) j ≡ (if j == i then 0 else member s j)
unfolding erase
member-erase n i j s h lt =
    rw
      (
        member-set n i j (bit_and (get_or s.words (i / 64) 0) (all_ones - bit_of i)) s h lt,
        bit-bit_and (get_or s.words (i / 64) 0) (all_ones - bit_of i) (j % 64),
        mask_bit i (j % 64) (omega arith),
      )
      (unfold member in
        ground (arith, same_place i j, bit-le-one (get_or s.words (i / 64) 0) (j % 64)))

get_or-intersect_words :
    (xs ys : List ℕ) (w k : ℕ)
    → get_or (intersect_words xs w ys) k 0 ≡ bit_and (get_or xs k 0) (get_or ys (w + k) 0)
unfolding intersect_words
get_or-intersect_words [] ys w k = sym (bit_and-bitwise 0 (get_or ys (w + k) 0))
get_or-intersect_words (x ∷ xs) ys w zero = ap (λ (t : ℕ). bit_and x (get_or ys t 0)) (omega arith)
get_or-intersect_words (x ∷ xs) ys w (suc k) =
    get_or-intersect_words xs ys (w + 1) k
    ∙ ap (λ (t : ℕ). bit_and (get_or xs k 0) (get_or ys t 0)) (omega arith)

length-intersect_words : (xs ys : List ℕ) (w : ℕ) → length (intersect_words xs w ys) ≡ length xs
unfolding intersect_words
length-intersect_words [] ys w = refl
length-intersect_words (x ∷ xs) ys w = ap suc (length-intersect_words xs ys (w + 1))

WordsFit-intersect_words :
    (xs ys : List ℕ) (w : ℕ) → WordsFit xs → WordsFit (intersect_words xs w ys)
unfolding intersect_words
WordsFit-intersect_words [] ys w h = tt
WordsFit-intersect_words (x ∷ xs) ys w h =
    (bit_and-lt 64 x (get_or ys w 0) h.0, WordsFit-intersect_words xs ys (w + 1) h.1)

pub Sized-intersect : (n : ℕ) (s t : BlockSet) → Sized n s → Sized n (intersect s t)
unfolding intersect
Sized-intersect n s t h = record {
  size_is = h.size_is;
  words_are = length-intersect_words s.words t.words 0 ∙ h.words_are;
  fit = WordsFit-intersect_words s.words t.words 0 h.fit;
}

pub member-intersect :
    (s t : BlockSet) (j : ℕ) → member (intersect s t) j ≡ min (member s j) (member t j)
unfolding intersect member
member-intersect s t j =
    let place : 0 + j / 64 ≡ j / 64 = omega arith in
    rw (get_or-intersect_words s.words t.words 0 (j / 64), place)
      (bit-bit_and (get_or s.words (j / 64) 0) (get_or t.words (j / 64) 0) (j % 64))

WordsFit-replicate : (k v : ℕ) → v < 2 ^ 64 → WordsFit (replicate k v)
WordsFit-replicate zero v h = tt
WordsFit-replicate (suc k) v h = (h, WordsFit-replicate k v h)

get_or-replicate : (k v i : ℕ) → get_or (replicate k v) i 0 ≡ (if ltb i k then v else 0)
get_or-replicate zero v i = ground arith
get_or-replicate (suc k) v zero = ground arith
get_or-replicate (suc k) v (suc i) = ground (arith, get_or-replicate k v i)

Sized-replicate :
    (n v : ℕ) → v < 2 ^ 64 → Sized n (record { words = replicate ((n + 63) / 64) v; size = n })
Sized-replicate n v h = record {
  size_is = refl;
  words_are = length-replicate ((n + 63) / 64) v;
  fit = WordsFit-replicate ((n + 63) / 64) v h;
}

pub Sized-new_set : (n : ℕ) (all : Bool) → Sized n (new_set n all)
unfolding new_set
Sized-new_set n false = Sized-replicate n 0 (omega arith)
Sized-new_set n true =
    let ws = replicate ((n + 63) / 64) all_ones in
    elim (Bool-cases (not (length ws == 0) && not (n % 64 == 0))) [
      | inl part ↦ rw part (
          Sized-set n _ _ _ (Sized-replicate n all_ones (omega arith)) (
            bit_and-lt 64 _ _
              (word-lt ws (length ws - 1) (Sized-replicate n all_ones (omega arith)).fit)))
      | inr full ↦ rw full (Sized-replicate n all_ones (omega arith))
    ]

pub member-new_set-false : (n j : ℕ) → member (new_set n false) j ≡ 0
unfolding new_set member
member-new_set-false n j =
    rw (get_or-replicate ((n + 63) / 64) 0 (j / 64)) (ground (arith, bit-zero (j % 64)))

full_word :
    (n j : ℕ) → j < n → bit (get_or (replicate ((n + 63) / 64) all_ones) (j / 64) 0) (j % 64) ≡ 1
full_word n j lt =
    rw (get_or-replicate ((n + 63) / 64) all_ones (j / 64))
      (ground (arith, lt, bit-ones 64 (j % 64)))

last_word :
    (n j : ℕ)
    → j < n
    → n % 64 ≢ 0
    → j / 64 ≡ (n + 63) / 64 - 1
    → bit (bit_and all_ones (bit_of n - 1)) (j % 64) ≡ 1
last_word n j lt part place =
    rw (bit-bit_and all_ones (bit_of n - 1) (j % 64), bit_of-pow n, bit-ones (n % 64) (j % 64))
      (ground (arith, lt, part, place, bit-ones 64 (j % 64)))

pub member-new_set-true : (n j : ℕ) → j < n → member (new_set n true) j ≡ 1
unfolding new_set
member-new_set-true n j lt =
    let ws = replicate ((n + 63) / 64) all_ones in
    let len : length ws ≡ (n + 63) / 64 = length-replicate ((n + 63) / 64) all_ones in
    let last : get_or ws (length ws - 1) 0 ≡ all_ones =
      rw (len, get_or-replicate ((n + 63) / 64) all_ones ((n + 63) / 64 - 1))
        (ground (arith, lt)) in
    elim (Bool-cases (not (length ws == 0) && not (n % 64 == 0))) [
      | inl part ↦
          rw (part, last)
            (unfold member in
              rw (get_or-set ws (length ws - 1) (j / 64) (bit_and all_ones (bit_of n - 1)) 0)
                (ground (arith, part, len, full_word n j lt, last_word n j lt)))
      | inr full ↦ rw full (unfold member in full_word n j lt)
    ]

-- No number from n on is in the set of all numbers below n.
pub member-new_set-above : (n j : ℕ) → n ≤ j → member (new_set n true) j ≡ 0
unfolding new_set
member-new_set-above n j le =
    let ws = replicate ((n + 63) / 64) all_ones in
    let len : length ws ≡ (n + 63) / 64 = length-replicate ((n + 63) / 64) all_ones in
    elim (Bool-cases (not (length ws == 0) && not (n % 64 == 0))) [
      | inl part ↦
          rw part
            (unfold member in rw (get_or-set ws (length ws - 1) (j / 64) _ 0) (above_last part len))
      | inr full ↦ rw full (
          unfold member in
          rw (get_or-replicate ((n + 63) / 64) all_ones (j / 64))
            (ground (arith, full, len, le, bit-zero (j % 64))))
    ]
  where
    ws : List ℕ
    ws = replicate ((n + 63) / 64) all_ones

    masked : ℕ
    masked = bit_and (get_or ws (length ws - 1) 0) (bit_of n - 1)

    above_last :
        (not (length ws == 0) && not (n % 64 == 0)) ≡ true
        → length ws ≡ (n + 63) / 64
        → bit
            (if length ws - 1 == j / 64 && ltb (length ws - 1) (length ws)
              then masked
              else get_or ws (j / 64) 0)
            (j % 64)
          ≡ 0
    above_last part len = ground (
      arith,
      part,
      len,
      le,
      bit-zero (j % 64),
      get_or-replicate ((n + 63) / 64) all_ones (j / 64),
      bit-bit_and (get_or ws (length ws - 1) 0) (bit_of n - 1) (j % 64),
      bit_of-pow n,
      bit-ones (n % 64) (j % 64),
    )
