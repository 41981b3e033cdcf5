-- ===== src/Asm/BlockSet/Count.antt =====
-- `count` and `==` of `BlockSet` (src/asm/reconvergence.cpp): a subset with as many elements is equal.
use warp_sim.Base.{
  ℕ, zero, suc, ◌+◌, ◌*◌, ◌/◌, ◌%◌, ◌<◌, ◌≤◌, ◌==◌, ◌≡◌, refl, ap, ◌∙◌, sym, Bool, true, ◌&&◌, List,
  [], ◌∷◌, get_or, length, arith, ==_iff,
}
use warp_sim.Bits.{bit, bit_ext}
use warp_sim.Core.Types.{popcount}
use warp_sim.Asm.BlockSet.{BlockSet, same_words, same_set, count_words, cardinality}
use warp_sim.Asm.BlockSet.Members.{member, WordsFit, Sized}

abbrev pub Subset : BlockSet → BlockSet → Type 0
Subset s t = (j : ℕ) → member s j ≤ member t j

abbrev BelowBits : ℕ → ℕ → ℕ → Type 0
BelowBits n a b = (i : ℕ) → i < n → bit a i ≤ bit b i

shifted : (n a b : ℕ) → BelowBits (suc n) a b → BelowBits n (a / 2) (b / 2)
unfolding bit
shifted n a b h i lt = h (suc i) (omega (arith, lt))

popcount-le_of : (n a b : ℕ) → BelowBits n a b → popcount n a ≤ popcount n b
unfolding popcount bit
popcount-le_of zero a b h = omega arith
popcount-le_of (suc n) a b h =
    omega (arith, h 0 (omega arith), popcount-le_of n (a / 2) (b / 2) (shifted n a b h))

popcount-eq_of :
    (n a b : ℕ)
    → BelowBits n a b
    → popcount n b ≤ popcount n a
    → (i : ℕ) → i < n
    → bit a i ≡ bit b i
unfolding popcount bit
popcount-eq_of zero a b h e i lt = absurd (omega (arith, lt))
popcount-eq_of (suc n) a b h e zero lt =
    omega (arith, e, h 0 (omega arith), popcount-le_of n (a / 2) (b / 2) (shifted n a b h))
popcount-eq_of (suc n) a b h e (suc i) lt =
    popcount-eq_of n (a / 2) (b / 2) (shifted n a b h) (omega (arith, e, h 0 (omega arith))) i
      (omega (arith, lt))

abbrev BelowWords : List ℕ → List ℕ → Type 0
BelowWords xs ys = (w : ℕ) → BelowBits 64 (get_or xs w 0) (get_or ys w 0)

count_words-le :
    (xs ys : List ℕ) → length xs ≡ length ys → BelowWords xs ys → count_words xs ≤ count_words ys
unfolding count_words
count_words-le [] ys e h = omega arith
count_words-le (x ∷ xs) [] e h = absurd (omega (arith, e))
count_words-le (x ∷ xs) (y ∷ ys) e h =
    omega
      (arith, popcount-le_of 64 x y (h 0), count_words-le xs ys (omega (arith, e)) (λ w. h (suc w)))

count_words-eq :
    (xs ys : List ℕ)
    → length xs ≡ length ys
    → WordsFit xs
    → WordsFit ys
    → BelowWords xs ys
    → count_words ys ≤ count_words xs
    → same_words xs ys ≡ true
unfolding count_words same_words
count_words-eq [] [] e p q h c = refl
count_words-eq [] (y ∷ ys) e p q h c = absurd (omega (arith, e))
count_words-eq (x ∷ xs) [] e p q h c = absurd (omega (arith, e))
count_words-eq (x ∷ xs) (y ∷ ys) e (px, ps) (qy, qs) h c =
    let le : popcount 64 x ≤ popcount 64 y = popcount-le_of 64 x y (h 0) in
    let rest : count_words xs ≤ count_words ys =
      count_words-le xs ys (omega (arith, e)) (λ w. h (suc w)) in
    let same : x ≡ y =
      bit_ext 64 x y px qy (popcount-eq_of 64 x y (h 0) (omega (arith, c, rest))) in
    ground (
      arith,
      ==_iff x y,
      same,
      count_words-eq xs ys (omega (arith, e)) ps qs (λ w. h (suc w)) (omega (arith, c, le)),
    )

same_words-eq : (xs ys : List ℕ) → same_words xs ys ≡ true → xs ≡ ys
unfolding same_words
same_words-eq [] [] h = refl
same_words-eq [] (y ∷ ys) h = cc
same_words-eq (x ∷ xs) [] h = cc
same_words-eq (x ∷ xs) (y ∷ ys) h =
    let (e, rest) = and-true (x == y) (same_words xs ys) h in
    cc ((==_iff x y).0 e, same_words-eq xs ys rest)
  where
    and-true : (a b : Bool) → (a && b) ≡ true → (a ≡ true) × (b ≡ true)
    and-true a b h = ground arith

below_words : (s t : BlockSet) → Subset s t → BelowWords s.words t.words
below_words s t h w i lt =
    let word : (w * 64 + i) / 64 ≡ w = omega (arith, lt) in
    let place : (w * 64 + i) % 64 ≡ i = omega (arith, lt) in
    let here : bit (get_or s.words ((w * 64 + i) / 64) 0) ((w * 64 + i) % 64)
        ≤ bit (get_or t.words ((w * 64 + i) / 64) 0) ((w * 64 + i) % 64) =
      unfold member in h (w * 64 + i) in
    rw (word, place) at here

same_length : (n : ℕ) (s t : BlockSet) → Sized n s → Sized n t → length s.words ≡ length t.words
same_length n s t p q = p.words_are ∙ sym q.words_are

-- A subset has no more elements.
pub cardinality-le :
    (n : ℕ) (s t : BlockSet) → Sized n s → Sized n t → Subset s t → cardinality s ≤ cardinality t
unfolding cardinality
cardinality-le n s t p q h =
    count_words-le s.words t.words (same_length n s t p q) (below_words s t h)

-- A subset with as many elements is the set.
pub cardinality-eq :
    (n : ℕ) (s t : BlockSet)
    → Sized n s
    → Sized n t
    → Subset s t
    → cardinality t ≤ cardinality s
    → same_set s t ≡ true
unfolding cardinality same_set
cardinality-eq n s t p q h c =
    let words =
      count_words-eq s.words t.words (same_length n s t p q) p.fit q.fit (below_words s t h) c in
    ground (arith, words, p.size_is, q.size_is)

-- Sets that compare equal have the same elements.
pub same_set-member : (s t : BlockSet) (j : ℕ) → same_set s t ≡ true → member s j ≡ member t j
unfolding same_set member
same_set-member s t j h =
    let words : same_words s.words t.words ≡ true = ground (arith, h) in
    ap (λ (ws : List ℕ). bit (get_or ws (j / 64) 0) (j % 64)) (same_words-eq s.words t.words words)
