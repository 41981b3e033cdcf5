-- ===== src/Asm/BlockSet.antt =====
-- `class BlockSet` of src/asm/reconvergence.cpp: a set of block indices, 64 to a word.
pub mod Members
pub mod Count
pub mod Sets
use warp_sim.Base.{
  ℕ, ◌+◌, ◌-◌, ◌/◌, ◌%◌, ◌^◌, ◌==◌, if◌then◌else◌, Bool, true, false, not, ◌&&◌, bit_and, bit_or,
  List, [], ◌∷◌, get_or, set, replicate, length,
}
use warp_sim.Core.Types.{popcount}

pub record BlockSet : Type 0 where
  pub words : List ℕ
  pub size : ℕ

-- `std::uint64_t{1} << (i % 64)` and its complement.
unfoldable pub bit_of : ℕ → ℕ
bit_of i = 2 ^ (i % 64) % 2 ^ 64

abbrev pub all_ones : ℕ
all_ones = 2 ^ 64 - 1

-- The constructor.
unfoldable pub new_set : ℕ → Bool → BlockSet
unfolding bit_of
new_set size all =
    let words = replicate ((size + 63) / 64) (if all then all_ones else 0) in
    if all && not (length words == 0) && not (size % 64 == 0)
    then record {
      words =
          set words (length words - 1)
            (bit_and (get_or words (length words - 1) 0) (bit_of size - 1));
      size = size;
    }
    else record { words = words; size = size }

unfoldable pub contains : BlockSet → ℕ → Bool
contains s i = not (bit_and (get_or s.words (i / 64) 0 / 2 ^ (i % 64)) 1 == 0)

unfoldable pub insert : ℕ → BlockSet → BlockSet
unfolding bit_of
insert i s = record s {
  words = set s.words (i / 64) (bit_or (get_or s.words (i / 64) 0) (bit_of i));
}

unfoldable pub erase : ℕ → BlockSet → BlockSet
unfolding bit_of
erase i s = record s {
  words = set s.words (i / 64) (bit_and (get_or s.words (i / 64) 0) (all_ones - bit_of i));
}

-- The loop of `intersect` over the words of this set, from word w on.
unfoldable pub intersect_words : List ℕ → ℕ → List ℕ → List ℕ
intersect_words [] w other = []
intersect_words (x ∷ xs) w other = bit_and x (get_or other w 0) ∷ intersect_words xs (w + 1) other

unfoldable pub intersect : BlockSet → BlockSet → BlockSet
unfolding intersect_words
intersect s other = record s { words = intersect_words s.words 0 other.words }

unfoldable pub same_words : List ℕ → List ℕ → Bool
same_words [] [] = true
same_words [] (y ∷ ys) = false
same_words (x ∷ xs) [] = false
same_words (x ∷ xs) (y ∷ ys) = x == y && same_words xs ys

-- `operator==`
unfoldable pub same_set : BlockSet → BlockSet → Bool
unfolding same_words
same_set s t = same_words s.words t.words && s.size == t.size

unfoldable pub count_words : List ℕ → ℕ
count_words [] = 0
count_words (x ∷ xs) = popcount 64 x + count_words xs

-- `count`
unfoldable pub cardinality : BlockSet → ℕ
unfolding count_words
cardinality s = count_words s.words
