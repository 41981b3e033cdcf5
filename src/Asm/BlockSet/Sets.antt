-- ===== src/Asm/BlockSet/Sets.antt =====
-- `BlockSet` of src/asm/reconvergence.cpp as a set of numbers.
use warp_sim.Base.{ℕ, ◌<◌, ◌==◌, ◌≡◌, refl, arith, true, false, not, ◌&&◌, ◌||◌}
use warp_sim.Asm.BlockSet.{BlockSet, new_set, contains, insert, erase, intersect, same_set}
use warp_sim.Asm.BlockSet.Members.{
  Sized, member-le-one, contains-member, member-insert, member-erase, member-intersect,
  member-new_set-true, member-new_set-false,
}
use warp_sim.Asm.BlockSet.Count.{same_set-member}

-- For two sets over the numbers below n, and i and j below n: a new set is empty or full, `insert`
-- and `erase` change the membership of the number given and of no other, `intersect` keeps what is in
-- both, and sets that compare equal have the same elements.
pub block_set_lem :
    (n i j : ℕ) (s t : BlockSet)
    → Sized n s
    → Sized n t
    → i < n
    → j < n
    → (contains (new_set n false) j ≡ false)
      × (contains (new_set n true) j ≡ true)
      × (contains (insert i s) j ≡ (j == i || contains s j))
      × (contains (erase i s) j ≡ (not (j == i) && contains s j))
      × (contains (intersect s t) j ≡ (contains s j && contains t j))
      × (same_set s t ≡ true → contains s j ≡ contains t j)
block_set_lem n i j s t hs ht hi hj =
    let one = member-le-one s j in
    let two = member-le-one t j in
    (
      rw (contains-member (new_set n false) j, member-new_set-false n j) refl,
      rw (contains-member (new_set n true) j, member-new_set-true n j hj) refl,
      rw (contains-member (insert i s) j, contains-member s j, member-insert n i j s hs hi)
          (ground (arith, one)),
      rw (contains-member (erase i s) j, contains-member s j, member-erase n i j s hs hi)
          (ground (arith, one)),
      rw
          (
            contains-member (intersect s t) j,
            contains-member s j,
            contains-member t j,
            member-intersect s t j,
          )
          (ground (arith, one, two)),
      λ same. rw (contains-member s j, contains-member t j, same_set-member s t j same) refl,
    )
