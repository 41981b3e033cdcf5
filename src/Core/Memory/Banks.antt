-- ===== src/Core/Memory/Banks.antt =====
-- `bank_conflict_degree` of src/core/memory_analysis.cpp against its specification
-- (docs/wisa-spec.md section 2.5): the maximum over the banks of the number of distinct addresses.
use native.Mathlib.Decide.{dec_le}
use warp_sim.Base.{
  ℕ, suc, ◌+◌, ◌<◌, ◌≤◌, ◌/◌, ◌%◌, sym, ◌==◌, if◌then◌else◌, ◌&&◌, Bool, ◌≡◌, ◌⊎◌, refl, arith,
  List, [], ◌∷◌, ◌++◌, length, Bool-cases, inl, inr, ==_iff, max, ap, ◌≢◌,
}
use warp_sim.Core.Types.{LaneMask, has_lane}
use warp_sim.Core.Types.Loops.{for_range_inv}
use warp_sim.Core.Memory.Analysis.{
  contains, note, bank_of, visit, Buckets, buckets, bank_conflict_degree,
}
use warp_sim.Core.Memory.Sets.{Lists, Lists-step, Lists-none, length-snoc}

visit-seen :
    (a : ℕ) (s : Buckets) (b : ℕ)
    → (visit a s).seen b ≡ (if b == bank_of a then note a (s.seen b) else s.seen b)
unfolding visit note
visit-seen a s b = elim (Bool-cases (b == bank_of a)) [
  | inl own ↦
      rw (own, (==_iff b (bank_of a)).0 own)
        (elim (Bool-cases (contains a (s.seen (bank_of a)))) [
          | inl old ↦ rw old
          | inr new ↦ rw (new, (==_iff (bank_of a) (bank_of a)).1 refl)
        ])
  | inr other ↦ rw other (elim (Bool-cases (contains a (s.seen (bank_of a)))) [
    | inl old ↦ rw old
    | inr new ↦ rw (new, other)
  ])
]

-- The degree bounds the size of every bank's list, and one of them attains it.
record IsMax (s : Buckets) : Type 0 where
  bounds : (b : ℕ) → length (s.seen b) ≤ s.degree
  attained : (s.degree ≡ 0) ⊎ ((b : ℕ) × (b < 32) × (length (s.seen b) ≡ s.degree))

bank_of_lem : (a : ℕ) → bank_of a ≡ a / 4 % 32
unfolding bank_of
bank_of_lem a = refl

bank_of-lt : (a : ℕ) → bank_of a < 32
unfolding bank_of
bank_of-lt a = omega arith

module _ (a : ℕ) (s : Buckets) (h : IsMax s) where
  bucket : ℕ
  bucket = length (s.seen (bank_of a))

  grown : (b : ℕ) → List ℕ
  grown b = if b == bank_of a then s.seen (bank_of a) ++ (a ∷ []) else s.seen b

  grown_bounds : (b : ℕ) → length (grown b) ≤ max s.degree (bucket + 1)
  unfolding grown bucket
  grown_bounds b = elim (Bool-cases (b == bank_of a)) [
    | inl own ↦ rw own (omega (arith, length-snoc a (s.seen (bank_of a))))
    | inr other ↦ rw other (omega (arith, h.bounds b))
  ]

  grown_other : (b : ℕ) → length (s.seen b) ≢ bucket → grown b ≡ s.seen b
  unfolding grown bucket
  grown_other b ne = elim (Bool-cases (b == bank_of a)) [
    | inl own ↦ absurd (ne (ap (λ c. length (s.seen c)) ((==_iff b (bank_of a)).0 own)))
    | inr other ↦ rw other
  ]

  grown_self : length (grown (bank_of a)) ≡ bucket + 1
  unfolding grown bucket
  grown_self = rw ((==_iff (bank_of a) (bank_of a)).1 refl) (length-snoc a (s.seen (bank_of a)))

  still_attained :
      bucket + 1 ≤ s.degree
      → (s.degree ≡ 0) ⊎ ((b : ℕ) × (b < 32) × (length (s.seen b) ≡ s.degree))
      → (b : ℕ) × (b < 32) × (length (grown b) ≡ max s.degree (bucket + 1))
  still_attained le (inl z) = absurd (omega arith)
  still_attained le (inr (b, lt, e)) =
      (b, lt, omega (arith, e, ap length (grown_other b (λ same. absurd (omega arith)))))

  grown_attained : (b : ℕ) × (b < 32) × (length (grown b) ≡ max s.degree (bucket + 1))
  grown_attained = elim (dec_le (bucket + 1) s.degree) [
    | yes le ↦ still_attained le h.attained
    | no gt ↦ (bank_of a, bank_of-lt a, omega (arith, grown_self))
  ]

  visit-IsMax : IsMax (visit a s)
  unfolding visit grown bucket
  visit-IsMax = elim (Bool-cases (contains a (s.seen (bank_of a)))) [
    | inl old ↦ rw old h
    | inr new ↦ rw new (record { bounds = grown_bounds; attained = inr grown_attained })
  ]

-- Executing lanes whose address lies in bank b: there are 32 banks of 4-byte words.
abbrev pub in_bank : (ℕ → ℕ) → LaneMask → ℕ → ℕ → Bool
in_bank addresses exec b lane = has_lane exec lane && b == addresses lane / 4 % 32

-- What the loop has established after `k` lanes.
record Counted (addresses : ℕ → ℕ) (exec : LaneMask) (k : ℕ) (s : Buckets) : Type 0 where
  lists : (b : ℕ) → Lists k addresses (in_bank addresses exec b) (s.seen b)
  largest : IsMax s

module _ (addresses : ℕ → ℕ) (exec : LaneMask) where
  body : ℕ → Buckets → Buckets
  body lane s = if has_lane exec lane then visit (addresses lane) s else s

  body-seen :
      (k b : ℕ) (s : Buckets)
      → (body k s).seen b
        ≡ (if in_bank addresses exec b k then note (addresses k) (s.seen b) else s.seen b)
  unfolding body
  body-seen k b s = elim (Bool-cases (has_lane exec k)) [
    | inl busy ↦ rw (busy, sym (bank_of_lem (addresses k))) (visit-seen (addresses k) s b)
    | inr idle ↦ rw idle
  ]

  body-IsMax : (k : ℕ) (s : Buckets) → IsMax s → IsMax (body k s)
  unfolding body
  body-IsMax k s h = elim (Bool-cases (has_lane exec k)) [
    | inl busy ↦ rw busy (visit-IsMax (addresses k) s h)
    | inr idle ↦ rw idle h
  ]

  body-Counted :
      (k : ℕ) (s : Buckets) → Counted addresses exec k s → Counted addresses exec (suc k) (body k s)
  body-Counted k s c = record {
    lists = λ b.
        rw (body-seen k b s)
          (Lists-step addresses (in_bank addresses exec b) k (s.seen b) (c.lists b));
    largest = body-IsMax k s c.largest;
  }

  buckets-Counted : Counted addresses exec 32 (buckets 32 addresses exec)
  unfolding buckets body
  buckets-Counted =
      for_range_inv (Counted addresses exec) body 32 0 32 _ (omega arith)
        (λ l t h p. body-Counted l t p)
        (record {
          lists = λ b. Lists-none addresses (in_bank addresses exec b);
          largest = record { bounds = λ b. omega arith; attained = inl refl };
        })

-- The degree is the maximum over the banks of the number of distinct addresses that executing
-- lanes direct at the bank, where the bank of an address is address / 4 mod 32: each bank has a list without repetition of exactly those addresses,
-- none is longer than the degree, and unless the degree is 0 some bank's list has that length.
pub bank_conflict_degree_lem :
    (addresses : ℕ → ℕ) (exec : LaneMask)
    → (banks : ℕ → List ℕ) × ((b : ℕ) → Lists 32 addresses (in_bank addresses exec b) (banks b))
      × ((b : ℕ) → length (banks b) ≤ bank_conflict_degree addresses exec)
      × ((bank_conflict_degree addresses exec ≡ 0)
          ⊎ ((b : ℕ) × (b < 32) × (length (banks b) ≡ bank_conflict_degree addresses exec)))
unfolding bank_conflict_degree
bank_conflict_degree_lem addresses exec =
    let c = buckets-Counted addresses exec in
    ((buckets 32 addresses exec).seen, c.lists, c.largest.bounds, c.largest.attained)
