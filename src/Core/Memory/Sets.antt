-- ===== src/Core/Memory/Sets.antt =====
-- Lists without repetition, grown by `note` of the memory analyzer.
use native.Mathlib.Decide.{ℕ_discrete}
use warp_sim.Base.{
  ℕ, suc, ◌+◌, ◌<◌, ◌==◌, if◌then◌else◌, ◌||◌, Bool, true, false, ◌≡◌, ◌↔◌, refl, arith, List, [],
  ◌∷◌, ◌++◌, length, Bool-cases, inl, inr, ==_iff, subst, sym, ap,
}
use warp_sim.Core.Memory.Analysis.{contains, note}

-- No value occurs twice.
abbrev Distinct : List ℕ → Type 0
Distinct [] = Unit {0}
Distinct (x ∷ xs) = (contains x xs ≡ false) × Distinct xs

contains-append : (x y : ℕ) (xs : List ℕ) → contains x (xs ++ (y ∷ [])) ≡ (x == y || contains x xs)
unfolding contains
contains-append x y [] = refl
contains-append x y (z ∷ xs) = ground (arith, contains-append x y xs)

Distinct-append :
    (y : ℕ) (xs : List ℕ) → contains y xs ≡ false → Distinct xs → Distinct (xs ++ (y ∷ []))
unfolding contains
Distinct-append y [] h d = (refl, tt)
Distinct-append y (z ∷ xs) h d =
    (ground (arith, contains-append z y xs), Distinct-append y xs (ground arith) d.1)

contains-note : (x y : ℕ) (xs : List ℕ) → contains x (note y xs) ≡ (x == y || contains x xs)
unfolding note
contains-note x y xs = elim (Bool-cases (contains y xs)) [
  | inl old ↦ rw old (ground (arith, old))
  | inr new ↦ rw new (contains-append x y xs)
]

note-Distinct : (y : ℕ) (xs : List ℕ) → Distinct xs → Distinct (note y xs)
unfolding note
note-Distinct y xs d = elim (Bool-cases (contains y xs)) [
  | inl old ↦ rw old d
  | inr new ↦ rw new (Distinct-append y xs new d)
]

pub length-snoc : (y : ℕ) (xs : List ℕ) → length (xs ++ (y ∷ [])) ≡ length xs + 1
length-snoc y [] = refl
length-snoc y (x ∷ xs) = omega (arith, length-snoc y xs)

-- Some lane below `lanes` runs and has the key x.
abbrev Hit : ℕ → (ℕ → ℕ) → (ℕ → Bool) → ℕ → Type 0
Hit lanes key runs x = (lane : ℕ) × (lane < lanes) × (runs lane ≡ true) × (key lane ≡ x)

-- A list of exactly the keys of the lanes that run, each once.
abbrev pub Lists : ℕ → (ℕ → ℕ) → (ℕ → Bool) → List ℕ → Type 0
Lists lanes key runs seen =
    Distinct seen × ((x : ℕ) → (contains x seen ≡ true) ↔ Hit lanes key runs x)

module _ (key : ℕ → ℕ) (runs : ℕ → Bool) where
  Hit-later : (k x : ℕ) → Hit k key runs x → Hit (suc k) key runs x
  Hit-later k x (lane, h, e, q) = (lane, omega arith, e, q)

  Lists-skip :
      (k : ℕ) (seen : List ℕ) → runs k ≡ false → Lists k key runs seen → Lists (suc k) key runs seen
  Lists-skip k seen idle (d, m) =
      (d, λ x. (λ c. Hit-later k x ((m x).0 c), λ hit. (m x).1 (earlier x hit)))
    where
      earlier : (x : ℕ) → Hit (suc k) key runs x → Hit k key runs x
      earlier x (lane, h, e, q) = elim (ℕ_discrete lane k) [
        | yes same ↦ cc (subst (λ l. runs l ≡ true) same e)
        | no other ↦ (lane, omega arith, e, q)
      ]

  Lists-note :
      (k : ℕ) (seen : List ℕ)
      → runs k ≡ true
      → Lists k key runs seen
      → Lists (suc k) key runs (note (key k) seen)
  Lists-note k seen busy (d, m) = (note-Distinct (key k) seen d, λ x. (found x, covered x))
    where
      found : (x : ℕ) → contains x (note (key k) seen) ≡ true → Hit (suc k) key runs x
      found x c = elim (Bool-cases (x == key k)) [
        | inl new ↦ (k, omega arith, busy, sym ((==_iff x (key k)).0 new))
        | inr old ↦ Hit-later k x ((m x).0 (ground (arith, c, contains-note x (key k) seen)))
      ]

      covered : (x : ℕ) → Hit (suc k) key runs x → contains x (note (key k) seen) ≡ true
      covered x (lane, h, e, q) = rw (contains-note x (key k) seen) (elim (ℕ_discrete lane k) [
        | yes same ↦ ground (arith, ap key same)
        | no other ↦ ground (arith, (m x).1 (lane, omega arith, e, q))
      ])

  pub Lists-step :
      (k : ℕ) (seen : List ℕ)
      → Lists k key runs seen
      → Lists (suc k) key runs (if runs k then note (key k) seen else seen)
  Lists-step k seen h = elim (Bool-cases (runs k)) [
    | inl busy ↦ rw busy (Lists-note k seen busy h)
    | inr idle ↦ rw idle (Lists-skip k seen idle h)
  ]

  pub Lists-none : Lists 0 key runs []
  unfolding contains
  Lists-none = (tt, λ x. (λ c. cc, λ (lane, h, e, q). absurd (omega arith)))
