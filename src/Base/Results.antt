-- ===== src/Base/Results.antt =====
-- Boolean tests on the native numbers, the conditional, the result type of include/warpsim/result.hpp.
use Prim.Native.Nat.{ℕ, ◌≤◌, ◌<◌, compare, Ordering}
use mathlib.Core.Path.{◌≡◌, refl}
use mathlib.Core.Logic.{◌↔◌, ◌⊎◌, inl, inr}
use mathlib.Core.Bool.{Bool, true, false}
use mathlib.Core.Option.{Option, none, some}
use native.Mathlib.Omega.{arith}

abbrev pub ltb : ℕ → ℕ → Bool
ltb a b = elim (compare a b) [ Ordering.lt ↦ true | _ ↦ false ]

abbrev pub leb : ℕ → ℕ → Bool
leb a b = elim (compare a b) [ Ordering.gt ↦ false | _ ↦ true ]

infix 50 ◌==◌
abbrev pub ◌==◌ : ℕ → ℕ → Bool
a == b = elim (compare a b) [ Ordering.eq ↦ true | _ ↦ false ]

infix 1 if◌then◌else◌
abbrev pub if◌then◌else◌ {ℓ} : {A : Type ℓ} → Bool → A → A → A
if true then x else y = x
if false then x else y = y

pub ltb→lt : (a b : ℕ) → ltb a b ≡ true → a < b
ltb→lt a b h = ground arith

pub lt→ltb : (a b : ℕ) → a < b → ltb a b ≡ true
lt→ltb a b h = ground arith

pub leb→le : (a b : ℕ) → leb a b ≡ true → a ≤ b
leb→le a b h = ground arith

pub ==_iff : (a b : ℕ) → ((a == b) ≡ true) ↔ (a ≡ b)
==_iff a b = ground arith

-- To split on a computed value and keep the equation.
pub Bool-cases : (b : Bool) → (b ≡ true) ⊎ (b ≡ false)
Bool-cases true = inl refl
Bool-cases false = inr refl

pub Option-cases {ℓ} : {A : Type ℓ} (o : Option A) → (o ≡ none) ⊎ ((a : A) × (o ≡ some a))
Option-cases none = inl refl
Option-cases (some a) = inr (a, refl)

-- `Result<T, E>`: a value or an error, and nothing else.
pub data Result {ℓ} (A E : Type ℓ) : Type ℓ where
  ok : A → Result A E
  fail : E → Result A E

-- Guard clauses: `if (b) return fail(e);`
abbrev pub fail_if {ℓ} : {E : Type ℓ} → Bool → E → Result (Unit {ℓ}) E
fail_if true reason = fail reason
fail_if false reason = ok tt

-- `if (auto r = f(); !r.has_value()) return fail(r.error());`
infixl 5 ◌>>=◌ ◌>>◌
abbrev pub ◌>>=◌ {ℓ} : {A B E : Type ℓ} → Result A E → (A → Result B E) → Result B E
fail reason >>= next = fail reason
ok result >>= next = next result

-- What a sequence that succeeds has gone through.
pub >>=-eq-ok {ℓ} :
    {A B E : Type ℓ} (first : Result A E) (next : A → Result B E) {b : B}
    → (first >>= next) ≡ ok b
    → (a : A) × (first ≡ ok a) × (next a ≡ ok b)
>>=-eq-ok (fail reason) next h = cc
>>=-eq-ok (ok result) next h = (result, refl, h)

-- A sequence whose first result is not used.
abbrev pub ◌>>◌ {ℓ} : {A B E : Type ℓ} → Result A E → Result B E → Result B E
first >> second = first >>= λ unused. second

pub Result-cases {ℓ} :
    {E : Type ℓ} (r : Result (Unit {ℓ}) E) → (r ≡ ok tt) ⊎ ((e : E) × (r ≡ fail e))
Result-cases (ok u) = inl refl
Result-cases (fail e) = inr (e, refl)

pub outcome {ℓ} :
    {A E : Type ℓ} (r : Result A E) → ((e : E) × (r ≡ fail e)) ⊎ ((a : A) × (r ≡ ok a))
outcome (fail e) = inl (e, refl)
outcome (ok a) = inr (a, refl)
