-- ===== src/Asm/Lexer/Codes.antt =====
-- The characters of a source (src/asm/lexer.cpp) as codes, and which of them a token is read from.
use Prim.Native.Char.{code}
use Prim.Native.String.{◌++◌ as ◌+++◌}
use text.Mathlib.TextLemmas.{nil-append, cons-append}
use mathlib.Core.List.{append_assoc, append-nil, map, map-append}
use warp_sim.Base.{
  ℕ, suc, String, ◌==◌, ==_iff, ◌≡◌, ◌⊎◌, inl, inr, refl, sym, ◌∙◌, ap, arith, if◌then◌else◌, Bool,
  true, not, ◌||◌, List, [], ◌∷◌, ◌++◌, Bool-cases,
}
use warp_sim.Asm.Lexer.{
  guard, integer, float, Token, Scan, tail_of, advance, take_text, take_while, peek, code_at,
}

abbrev pub codes : String → List ℕ
codes String.[] = []
codes (String.◌∷◌ c s) = code c ∷ codes s

-- `E` and `X` as `e` and `x`.
abbrev pub lower : ℕ → ℕ
lower k = if k == b'E' then b'e' else if k == b'X' then b'x' else k

-- The characters that a token is read from. A number keeps them but for the case of `e` and `x`.
abbrev pub Spells : Token → List ℕ → Type 0
Spells t piece = elim t.kind [
  | guard ↦ piece ≡ b'@' ∷ ((if t.negate then b'!' ∷ [] else []) ++ codes t.text)
  | integer ↦ map lower piece ≡ map lower (codes t.text)
  | float ↦ map lower piece ≡ map lower (codes t.text)
  | _ ↦ piece ≡ codes t.text
]

abbrev pub AllCodes : (ℕ → Bool) → List ℕ → Type 0
AllCodes pred [] = Unit {0}
AllCodes pred (k ∷ ks) = (pred k ≡ true) × AllCodes pred ks

-- A blank, or a comment up to the end of its line.
abbrev pub IsSkipped : List ℕ → Type 0
IsSkipped piece =
    ((k : ℕ) × (piece ≡ k ∷ []) × ((k == b' ' || k == b'\t' || k == b'\r') ≡ true))
    ⊎ ((w : List ℕ) × (piece ≡ b'/' ∷ (b'/' ∷ w)) × AllCodes (λ d. not (d == b'\n')) w)

pub codes-append : (s t : String) → codes (s +++ t) ≡ codes s ++ codes t
codes-append String.[] t = ap codes (nil-append t)
codes-append (String.◌∷◌ c s) t =
    ap codes (cons-append c s t) ∙ ap (λ l. code c ∷ l) (codes-append s t)

take_text-codes :
    (pred : ℕ → Bool) (s : String) (column : ℕ)
    → codes s ≡ codes (take_text pred s column).0 ++ codes (take_text pred s column).1
unfolding take_text
take_text-codes pred String.[] column = refl
take_text-codes pred (String.◌∷◌ c s) column = elim (Bool-cases (pred (code c))) [
  | inl e ↦ rw (take_text, e) (ap (λ l. code c ∷ l) (take_text-codes pred s _))
  | inr e ↦ rw (take_text, e) refl
]

pub take_while-codes :
    (pred : ℕ → Bool) (s : Scan)
    → codes s.rest ≡ codes (take_while pred s).0 ++ codes (take_while pred s).1.rest
unfolding take_while
take_while-codes pred s = take_text-codes pred s.rest s.column

tail_of-codes :
    (k : ℕ) (s : String) → code_at 0 s == suc k ≡ true → codes s ≡ suc k ∷ codes (tail_of s)
tail_of-codes k String.[] h = absurd (ground (arith, h))
tail_of-codes k (String.◌∷◌ c s) h = ap (λ x. x ∷ codes s) ((==_iff (code c) (suc k)).0 h)

pub advance-codes :
    (k : ℕ) (s : Scan) → peek 0 s == suc k ≡ true → codes s.rest ≡ suc k ∷ codes (advance s).rest
unfolding advance
advance-codes k s h = tail_of-codes k s.rest h

abbrev pub lowered : String → List ℕ
lowered s = map lower (codes s)

-- From the text and place before a part of a number to those after it.
abbrev pub Grows : String → Scan → String → Scan → Type 0
Grows text s t after =
    (p : List ℕ) × (codes s.rest ≡ p ++ codes after.rest)
    × (lowered t ≡ lowered text ++ map lower p)

pub lowered-append : (s t : String) → lowered (s +++ t) ≡ lowered s ++ lowered t
lowered-append s t = ap (map lower) (codes-append s t) ∙ map-append lower (codes s) (codes t)

pub Grows-refl : (text : String) (s : Scan) → Grows text s text s
Grows-refl text s = ([], refl, sym (append-nil _))

pub Grows-trans : (a b c : String) (x y z : Scan) → Grows a x b y → Grows b y c z → Grows a x c z
Grows-trans a b c x y z (p, e, f) (q, g, h) = (
  p ++ q,
  e ∙ (ap (λ l. p ++ l) g ∙ sym (append_assoc p q _)),
  h
      ∙ (ap (λ l. l ++ map lower q) f
          ∙ (append_assoc (lowered a) (map lower p) (map lower q)
              ∙ ap (λ l. lowered a ++ l) (sym (map-append lower p q)))),
)

-- One character with its text.
pub Grows-one :
    (text mark : String) (s : Scan) (k : ℕ)
    → peek 0 s == suc k ≡ true
    → lowered mark ≡ lower (suc k) ∷ []
    → Grows text s (text +++ mark) (advance s)
Grows-one text mark s k h e =
    (suc k ∷ [], advance-codes k s h, lowered-append text mark ∙ ap (λ l. lowered text ++ l) e)

pub Grows-while :
    (text : String) (pred : ℕ → Bool) (s : Scan)
    → Grows text s (text +++ (take_while pred s).0) (take_while pred s).1
Grows-while text pred s =
    (codes (take_while pred s).0, take_while-codes pred s, lowered-append text _)
