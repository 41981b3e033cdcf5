-- ===== src/Asm/Roundtrip/Guards.antt =====
-- Guards as src/asm/disassembler.cpp prints them and src/asm/lexer.cpp reads them.
use Prim.Native.String.{◌++◌ as ◌+++◌}
use text.Mathlib.TextLemmas.{nil-append, cons-append, append_assoc}
use warp_sim.Base.{ℕ, String, ◌≡◌, refl, Bool, true, false, List, [], ◌∷◌, if◌then◌else◌}
use warp_sim.Isa.Instruction.{Instruction, Guard}
use warp_sim.Asm.Lexer.{guard, is_ident_char, is_alpha, is_digit}
use warp_sim.Asm.Lexer.Words.{AllChars}
use warp_sim.Asm.Lexer.Pieces.{
  stays-Reads, Piece, Reads, Reads-trans, guard-Reads, negated_guard-Reads, space-Reads,
}
use warp_sim.Asm.Printing.{decimal_text, pred}
use warp_sim.Asm.Disassembler.{guard_text}
use warp_sim.Asm.Roundtrip.Texts.{Loose, one_char}
use warp_sim.Asm.Roundtrip.Numerals.{decimal-digits, digit-ident, AllChars-map}

-- What a guard is printed as, and the tokens it gives.
abbrev pub guard_pieces : Guard → List Piece
guard_pieces g = if g.present then (guard, pred g.pred, g.negate) ∷ [] else []

guard_word : (n : ℕ) → AllChars is_ident_char (String.◌∷◌ "p" (decimal_text n))
unfolding is_ident_char is_alpha
guard_word n =
    (refl, AllChars-map is_digit is_ident_char (decimal_text n) digit-ident (decimal-digits n))

pred-cons : (n : ℕ) → pred n ≡ String.◌∷◌ "p" (decimal_text n)
unfolding pred
pred-cons n = one_char "p" (decimal_text n)

at_guard :
    (n : ℕ) (rest : String)
    → Reads ("@" +++ (pred n +++ (" " +++ rest))) ((guard, pred n, false) ∷ []) rest
unfolding is_ident_char is_alpha is_digit
at_guard n rest =
    rw
      (
        pred-cons n,
        cons-append "p" (decimal_text n) (" " +++ rest),
        one_char "@" _,
        one_char " " rest,
      )
      (Reads-trans (guard-Reads (decimal_text n) (String.◌∷◌ " " rest) (guard_word n) refl)
        (space-Reads rest))

at_negated :
    (n : ℕ) (rest : String)
    → Reads ("@!" +++ (pred n +++ (" " +++ rest))) ((guard, pred n, true) ∷ []) rest
unfolding is_ident_char is_alpha is_digit
at_negated n rest =
    rw
      (
        pred-cons n,
        cons-append "p" (decimal_text n) (" " +++ rest),
        cons-append "@" "!" (String.◌∷◌ "p" (decimal_text n +++ (" " +++ rest))),
        one_char "!" (String.◌∷◌ "p" (decimal_text n +++ (" " +++ rest))),
        one_char " " rest,
      )
      (Reads-trans (negated_guard-Reads (decimal_text n) (String.◌∷◌ " " rest) (guard_word n) refl)
        (space-Reads rest))

guard_Loose :
    (first : String) (n : ℕ) (negate : Bool)
    → ((rest : String)
        → Reads (first +++ (pred n +++ (" " +++ rest))) ((guard, pred n, negate) ∷ []) rest)
    → Loose (first +++ (pred n +++ " ")) ((guard, pred n, negate) ∷ [])
guard_Loose first n negate h = record {
  reads = λ rest.
      rw (append_assoc first (pred n +++ " ") rest, append_assoc (pred n) " " rest) (h rest);
}

pub guard_text-Loose : (i : Instruction) → Loose (guard_text i) (guard_pieces i.guard)
unfolding guard_text
guard_text-Loose i = go i.guard.present i.guard.negate
  where
    go :
        (present negate : Bool)
        → Loose
            (if present then (if negate then "@!" else "@") +++ (pred i.guard.pred +++ " ") else "")
            (if present then (guard, pred i.guard.pred, negate) ∷ [] else [])
    go true true = guard_Loose "@!" i.guard.pred true (at_negated i.guard.pred)
    go true false = guard_Loose "@" i.guard.pred false (at_guard i.guard.pred)
    go false negate = record { reads = λ rest. rw (nil-append rest) (stays-Reads rest) }
