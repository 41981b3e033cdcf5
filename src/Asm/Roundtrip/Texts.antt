-- ===== src/Asm/Roundtrip/Texts.antt =====
-- The texts that src/asm/disassembler.cpp prints, as the lexer reads them.
use Prim.Native.Char.{Char, code}
use Prim.Native.String.{◌++◌ as ◌+++◌}
use text.Mathlib.TextLemmas.{nil-append, cons-append, append_assoc}
use warp_sim.Base.{◌==◌, String, ◌≡◌, refl, ◌∙◌, ap, subst, false, List, [], ◌∷◌, ◌++◌}
use warp_sim.Asm.Operands.{kind_number}
use warp_sim.Asm.Lexer.{
  colon, comma, lbracket, rbracket, plus, minus, is_digit, is_ident_char, is_alpha,
}
use warp_sim.Asm.Lexer.Pieces.{
  Piece, Reads, Reads-trans, Stops, space-Reads, comma-Reads, lbracket-Reads, rbracket-Reads,
  plus-Reads, minus-Reads,
}

-- The first token is no colon.
abbrev pub NoColon : List Piece → Type 0
NoColon [] = Unit {0}
NoColon ((kind, text, negate) ∷ ps) = (kind_number kind == kind_number colon) ≡ false

pub NoColon-comma : (ps qs : List Piece) → NoColon ps → NoColon (ps ++ ((comma, ",", false) ∷ qs))
NoColon-comma [] qs h = refl
NoColon-comma (p ∷ ps) qs h = h

-- A text after which no word goes on.
abbrev pub Boundary : String → Type 0
Boundary rest = Stops is_ident_char rest

-- A text that gives these tokens in front of a boundary.
pub record Text (a : String) (ps : List Piece) : Type 0 where
  pub reads : (rest : String) → Boundary rest → Reads (a +++ rest) ps rest

-- One that gives them in front of any text.
pub record Loose (a : String) (ps : List Piece) : Type 0 where
  pub reads : (rest : String) → Reads (a +++ rest) ps rest

-- A text that is a boundary.
abbrev pub Marks : String → Type 0
Marks a = (rest : String) → Boundary (a +++ rest)

pub Loose-Text :
    {a b : String} {ps qs : List Piece} → Loose a ps → Text b qs → Text (a +++ b) (ps ++ qs)
Loose-Text {a = a} {b = b} p q = record {
  reads =
      λ rest k. rw (append_assoc a b rest) (Reads-trans (p.reads (b +++ rest)) (q.reads rest k));
}

pub Text-Marks :
    {a b : String} {ps qs : List Piece}
    → Text a ps
    → Marks b
    → Text b qs
    → Text (a +++ b) (ps ++ qs)
Text-Marks {a = a} {b = b} p m q = record {
  reads = λ rest k.
      rw (append_assoc a b rest) (Reads-trans (p.reads (b +++ rest) (m rest)) (q.reads rest k));
}

Loose-Loose :
    {a b : String} {ps qs : List Piece} → Loose a ps → Loose b qs → Loose (a +++ b) (ps ++ qs)
Loose-Loose {a = a} {b = b} p q = record {
  reads = λ rest. rw (append_assoc a b rest) (Reads-trans (p.reads (b +++ rest)) (q.reads rest));
}

pub one_char : (c : Char) (rest : String) → String.◌∷◌ c "" +++ rest ≡ String.◌∷◌ c rest
one_char c rest = cons-append c "" rest ∙ ap (λ (s : String). String.◌∷◌ c s) (nil-append rest)

char-Loose :
    (c : Char) (ps : List Piece)
    → ((rest : String) → Reads (String.◌∷◌ c rest) ps rest)
    → Loose (String.◌∷◌ c "") ps
char-Loose c ps h = record { reads = λ rest. rw (one_char c rest) (h rest) }

char-Marks :
    (c : Char) (b : String) → is_ident_char (code c) ≡ false → Marks (String.◌∷◌ c "" +++ b)
char-Marks c b e rest = rw (append_assoc (String.◌∷◌ c "") b rest, one_char c (b +++ rest)) e

pub space-Loose : Loose " " []
space-Loose = char-Loose " " [] space-Reads

comma-Loose : Loose "," ((comma, ",", false) ∷ [])
comma-Loose = char-Loose "," _ comma-Reads

pub lbracket-Loose : Loose "[" ((lbracket, "[", false) ∷ [])
lbracket-Loose = char-Loose "[" _ lbracket-Reads

pub rbracket-Loose : Loose "]" ((rbracket, "]", false) ∷ [])
rbracket-Loose = char-Loose "]" _ rbracket-Reads

pub plus-Loose : Loose "+" ((plus, "+", false) ∷ [])
plus-Loose = char-Loose "+" _ plus-Reads

pub minus-Loose : Loose "-" ((minus, "-", false) ∷ [])
minus-Loose = char-Loose "-" _ minus-Reads

comma_space : "," +++ " " ≡ ", "
comma_space = refl

separator-Loose : Loose ", " ((comma, ",", false) ∷ [])
separator-Loose =
    subst (λ (s : String). Loose s ((comma, ",", false) ∷ [])) comma_space
      (Loose-Loose comma-Loose space-Loose)

separator-Marks : (b : String) → Marks (", " +++ b)
unfolding is_ident_char is_alpha is_digit
separator-Marks b rest =
    subst (λ (s : String). Boundary ((s +++ b) +++ rest)) comma_space
      (rw (append_assoc "," " " b) (char-Marks "," (" " +++ b) refl rest))

-- A list of two.
pub listed :
    {a b : String} {ps qs : List Piece}
    → Text a ps
    → Text b qs
    → Text (a +++ (", " +++ b)) (ps ++ ((comma, ",", false) ∷ qs))
listed {b = b} p q = Text-Marks p (separator-Marks b) (Loose-Text separator-Loose q)

pub Loose-any : {a : String} {ps : List Piece} → Loose a ps → Text a ps
Loose-any p = record { reads = λ rest k. p.reads rest }

pub rbracket-Marks : Marks "]"
unfolding is_ident_char is_alpha is_digit
rbracket-Marks rest = rw (one_char "]" rest) refl

pub plus-Marks : (b : String) → Marks ("+" +++ b)
unfolding is_ident_char is_alpha is_digit
plus-Marks b = char-Marks "+" b refl

pub minus-Marks : (b : String) → Marks ("-" +++ b)
unfolding is_ident_char is_alpha is_digit
minus-Marks b = char-Marks "-" b refl

pub space-Marks : (b : String) → Marks (" " +++ b)
unfolding is_ident_char is_alpha is_digit
space-Marks b = char-Marks " " b refl
