-- ===== src/Asm/Lexer/Pieces.antt =====
-- The tokens of the pieces of a printed text: spaces, punctuation, words and numbers, in front of any
-- text that does not continue them. src/asm/lexer.cpp.
use Prim.Native.Char.{Char, code}
use Prim.Native.String.{◌++◌ as ◌+++◌}
use text.Mathlib.TextLemmas.{nil-append, cons-append}
use warp_sim.Base.{
  ℕ, String, ◌≡◌, refl, sym, ◌∙◌, ap, arith, subst, Bool, true, false, List, [], ◌∷◌, ◌++◌, ok,
}
use warp_sim.Asm.Lexer.{
  TokenKind, Token, identifier, guard, special, comma, lbracket, rbracket, plus, minus, newline,
  Scan, emitted, scan_step, take_text, take_while, lexed_step, word_identifier, word_token,
  lex_number, lex_word, next_token, punctuation, is_ident_start, is_ident_char, is_digit, make,
  is_alpha, next_column, is_empty, advance,
}
use warp_sim.Asm.Lexer.Words.{AllChars}
use warp_sim.Asm.Lexer.Scanning.{at_text, Scans, stay, emits, skips, Scans-trans}

-- A token but for its place.
abbrev pub Piece : Type 0
Piece = TokenKind × String × Bool

abbrev pub IsPiece : Piece → Token → Type 0
IsPiece (kind, text, negate) t = (t.kind ≡ kind) × (t.text ≡ text) × (t.negate ≡ negate)

abbrev pub Shaped : List Piece → List Token → Type 0
Shaped [] [] = Unit {0}
Shaped [] (t ∷ ts) = ⊥
Shaped (p ∷ ps) [] = ⊥
Shaped (p ∷ ps) (t ∷ ts) = IsPiece p t × Shaped ps ts

Shaped-append :
    (ps qs : List Piece) (ts us : List Token)
    → Shaped ps ts
    → Shaped qs us
    → Shaped (ps ++ qs) (ts ++ us)
Shaped-append [] qs [] us h k = k
Shaped-append [] qs (t ∷ ts) us h k = absurd h
Shaped-append (p ∷ ps) qs [] us h k = absurd h
Shaped-append (p ∷ ps) qs (t ∷ ts) us (h, hs) k = (h, Shaped-append ps qs ts us hs k)

-- Wherever the text a stands, the lexer comes from it to the text b, with tokens as described.
pub record Reads (a : String) (ps : List Piece) (b : String) : Type 0 where
  pub scans :
      (line column : ℕ)
      → (ts : List Token) × (end : Scan) × Scans (at_text a line column) ts end
        × (end.rest ≡ b)
        × Shaped ps ts

pub Reads-trans :
    {a b c : String} {ps qs : List Piece} → Reads a ps b → Reads b qs c → Reads a (ps ++ qs) c
Reads-trans {a = a} {b = b} {c = c} {ps = ps} {qs = qs} p q = record {
  scans = λ line column.
      let (ts, end, run, e, shaped) = p.scans line column in
      let (us, last, run', f, shaped') = q.scans end.line end.column in
      let moved : Scans end us last =
        subst (λ (x : String). Scans (at_text x end.line end.column) us last) (sym e) run' in
      (ts ++ us, last, Scans-trans run moved, f, Shaped-append ps qs ts us shaped shaped');
}

-- Nothing is read.
pub stays-Reads : (rest : String) → Reads rest [] rest
stays-Reads rest = record { scans = λ line column. ([], at_text rest line column, stay, refl, tt) }

pub one_token :
    (c : Char) (rest after : String) (p : Piece)
    → ((line column : ℕ)
        → (t : Token) × (next : Scan) × (scan_step c (at_text (String.◌∷◌ c rest) line column)
            ≡ emitted t next)
          × (next.rest ≡ after)
          × IsPiece p t)
    → Reads (String.◌∷◌ c rest) (p ∷ []) after
one_token c rest after p h = record {
  scans = λ line column.
      let (t, next, step, e, is) = h line column in (t ∷ [], next, emits step stay, e, (is, tt));
}

pub space-Reads : (rest : String) → Reads (String.◌∷◌ " " rest) [] rest
unfolding scan_step
space-Reads rest = record {
  scans = λ line column. ([], at_text rest line (next_column column), skips refl stay, refl, tt);
}

module _ (rest : String) where
  pub comma-Reads : Reads (String.◌∷◌ "," rest) ((comma, ",", false) ∷ []) rest
  unfolding scan_step next_token punctuation
  comma-Reads = one_token "," rest rest _ λ line column. (_, _, refl, refl, (refl, refl, refl))

  pub lbracket-Reads : Reads (String.◌∷◌ "[" rest) ((lbracket, "[", false) ∷ []) rest
  unfolding scan_step next_token punctuation
  lbracket-Reads = one_token "[" rest rest _ λ line column. (_, _, refl, refl, (refl, refl, refl))

  pub rbracket-Reads : Reads (String.◌∷◌ "]" rest) ((rbracket, "]", false) ∷ []) rest
  unfolding scan_step next_token punctuation
  rbracket-Reads = one_token "]" rest rest _ λ line column. (_, _, refl, refl, (refl, refl, refl))

  pub plus-Reads : Reads (String.◌∷◌ "+" rest) ((plus, "+", false) ∷ []) rest
  unfolding scan_step next_token punctuation
  plus-Reads = one_token "+" rest rest _ λ line column. (_, _, refl, refl, (refl, refl, refl))

  pub minus-Reads : Reads (String.◌∷◌ "-" rest) ((minus, "-", false) ∷ []) rest
  unfolding scan_step next_token punctuation
  minus-Reads = one_token "-" rest rest _ λ line column. (_, _, refl, refl, (refl, refl, refl))

  pub newline-Reads : Reads (String.◌∷◌ "\n" rest) ((newline, "\n", false) ∷ []) rest
  unfolding scan_step
  newline-Reads = one_token "\n" rest rest _ λ line column. (_, _, refl, refl, (refl, refl, refl))

-- The text does not go on with a character that passes.
abbrev pub Stops : (ℕ → Bool) → String → Type 0
Stops test String.[] = Unit {0}
Stops test (String.◌∷◌ c s) = test (code c) ≡ false

pub take_text-word :
    (test : ℕ → Bool) (w rest : String) (column : ℕ)
    → AllChars test w
    → Stops test rest
    → (last : ℕ) × (take_text test (w +++ rest) column ≡ (w, rest, last))
unfolding take_text
take_text-word test String.[] String.[] column all stops = (column, rw (nil-append "") refl)
take_text-word test String.[] (String.◌∷◌ c s) column all stops =
    (column, rw (nil-append (String.◌∷◌ c s), take_text, stops) refl)
take_text-word test (String.◌∷◌ c w) rest column (h, hs) stops =
    let (last, e) = take_text-word test w rest (next_column column) hs stops in
    (last, rw (cons-append c w rest, take_text, e, h) refl)

-- The text of an identifier.
abbrev pub IsIdent : String → Type 0
IsIdent String.[] = ⊥
IsIdent (String.◌∷◌ c s) =
    (is_ident_start (code c) ≡ true) × AllChars is_ident_char (String.◌∷◌ c s)

letter_step :
    (c : Char) (s : Scan)
    → is_ident_start (code c) ≡ true
    → scan_step c s ≡ lexed_step (word_identifier s)
unfolding scan_step next_token punctuation lex_word is_ident_start is_alpha
letter_step c s h = ground (arith, h)

pub digit_step :
    (c : Char) (s : Scan) → is_digit (code c) ≡ true → scan_step c s ≡ lexed_step (lex_number s)
unfolding scan_step next_token punctuation lex_word is_ident_start is_alpha is_digit
digit_step c s h = ground (arith, h)

pub take_text-cons :
    (test : ℕ → Bool) (c : Char) (w rest : String) (column : ℕ)
    → AllChars test (String.◌∷◌ c w)
    → Stops test rest
    → (last : ℕ) × (take_text test (String.◌∷◌ c (w +++ rest)) column
        ≡ (String.◌∷◌ c w, rest, last))
take_text-cons test c w rest column all stops =
    let (last, e) = take_text-word test (String.◌∷◌ c w) rest column all stops in
    (
      last,
      subst (λ (x : String). take_text test x column ≡ (String.◌∷◌ c w, rest, last))
          (cons-append c w rest) e,
    )

pub identifier-Reads :
    (w rest : String)
    → IsIdent w
    → Stops is_ident_char rest
    → Reads (w +++ rest) ((identifier, w, false) ∷ []) rest
identifier-Reads String.[] rest h stops = absurd h
identifier-Reads (String.◌∷◌ c w) rest (h, all) stops = rw (cons-append c w rest) (
    one_token c (w +++ rest) rest _ λ line column.
      let (last, e) = take_text-cons is_ident_char c w rest column all stops in
      (
        make identifier (String.◌∷◌ c w) (at_text (String.◌∷◌ c (w +++ rest)) line column),
        at_text rest line last,
        letter_step c (at_text (String.◌∷◌ c (w +++ rest)) line column) h
            ∙ unfold word_identifier take_while in rw e refl,
        refl,
        (refl, refl, refl),
      ))

-- The word after `@`, `%` or `.`.
word-Reads :
    (kind : TokenKind) (negate : Bool) (first message : String) (at s : Scan) (w rest : String)
    → (is_empty w ≡ false)
    → AllChars is_ident_char w
    → Stops is_ident_char rest
    → s.rest ≡ w +++ rest
    → (t : Token) × (next : Scan) × (word_token kind negate first message at s ≡ ok (t, next))
      × (next.rest ≡ rest)
      × IsPiece (kind, first +++ w, negate) t
unfolding word_token take_while
word-Reads kind negate first message at s w rest full all stops e =
    let (last, f) = take_text-word is_ident_char w rest s.column all stops in
    (
      record (make kind (first +++ w) at) { negate = negate },
      record s { rest = rest; column = last },
      rw (e, f, full) refl,
      refl,
      (refl, refl, refl),
    )

pub special-Reads :
    (w rest : String)
    → is_empty w ≡ false
    → AllChars is_ident_char w
    → Stops is_ident_char rest
    → Reads (String.◌∷◌ "%" (w +++ rest)) ((special, "%" +++ w, false) ∷ []) rest
unfolding scan_step next_token punctuation lex_word advance
special-Reads w rest full all stops = one_token "%" (w +++ rest) rest _ λ line column.
    let s = at_text (String.◌∷◌ "%" (w +++ rest)) line column in
    let (t, next, e, r, is) =
      word-Reads special false "%" "expected a special register name after '%'" s (advance s) w rest
        full all stops refl in
    (t, next, ap lexed_step e, r, is)

-- A guard with a predicate, negated or not.
module _ (d rest : String) (all : AllChars is_ident_char (String.◌∷◌ "p" d))
    (stops : Stops is_ident_char rest) where
  abbrev predicate : String
  predicate = String.◌∷◌ "p" (d +++ rest)

  predicate_word :
      (negate : Bool) (at s : Scan)
      → s.rest ≡ predicate
      → (t : Token) × (next : Scan) × (word_token guard negate ""
            "expected a predicate register after '@'" at s
          ≡ ok (t, next))
        × (next.rest ≡ rest)
        × IsPiece (guard, String.◌∷◌ "p" d, negate) t
  predicate_word negate at s e =
      let (t, next, f, r, (k, x, n)) =
        word-Reads guard negate "" "expected a predicate register after '@'" at s (String.◌∷◌ "p" d)
          rest refl all stops (e ∙ sym (cons-append "p" d rest)) in
      (t, next, f, r, (k, x ∙ nil-append (String.◌∷◌ "p" d), n))

  pub guard-Reads : Reads (String.◌∷◌ "@" predicate) ((guard, String.◌∷◌ "p" d, false) ∷ []) rest
  unfolding scan_step next_token punctuation lex_word advance
  guard-Reads = one_token "@" predicate rest _ λ line column.
      let s = at_text (String.◌∷◌ "@" predicate) line column in
      let (t, next, e, r, is) = predicate_word false s (advance s) refl in
      (t, next, ap lexed_step e, r, is)

  pub negated_guard-Reads :
      Reads (String.◌∷◌ "@" (String.◌∷◌ "!" predicate)) ((guard, String.◌∷◌ "p" d, true) ∷ []) rest
  unfolding scan_step next_token punctuation lex_word advance
  negated_guard-Reads = one_token "@" (String.◌∷◌ "!" predicate) rest _ λ line column.
      let s = at_text (String.◌∷◌ "@" (String.◌∷◌ "!" predicate)) line column in
      let (t, next, e, r, is) = predicate_word true s (advance (advance s)) refl in
      (t, next, ap lexed_step e, r, is)
