-- ===== src/Asm/Lexer/Sources.antt =====
-- How the tokens of src/asm/lexer.cpp spell the source: each takes a piece of it, and what no token
-- takes is blanks and comments.
use Prim.Native.Char.{Char, code}
use mathlib.Core.List.{append_assoc, append-nil}
use warp_sim.Base.{
  ℕ, zero, suc, String, ◌==◌, ==_iff, ◌≡◌, ◌⊎◌, inl, inr, refl, sym, ◌∙◌, ap, arith, Bool, true,
  not, ◌&&◌, ◌||◌, List, [], ◌∷◌, ◌++◌, Bool-cases, Result, ok, fail, subst, some, Option,
}
use warp_sim.Asm.Lexer.Words.{at_char}
use warp_sim.Asm.Lexer.{
  AssemblyError, newline, end_of_source, Token, Scan, Lexed, advance, make, take_text, take_while,
  next_token, peek, code_at, Step, emitted, skipped, failed, lexed_step, scan_step, lex_from, close,
  ends_in_newline, next_column,
}
use warp_sim.Asm.Lexer.Codes.{codes, Spells, AllCodes, IsSkipped, take_while-codes}
use warp_sim.Asm.Lexer.Numbers.{Took}
use warp_sim.Asm.Lexer.Pieced.{next_token-Took}

-- One round of the loop, and the piece that it takes.
abbrev TookStep : Scan → Step → Type 0
TookStep here (emitted t s) = (p : List ℕ) × (codes here.rest ≡ p ++ codes s.rest) × Spells t p
TookStep here (skipped s) = (p : List ℕ) × (codes here.rest ≡ p ++ codes s.rest) × IsSkipped p
TookStep here (failed e) = Unit {0}

lexed_step-TookStep : (here : Scan) (r : Lexed) → Took here r → TookStep here (lexed_step r)
lexed_step-TookStep here (ok (t, s)) h = h
lexed_step-TookStep here (fail e) h = tt

-- The piece that a `take_while` from a first character takes begins with it.
AllCodes-take :
    (pred : ℕ → Bool) (s : String) (column : ℕ) → AllCodes pred (codes (take_text pred s column).0)
unfolding take_text
AllCodes-take pred String.[] column = tt
AllCodes-take pred (String.◌∷◌ c s) column = elim (Bool-cases (pred (code c))) [
  | inl e ↦ rw (take_text, e) (e, AllCodes-take pred s _)
  | inr e ↦ rw (take_text, e) tt
]

-- A text that begins with two characters that pass.
two_taken :
    (pred : ℕ → Bool) (k l : ℕ) (rest : String) (column : ℕ)
    → code_at 0 rest == suc k ≡ true
    → code_at 1 rest == suc l ≡ true
    → pred (suc k) ≡ true
    → pred (suc l) ≡ true
    → (w : List ℕ) × (codes (take_text pred rest column).0 ≡ suc k ∷ (suc l ∷ w)) × AllCodes pred w
unfolding take_text
two_taken pred k l String.[] column a b p q = absurd (ground (arith, a))
two_taken pred k l (String.◌∷◌ c String.[]) column a b p q = absurd (ground (arith, b))
two_taken pred k l (String.◌∷◌ c (String.◌∷◌ d s)) column a b p q =
    let first : code c ≡ suc k = (==_iff (code c) (suc k)).0 a in
    let second : code d ≡ suc l = (==_iff (code d) (suc l)).0 b in
    let fits : pred (code c) ≡ true = ap pred first ∙ p in
    let fits' : pred (code d) ≡ true = ap pred second ∙ q in
    rw (take_text, fits, fits')
      (
        codes (take_text pred s (next_column (next_column column))).0,
        rw (first, second) refl,
        AllCodes-take pred s _,
      )

scan_step-TookStep :
    (c : Char) (s : String) (line column : ℕ)
    → TookStep (at_char c s line column) (scan_step c (at_char c s line column))
unfolding scan_step advance
scan_step-TookStep c s line column =
    let here = at_char c s line column in
    elim (Bool-cases (code c == b'\n')) [
      | inl e ↦
          rw (scan_step, e) (code c ∷ [], refl, ap (λ k. k ∷ []) ((==_iff (code c) b'\n').0 e))
      | inr line' ↦ elim (Bool-cases (code c == b' ' || code c == b'\t' || code c == b'\r')) [
        | inl e ↦ rw (scan_step, line', e) (code c ∷ [], refl, inl (code c, refl, e))
        | inr blank ↦ elim (Bool-cases (code c == b'/' && peek 1 here == b'/')) [
          | inl e ↦
              rw (scan_step, line', blank, e) (comment (ground (arith, e)) (ground (arith, e)))
          | inr word ↦
              rw (scan_step, line', blank, word)
                (lexed_step-TookStep here (next_token c here) (next_token-Took c s line column))
        ]
      ]
    ]
  where
    comment :
        peek 0 (at_char c s line column) == b'/' ≡ true
        → peek 1 (at_char c s line column) == b'/' ≡ true
        → TookStep
            (at_char c s line column)
            (skipped (take_while (λ d. not (d == b'\n')) (at_char c s line column)).1)
    comment a b =
        let (w, e, all) =
          two_taken (λ d. not (d == b'\n')) 46 46 (String.◌∷◌ c s) column a b refl refl in
        (
          codes (take_while (λ d. not (d == b'\n')) (at_char c s line column)).0,
          take_while-codes (λ d. not (d == b'\n')) (at_char c s line column),
          inr (w, (unfold take_while in e), all),
        )

-- How tokens spell a source: each takes a piece, in order, and what lies between the pieces is blanks
-- and comments.
pub data Spelling : List ℕ → List Token → Type 0 where
  ends : Spelling [] []
  token :
      {t : Token} {ts : List Token} (piece rest : List ℕ)
      → Spells t piece
      → Spelling rest ts
      → Spelling (piece ++ rest) (t ∷ ts)
  skip :
      {ts : List Token} (piece rest : List ℕ)
      → IsSkipped piece
      → Spelling rest ts
      → Spelling (piece ++ rest) ts

returned :
    {x y : List Token}
    → ◌≡◌ {A = Option (Result (List Token) AssemblyError)} (some (ok x)) (some (ok y))
    → x ≡ y
returned h = cc (h)

-- Tokens that spell a text are added to those before, and then the end.
abbrev Adds : List Token → List ℕ → List Token → Type 0
Adds tokens text out =
    (added : List Token) × (end : Scan) × Spelling text added × (out ≡ close (tokens ++ added) end)

-- The tokens of a source, and behind them the end, or a newline and the end.
abbrev pub Closes : List Token → List Token → Type 0
Closes added ts =
    ((e : Token) × (ts ≡ added ++ (e ∷ [])))
    ⊎ ((n : Token) × (e : Token) × (ts ≡ added ++ (n ∷ (e ∷ []))))

close-Closes : (added : List Token) (s : Scan) → Closes added (close added s)
unfolding close
close-Closes added s = elim (Bool-cases (ends_in_newline added)) [
  | inl e ↦ inl (make end_of_source "" s, rw (close, e) refl)
  | inr e ↦
      inr (make newline "\n" s, make end_of_source "" s, rw (close, e) (append_assoc added _ _))
]

-- What lexing gives spells the source, if it is no error.
abbrev pub Spelled : String → Result (List Token) AssemblyError → Type 0
Spelled source (ok ts) = (added : List Token) × Spelling (codes source) added × Closes added ts
Spelled source (fail e) = Unit {0}

-- If the loop returns tokens, those that it adds before the end spell the rest of the source.
lex_from-Spelling :
    (fuel : ℕ) (tokens : List Token) (s : String) (line column : ℕ) {out : List Token}
    → lex_from fuel tokens s line column ≡ some (ok out)
    → Adds tokens (codes s) out
unfolding lex_from
lex_from-Spelling zero tokens s line column {out} h = absurd (cc (h))
lex_from-Spelling (suc fuel) tokens String.[] line column {out} h = (
  [],
  record { rest = ""; line = line; column = column },
  ends,
  sym (returned h)
      ∙ ap (λ l. close l (record { rest = ""; line = line; column = column }))
          (sym (append-nil tokens)),
)
lex_from-Spelling (suc fuel) tokens (String.◌∷◌ c s) line column {out} h =
    after (λ us next k. lex_from-Spelling fuel us next.rest next.line next.column {out = out} k)
      (scan_step c (at_char c s line column)) (scan_step-TookStep c s line column) h
  where
    after :
        ((us : List Token) (next : Scan)
          → lex_from fuel us next.rest next.line next.column ≡ some (ok out)
          → Adds us (codes next.rest) out)
        → (step : Step) → TookStep (at_char c s line column) step
        → ◌≡◌ {A = Option (Result (List Token) AssemblyError)}
            (elim step [
              | emitted t next ↦ lex_from fuel (tokens ++ (t ∷ [])) next.rest next.line next.column
              | skipped next ↦ lex_from fuel tokens next.rest next.line next.column
              | failed e ↦ some (fail e)
            ])
            (some (ok out))
        → Adds tokens (code c ∷ codes s) out
    after later (emitted t next) (p, e, spells) k =
        let (added, end, spelling, same) = later (tokens ++ (t ∷ [])) next k in
        (
          t ∷ added,
          end,
          subst (λ l. Spelling l (t ∷ added)) (sym e) (token p (codes next.rest) spells spelling),
          same ∙ ap (λ l. close l end) (append_assoc tokens (t ∷ []) added),
        )
    after later (skipped next) (p, e, blank) k =
        let (added, end, spelling, same) = later tokens next k in
        (
          added,
          end,
          subst (λ l. Spelling l added) (sym e) (skip p (codes next.rest) blank spelling),
          same,
        )
    after later (failed e) t k = absurd (cc (k))

pub lex_from-Spelled :
    (fuel : ℕ) (source : String) (r : Result (List Token) AssemblyError)
    → lex_from fuel [] source 1 1 ≡ some r
    → Spelled source r
lex_from-Spelled fuel source (ok ts) h =
    let (added, end, spelling, same) = lex_from-Spelling fuel [] source 1 1 {out = ts} h in
    (added, spelling, subst (Closes added) (sym same) (close-Closes added end))
lex_from-Spelled fuel source (fail e) h = tt
