-- ===== src/Asm/Lexer/Total.antt =====
-- The loop of `run` in src/asm/lexer.cpp: that it comes to an end, and what it then returns.
use Prim.Native.Char.{Char, code}
use warp_sim.Base.{
  ℕ, zero, suc, String, ◌+◌, ◌<◌, ◌==◌, ◌≡◌, inl, inr, refl, ◌∙◌, ap, arith, subst, Bool, true,
  false, not, ◌&&◌, ◌||◌, Option, some, List, [], ◌∷◌, ◌++◌, Bool-cases, Result, ok, fail,
}
use warp_sim.Asm.Lexer.{
  AssemblyError, Token, TokenKind, newline, end_of_source, Scan, Lexed, advance, take_while,
  text_length, next_token, peek, make, Step, emitted, skipped, failed, lexed_step, scan_step,
  is_newline, ends_in_newline, close, lex_from, lex,
}
use warp_sim.Asm.Lexer.Words.{TextFits, WellFormed, Good, take_text-first, at_char}
use warp_sim.Asm.Lexer.Tokens.{next_token-Good}
use mathlib.Core.List.{append_assoc}

abbrev AllTokens : (Token → Type 0) → List Token → Type 0
AllTokens P [] = Unit {0}
AllTokens P (t ∷ ts) = P t × AllTokens P ts

-- Well-formed tokens, a newline, and the end of the source.
abbrev pub IsStream : List Token → Type 0
IsStream ts =
    (body : List Token) × (n : Token) × (e : Token) × (ts ≡ body ++ (n ∷ (e ∷ [])))
    × AllTokens WellFormed body
    × (n.kind ≡ newline)
    × (n.text ≡ "\n")
    × (e.kind ≡ end_of_source)
    × (e.text ≡ "")

abbrev Fine : ℕ → Step → Type 0
Fine n (emitted t s) = WellFormed t × (text_length s.rest < n)
Fine n (skipped s) = text_length s.rest < n
Fine n (failed e) = Unit {0}

AllTokens-snoc :
    (P : Token → Type 0) (ts : List Token) (t : Token)
    → AllTokens P ts
    → P t
    → AllTokens P (ts ++ (t ∷ []))
AllTokens-snoc P [] t h k = (k, tt)
AllTokens-snoc P (x ∷ ts) t (h0, h) k = (h0, AllTokens-snoc P ts t h k)

lexed_step-Fine : (n : ℕ) (r : Lexed) → Good n r → Fine n (lexed_step r)
lexed_step-Fine n (ok (t, s)) h = h
lexed_step-Fine n (fail e) h = tt

scan_step-Fine :
    (c : Char) (s : String) (line column : ℕ)
    → Fine (suc (text_length s)) (scan_step c (at_char c s line column))
unfolding scan_step advance
scan_step-Fine c s line column =
    let here = at_char c s line column in
    elim (Bool-cases (code c == b'\n')) [
      | inl e ↦ rw (scan_step, e) (refl, omega arith)
      | inr line' ↦ elim (Bool-cases (code c == b' ' || code c == b'\t' || code c == b'\r')) [
        | inl e ↦ rw (scan_step, line', e) (omega arith)
        | inr blank ↦ elim (Bool-cases (code c == b'/' && peek 1 here == b'/')) [
          | inl e ↦ rw (scan_step, line', blank, e) (comment line')
          | inr word ↦
              rw (scan_step, line', blank, word)
                (lexed_step-Fine _ (next_token c here) (next_token-Good c s line column))
        ]
      ]
    ]
  where
    comment :
        code c == b'\n' ≡ false
        → text_length (take_while (λ d. not (d == b'\n')) (at_char c s line column)).1.rest
          < suc (text_length s)
    comment h =
        let (some', first, shorter) =
          take_text-first (λ d. not (d == b'\n')) c s column (rw (h) refl) in
        unfold take_while in omega (arith, shorter)

kind_of :
    (k : TokenKind) → (elim k as (λ _. Bool) [ newline ↦ true | _ ↦ false ]) ≡ true → k ≡ newline
kind_of newline h = refl
kind_of _ h = ground (arith, h)

is_newline-kind : (t : Token) → is_newline t ≡ true → t.kind ≡ newline
is_newline-kind t h = kind_of t.kind h

newline-text : (t : Token) → t.kind ≡ newline → WellFormed t → t.text ≡ "\n"
newline-text t k w = subst (λ x. TextFits x t.text) k w

-- The list that ends in a newline, without it.
ends_in_newline-split :
    (ts : List Token)
    → ends_in_newline ts ≡ true
    → AllTokens WellFormed ts
    → (body : List Token) × (n : Token) × (ts ≡ body ++ (n ∷ []))
      × AllTokens WellFormed body
      × (n.kind ≡ newline)
      × (n.text ≡ "\n")
ends_in_newline-split [] h w = ground (arith, h)
ends_in_newline-split (t ∷ []) h (w, u) =
    let k = is_newline-kind t h in ([], t, refl, tt, k, newline-text t k w)
ends_in_newline-split (t ∷ (u ∷ ts)) h (w, ws) =
    let (body, n, e, v, k, x) = ends_in_newline-split (u ∷ ts) h ws in
    (t ∷ body, n, ap (λ l. t ∷ l) e, (w, v), k, x)

close-IsStream : (ts : List Token) (s : Scan) → AllTokens WellFormed ts → IsStream (close ts s)
unfolding close
close-IsStream ts s w = elim (Bool-cases (ends_in_newline ts)) [
  | inl e ↦
      let (body, n, f, v, k, x) = ends_in_newline-split ts e w in
      (
        body,
        n,
        make end_of_source "" s,
        rw (close, e) (ap (λ l. l ++ (make end_of_source "" s ∷ [])) f ∙ append_assoc body _ _),
        v,
        k,
        x,
        refl,
        refl,
      )
  | inr e ↦ (
    ts,
    make newline "\n" s,
    make end_of_source "" s,
    rw (close, e) (append_assoc ts _ _),
    w,
    refl,
    refl,
    refl,
    refl,
  )
]

-- What lexing gives, if it is no error.
abbrev pub Lexes : Result (List Token) AssemblyError → Type 0
Lexes (ok ts) = IsStream ts
Lexes (fail e) = Unit {0}

abbrev Ends : ℕ → List Token → Scan → Type 0
Ends fuel ts s =
    (r : Result (List Token) AssemblyError) × (lex_from fuel ts s.rest s.line s.column ≡ some r)
    × Lexes r

after_step-Ends :
    (fuel n : ℕ) (ts : List Token) (step : Step)
    → ((us : List Token) (s : Scan)
        → text_length s.rest < n
        → AllTokens WellFormed us
        → Ends fuel us s)
    → Fine n step
    → AllTokens WellFormed ts
    → (r : Result (List Token) AssemblyError) × (elim step
          as (λ _. Option (Result (List Token) AssemblyError)) [
            | emitted t next ↦ lex_from fuel (ts ++ (t ∷ [])) next.rest next.line next.column
            | skipped next ↦ lex_from fuel ts next.rest next.line next.column
            | failed e ↦ some (fail e)
          ]
        ≡ some r)
      × Lexes r
after_step-Ends fuel n ts (emitted t next) later (k, lt) w =
    later (ts ++ (t ∷ [])) next lt (AllTokens-snoc WellFormed ts t w k)
after_step-Ends fuel n ts (skipped next) later lt w = later ts next lt w
after_step-Ends fuel n ts (failed e) later h w = (fail e, refl, tt)

lex_from_lem :
    (fuel : ℕ) (ts : List Token) (s : String) (line column : ℕ)
    → text_length s < fuel
    → AllTokens WellFormed ts
    → Ends fuel ts (record { rest = s; line = line; column = column })
unfolding lex_from text_length
lex_from_lem zero ts s line column lt w = absurd (omega (arith, lt))
lex_from_lem (suc fuel) ts String.[] line column lt w =
    (ok _, refl, close-IsStream ts (record { rest = ""; line = line; column = column }) w)
lex_from_lem (suc fuel) ts (String.◌∷◌ c s) line column lt w =
    after_step-Ends fuel (suc (text_length s)) ts (scan_step c (at_char c s line column))
      (λ us next le k.
        lex_from_lem fuel us next.rest next.line next.column (omega (arith, lt, le)) k)
      (scan_step-Fine c s line column) w

-- Lexing ends on every source.
pub lex_total :
    (source : String) → (r : Result (List Token) AssemblyError) × (lex source ≡ some r) × Lexes r
unfolding lex
lex_total source = lex_from_lem (text_length source + 1) [] source 1 1 (omega arith) tt
