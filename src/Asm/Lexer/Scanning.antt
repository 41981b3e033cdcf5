-- ===== src/Asm/Lexer/Scanning.antt =====
-- Runs of the loop of `Lexer::run` in src/asm/lexer.cpp, and the tokens of one text in front of another.
use Prim.Native.Char.{Char}
use warp_sim.Base.{
  ℕ, zero, suc, String, ◌≡◌, refl, sym, ◌∙◌, ap, subst, some, List, [], ◌∷◌, ◌++◌, Result, ok,
}
use mathlib.Core.Option.{some-injective}
use warp_sim.Asm.Lexer.{AssemblyError, Token, Scan, emitted, skipped, scan_step, close, lex_from}

abbrev pub at_text : String → ℕ → ℕ → Scan
at_text rest line column = record { rest = rest; line = line; column = column }

-- Rounds of the loop, with the tokens that they emit.
pub data Scans : Scan → List Token → Scan → Type 0 where
  stay : {s : Scan} → Scans s [] s
  emits :
      {c : Char} {rest : String} {line column : ℕ} {t : Token} {next end : Scan} {ts : List Token}
      → scan_step c (at_text (String.◌∷◌ c rest) line column) ≡ emitted t next
      → Scans next ts end
      → Scans (at_text (String.◌∷◌ c rest) line column) (t ∷ ts) end
  skips :
      {c : Char} {rest : String} {line column : ℕ} {next end : Scan} {ts : List Token}
      → scan_step c (at_text (String.◌∷◌ c rest) line column) ≡ skipped next
      → Scans next ts end
      → Scans (at_text (String.◌∷◌ c rest) line column) ts end

pub Scans-trans :
    {a b c : Scan} {ts us : List Token} → Scans a ts b → Scans b us c → Scans a (ts ++ us) c
Scans-trans stay q = q
Scans-trans (emits e p) q = emits e (Scans-trans p q)
Scans-trans (skips e p) q = skips e (Scans-trans p q)

append_nil : (xs : List Token) → xs ++ [] ≡ xs
append_nil [] = refl
append_nil (x ∷ xs) = ap (λ l. x ∷ l) (append_nil xs)

append_move :
    (xs : List Token) (t : Token) (ys : List Token) → (xs ++ (t ∷ [])) ++ ys ≡ xs ++ (t ∷ ys)
append_move [] t ys = refl
append_move (x ∷ xs) t ys = ap (λ l. x ∷ l) (append_move xs t ys)

-- If the loop ends, it ends with the tokens of the rounds to the end of the source.
pub lex_from-Scans :
    (fuel : ℕ) (tokens ts : List Token) (s end : Scan) (r : Result (List Token) AssemblyError)
    → Scans s ts end
    → end.rest ≡ ""
    → lex_from fuel tokens s.rest s.line s.column ≡ some r
    → r ≡ ok (close (tokens ++ ts) end)
unfolding lex_from
lex_from-Scans zero tokens ts s end r p e h = absurd (cc (h))
lex_from-Scans (suc fuel) tokens ts s end r stay e h =
    stopped s.rest e h ∙ ap (λ l. ok (close l s)) (sym (append_nil tokens))
  where
    stopped :
        (rest : String)
        → rest ≡ ""
        → lex_from (suc fuel) tokens rest s.line s.column ≡ some r
        → r ≡ ok (close tokens s)
    stopped rest e h =
        let now : some (ok (close tokens (at_text "" s.line s.column))) ≡ some r =
          subst (λ (x : String). lex_from (suc fuel) tokens x s.line s.column ≡ some r) e h in
        sym (some-injective _ _ now)
        ∙ ap (λ (x : String). ok (close tokens (at_text x s.line s.column))) (sym e)
lex_from-Scans (suc fuel) tokens ts s end r (emits {t = t} {next = next} {ts = us} step p) e h =
    lex_from-Scans fuel (tokens ++ (t ∷ [])) us next end r p e (cc (step, h))
    ∙ ap (λ l. ok (close l end)) (append_move tokens t us)
lex_from-Scans (suc fuel) tokens ts s end r (skips {next = next} step p) e h =
    lex_from-Scans fuel tokens ts next end r p e (cc (step, h))
