-- ===== src/Asm/Roundtrip/Steps.antt =====
-- The operand parsers of src/asm/assembler.cpp on tokens that are given but for their places.
use warp_sim.Base.{
  ℕ, String, ◌<◌, ◌==◌, ◌≡◌, refl, sym, ◌∙◌, ap, arith, Bool, true, false, List, [], ◌∷◌, ◌++◌, ok,
  ◌>>=◌,
}
use warp_sim.Isa.Instruction.{Instruction}
use warp_sim.Asm.Lexer.{TokenKind, Token, identifier, comma}
use warp_sim.Asm.Lexer.Pieces.{Piece, IsPiece, Shaped}
use warp_sim.Asm.Operands.{
  kind_number, at, skip, expect, PendingBranch, Cursor, Parsed, comma_step, general_register,
  dst_reg, src0_reg, src1_reg, dst_pred,
}
use warp_sim.Asm.Printing.{reg, pred}
use warp_sim.Asm.Printing.Reading.{register_index-reg}

abbrev pub cursor : List Token → Instruction → List PendingBranch → Cursor
cursor rest out pending = record { rest = rest; out = out; pending = pending }

-- A step uses up tokens like these, if another is behind them, and makes instruction j of i.
pub record Consumes (f : Cursor → Parsed) (ps : List Piece) (i j : Instruction) : Type 0 where
  pub parses :
      (ts : List Token)
      → Shaped ps ts
      → (u : Token) (us : List Token) (pending : List PendingBranch)
      → f (cursor (ts ++ (u ∷ us)) i pending) ≡ ok (cursor (u ∷ us) j pending)

pub Shaped-split :
    (ps qs : List Piece) (ts : List Token)
    → Shaped (ps ++ qs) ts
    → (us : List Token) × (vs : List Token) × (ts ≡ us ++ vs) × Shaped ps us × Shaped qs vs
Shaped-split [] qs ts h = ([], ts, refl, tt, h)
Shaped-split (p ∷ ps) qs [] h = absurd h
Shaped-split (p ∷ ps) qs (t ∷ ts) (h, hs) =
    let (us, vs, e, a, b) = Shaped-split ps qs ts hs in (t ∷ us, vs, ap (λ l. t ∷ l) e, (h, a), b)

pub append_assoc : {A : Type 0} (xs ys zs : List A) → (xs ++ ys) ++ zs ≡ xs ++ (ys ++ zs)
append_assoc [] ys zs = refl
append_assoc (x ∷ xs) ys zs = ap (λ l. x ∷ l) (append_assoc xs ys zs)

pub front :
    (ts : List Token) (u : Token) (us : List Token)
    → (v : Token) × (vs : List Token) × (ts ++ (u ∷ us) ≡ v ∷ vs)
front [] u us = (u, us, refl)
front (t ∷ ts) u us = (t, ts ++ (u ∷ us), refl)

pub Consumes-then :
    (f g : Cursor → Parsed) {ps qs : List Piece} {i j k : Instruction}
    → Consumes f ps i j
    → Consumes g qs j k
    → Consumes (λ c. f c >>= g) (ps ++ qs) i k
Consumes-then f g {ps = ps} {qs = qs} {i = i} {j = j} {k = k} a b = record {
  parses = λ ts shaped u us pending.
      let (xs, ys, e, first, second) = Shaped-split ps qs ts shaped in
      let (v, vs, ahead) = front ys u us in
      let split : ts ++ (u ∷ us) ≡ xs ++ (v ∷ vs) =
        ap (λ l. l ++ (u ∷ us)) e ∙ (append_assoc xs ys (u ∷ us) ∙ ap (λ l. xs ++ l) ahead) in
      rw (split, a.parses xs first v vs pending, sym ahead) (b.parses ys second u us pending);
}

pub one_piece :
    (f : Cursor → Parsed) (p : Piece) (i j : Instruction)
    → ((t : Token) (u : Token) (us : List Token) (pending : List PendingBranch)
        → IsPiece p t
        → f (cursor (t ∷ (u ∷ us)) i pending) ≡ ok (cursor (u ∷ us) j pending))
    → Consumes f (p ∷ []) i j
one_piece f p i j h = record { parses = λ ts shaped u us pending. go ts shaped u us pending }
  where
    go :
        (ts : List Token)
        → Shaped (p ∷ []) ts
        → (u : Token) (us : List Token) (pending : List PendingBranch)
        → f (cursor (ts ++ (u ∷ us)) i pending) ≡ ok (cursor (u ∷ us) j pending)
    go [] shaped u us pending = absurd shaped
    go (t ∷ []) (is, tt) u us pending = h t u us pending is
    go (t ∷ (v ∷ vs)) (is, more) u us pending = absurd more

pub here :
    (kind : TokenKind) (text : String) (negate : Bool) (t : Token) (ts : List Token)
    → IsPiece (kind, text, negate) t
    → at kind (t ∷ ts) ≡ true
unfolding at
here kind text negate t ts (k, x, n) = rw k (ground arith)

pub elsewhere :
    (kind other : TokenKind) (text : String) (negate : Bool) (t : Token) (ts : List Token)
    → IsPiece (kind, text, negate) t
    → (kind_number kind == kind_number other) ≡ false
    → at other (t ∷ ts) ≡ false
unfolding at
elsewhere kind other text negate t ts (k, x, n) ne = rw k ne

pub expect-Consumes :
    (kind : TokenKind) (what text : String) (i : Instruction)
    → Consumes (expect kind what) ((kind, text, false) ∷ []) i i
unfolding expect skip
expect-Consumes kind what text i =
    one_piece (expect kind what) (kind, text, false) i i
      λ t u us pending is. rw (here kind text false t (u ∷ us) is) refl

pub comma_step-Consumes : (i : Instruction) → Consumes comma_step ((comma, ",", false) ∷ []) i i
unfolding comma_step
comma_step-Consumes i = expect-Consumes comma "','" "," i

pub general_register-reg :
    (r : ℕ) (t u : Token) (us : List Token)
    → r < 64
    → IsPiece (identifier, reg r, false) t
    → general_register (t ∷ (u ∷ us)) ≡ ok (r, u ∷ us)
unfolding general_register skip
general_register-reg r t u us lt is =
    rw
      (
        general_register,
        here identifier (reg r) false t (u ∷ us) is,
        is.1,
        (register_index-reg r 0 lt (omega arith)).0,
      )
      refl

pub dst_reg-Consumes :
    (r : ℕ) (i : Instruction)
    → r < 64
    → Consumes dst_reg ((identifier, reg r, false) ∷ []) i (record i { dst = r })
unfolding dst_reg
dst_reg-Consumes r i lt =
    one_piece dst_reg _ i _ λ t u us pending is. rw (general_register-reg r t u us lt is) refl

pub src0_reg-Consumes :
    (r : ℕ) (i : Instruction)
    → r < 64
    → Consumes src0_reg ((identifier, reg r, false) ∷ []) i (record i { src0 = r })
unfolding src0_reg
src0_reg-Consumes r i lt =
    one_piece src0_reg _ i _ λ t u us pending is. rw (general_register-reg r t u us lt is) refl

pub src1_reg-Consumes :
    (r : ℕ) (i : Instruction)
    → r < 64
    → Consumes src1_reg ((identifier, reg r, false) ∷ []) i (record i { src1 = r })
unfolding src1_reg
src1_reg-Consumes r i lt =
    one_piece src1_reg _ i _ λ t u us pending is. rw (general_register-reg r t u us lt is) refl

pub dst_pred-Consumes :
    (r : ℕ) (i : Instruction)
    → r < 8
    → Consumes dst_pred ((identifier, pred r, false) ∷ []) i (record i { dst = r })
unfolding dst_pred skip
dst_pred-Consumes r i lt = one_piece dst_pred _ i _ λ t u us pending is.
    rw
      (
        dst_pred,
        here identifier (pred r) false t (u ∷ us) is,
        is.1,
        (register_index-reg 0 r (omega arith) lt).1,
      )
      refl
