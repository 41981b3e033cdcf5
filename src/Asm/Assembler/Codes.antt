-- ===== src/Asm/Assembler/Codes.antt =====
-- The words of a program and their instructions, while src/asm/assembler.cpp rewrites branches.
use warp_sim.Base.{
  ℕ, zero, suc, ◌^◌, ◌<◌, ◌≡◌, refl, ap, arith, subst, true, some, List, [], ◌∷◌, ◌++◌, length,
  get_elem?, get_or, set, ok, >>=-eq-ok,
}
use warp_sim.Isa.Opcode.{Opcode, number, opcode_info_of}
use warp_sim.Isa.Instruction.{Instruction, validate}
use warp_sim.Isa.Encoding.{encode, decode, pack}
use warp_sim.Isa.Validity.{Canonical, ShapeCanonical, validate-Canonical_iff}
use warp_sim.Isa.Roundtrip.{decode-encode}
use warp_sim.Asm.Cfg.{is_bra}
use warp_sim.Asm.Operands.Branches.{is_bra_opcode}
use warp_sim.Asm.Assembler.{decode_all, encode_all}

-- A word and an instruction that are each other's code.
abbrev pub Code : ℕ → Instruction → Type 0
Code w i = (encode i ≡ ok w) × (decode w ≡ ok i)

encode-validate : (i : Instruction) (w : ℕ) → encode i ≡ ok w → validate i ≡ ok tt
unfolding encode
encode-validate i w e = let (u, v, k) = >>=-eq-ok (validate i) _ e in v

Code-pack : (i : Instruction) → validate i ≡ ok tt → i.imm < 2 ^ 32 → Code (pack i) i
Code-pack i v lt = let (e, bound, d) = decode-encode i v lt in (e, d)

pub encode-Code : (i : Instruction) (w : ℕ) → encode i ≡ ok w → i.imm < 2 ^ 32 → Code w i
encode-Code i w e lt =
    let (f, d) = Code-pack i (encode-validate i w e) lt in
    let same : pack i ≡ w = cc (e, f) in subst (λ x. Code x i) same (f, d)

bra_shape_any :
    (op : Opcode) (i : Instruction) (x : ℕ)
    → is_bra_opcode op ≡ true
    → ShapeCanonical (opcode_info_of op).shape i
    → ShapeCanonical (opcode_info_of op).shape (record i { imm = x })
unfolding opcode_info_of number
bra_shape_any Opcode.bra i x h k = k
bra_shape_any _ i x h k = ground (arith, h)

-- A branch keeps a code whatever its immediate.
pub Code-imm :
    (w : ℕ) (i : Instruction) (x : ℕ)
    → Code w i
    → is_bra i ≡ true
    → x < 2 ^ 32
    → (v : ℕ) × Code v (record i { imm = x })
Code-imm w i x (e, d) bra lt =
    let (fits, guarded, shape) = (validate-Canonical_iff i).0 (encode-validate i w e) in
    let j : Instruction = record i { imm = x } in
    let canonical : Canonical j = (
      record {
        pred_fits = fits.pred_fits;
        dst_fits = fits.dst_fits;
        src0_fits = fits.src0_fits;
        src1_fits = fits.src1_fits;
      },
      guarded,
      bra_shape_any i.opcode i x bra shape,
    ) in
    (pack j, Code-pack j ((validate-Canonical_iff j).1 canonical) lt)

abbrev pub Coded : List ℕ → List Instruction → Type 0
Coded [] [] = Unit {0}
Coded [] (i ∷ is) = ⊥
Coded (w ∷ ws) [] = ⊥
Coded (w ∷ ws) (i ∷ is) = Code w i × Coded ws is

pub Coded-length : (ws : List ℕ) (is : List Instruction) → Coded ws is → length ws ≡ length is
Coded-length [] [] h = refl
Coded-length [] (i ∷ is) h = absurd h
Coded-length (w ∷ ws) [] h = absurd h
Coded-length (w ∷ ws) (i ∷ is) (h, hs) = ap suc (Coded-length ws is hs)

pub Coded-snoc :
    (ws : List ℕ) (is : List Instruction) (w : ℕ) (i : Instruction)
    → Coded ws is
    → Code w i
    → Coded (ws ++ (w ∷ [])) (is ++ (i ∷ []))
Coded-snoc [] [] w i h k = (k, tt)
Coded-snoc [] (x ∷ is) w i h k = absurd h
Coded-snoc (x ∷ ws) [] w i h k = absurd h
Coded-snoc (x ∷ ws) (y ∷ is) w i (h, hs) k = (h, Coded-snoc ws is w i hs k)

pub Coded-get :
    (ws : List ℕ) (is : List Instruction) (k : ℕ) (i : Instruction)
    → Coded ws is
    → get_elem? is k ≡ some i
    → Code (get_or ws k 0) i
Coded-get [] [] k i h e = ground (arith, e)
Coded-get [] (y ∷ is) k i h e = absurd h
Coded-get (x ∷ ws) [] k i h e = absurd h
Coded-get (x ∷ ws) (y ∷ is) zero i (h, hs) e =
    let same : y ≡ i = cc (e) in subst (λ (z : Instruction). Code x z) same h
Coded-get (x ∷ ws) (y ∷ is) (suc k) i (h, hs) e = Coded-get ws is k i hs e

pub Coded-set :
    (ws : List ℕ) (is : List Instruction) (k w : ℕ) (i : Instruction)
    → Coded ws is
    → Code w i
    → Coded (set ws k w) (set is k i)
Coded-set [] [] k w i h c = tt
Coded-set [] (y ∷ is) k w i h c = absurd h
Coded-set (x ∷ ws) [] k w i h c = absurd h
Coded-set (x ∷ ws) (y ∷ is) zero w i (h, hs) c = (c, hs)
Coded-set (x ∷ ws) (y ∷ is) (suc k) w i (h, hs) c = (h, Coded-set ws is k w i hs c)

pub decode_all-Coded : (ws : List ℕ) (is : List Instruction) → Coded ws is → decode_all ws ≡ some is
unfolding decode_all
decode_all-Coded [] [] h = refl
decode_all-Coded [] (i ∷ is) h = absurd h
decode_all-Coded (w ∷ ws) [] h = absurd h
decode_all-Coded (w ∷ ws) (i ∷ is) ((e, d), hs) = rw (decode_all, d, decode_all-Coded ws is hs) refl

-- Instructions that each have a code are encoded.
pub encode_all-Coded :
    (is : List Instruction)
    → ((k : ℕ) (i : Instruction) → get_elem? is k ≡ some i → (w : ℕ) × Code w i)
    → (ws : List ℕ) × (encode_all is ≡ some ws) × Coded ws is
unfolding encode_all
encode_all-Coded [] h = ([], refl, tt)
encode_all-Coded (i ∷ is) h =
    let (w, (e, d)) = h 0 i refl in
    let (ws, f, hs) = encode_all-Coded is (λ k j g. h (suc k) j g) in
    (w ∷ ws, rw (encode_all, e, f) refl, ((e, d), hs))
