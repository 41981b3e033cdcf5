-- ===== src/Asm/Assembler/Link.antt =====
-- `resolve_branches` and `annotate` of src/asm/assembler.cpp: no `.value()` is called on an error.
use warp_sim.Base.{
  ℕ, zero, suc, String, ◌^◌, ◌<◌, ◌≡◌, inl, inr, refl, sym, ◌∙◌, ap, arith, subst, true, Bool-cases,
  Option, some, Option-cases, List, [], ◌∷◌, length, length-set, get_elem?, get_or, set, Result, ok,
  fail,
}
use text.Mathlib.Text.{◌==◌ as str_eq}
use warp_sim.Isa.Instruction.{Instruction, no_reconvergence, make_branch_imm}
use warp_sim.Isa.Branch.{make_branch_imm_fields}
use warp_sim.Asm.Lexer.{AssemblyError}
use warp_sim.Asm.Cfg.{Cfg, build_cfg, is_bra}
use warp_sim.Asm.Annotate.Targets.{Stray}
use warp_sim.Asm.Annotate.Points.{Annotated, IsAnnotation, get_elem?-lt, annotate_reconvergence_lem}
use warp_sim.Asm.Operands.{PendingBranch}
use warp_sim.Asm.Operands.Cursors.{Holds}
use warp_sim.Asm.Operands.Params.{Undeclared, Declares, Declares-set, bra-Undeclared}
use warp_sim.Asm.Assembler.{
  find_label, undefined_label, analysis_error, resolve_one, resolve_branches, annotate_decoded,
  annotate,
}
use warp_sim.Asm.Assembler.Codes.{
  Code, Coded, Code-imm, Coded-length, Coded-get, Coded-set, decode_all-Coded, encode_all-Coded,
}
use warp_sim.Asm.Assembler.Lines.{PendFit, LabelsFit}

find_label-lt :
    (name : String) (ls : List (String × ℕ)) (t : ℕ)
    → LabelsFit ls
    → find_label name ls ≡ some t
    → t < 2 ^ 16
unfolding find_label
find_label-lt name [] t h e = ground (arith, e)
find_label-lt name ((l, pc) ∷ ls) t (h, hs) e = elim (Bool-cases (str_eq l name)) [
  | inl f ↦ let same : pc ≡ t = cc (e, f) in omega (arith, same, h)
  | inr f ↦ find_label-lt name ls t hs (cc (e, f))
]

get_elem?-set-bra :
    (is : List Instruction) (k m : ℕ) (j i : Instruction)
    → get_elem? is m ≡ some i
    → is_bra i ≡ true
    → is_bra j ≡ true
    → (x : Instruction) × (get_elem? (set is k j) m ≡ some x) × (is_bra x ≡ true)
get_elem?-set-bra [] k m j i e bi bj = ground (arith, e)
get_elem?-set-bra (y ∷ is) zero zero j i e bi bj = (j, refl, bj)
get_elem?-set-bra (y ∷ is) zero (suc m) j i e bi bj = (i, e, bi)
get_elem?-set-bra (y ∷ is) (suc k) zero j i e bi bj = (i, e, bi)
get_elem?-set-bra (y ∷ is) (suc k) (suc m) j i e bi bj = get_elem?-set-bra is k m j i e bi bj

PendFit-set :
    (is : List Instruction) (k : ℕ) (j : Instruction) (bs : List PendingBranch)
    → is_bra j ≡ true
    → PendFit is bs
    → PendFit (set is k j) bs
PendFit-set is k j [] bj h = tt
PendFit-set is k j (b ∷ bs) bj ((i, e, bi), hs) =
    (get_elem?-set-bra is k b.pc j i e bi bj, PendFit-set is k j bs bj hs)

target_imm-lt : (i : Instruction) (t : ℕ) → t < 2 ^ 16 → make_branch_imm t no_reconvergence < 2 ^ 32
target_imm-lt i t lt =
    let j : Instruction = record i { imm = make_branch_imm t no_reconvergence } in
    (make_branch_imm_fields j t no_reconvergence lt (omega arith) refl).2

-- Words with instructions, among them the branches bs.
abbrev pub Words : List String → ℕ → List PendingBranch → List ℕ → Type 0
Words params n bs ws =
    (is : List Instruction) × Coded ws is × PendFit is bs × Declares params is × (length ws ≡ n)

resolve_one_lem :
    (params : List String) (n : ℕ) (labels : List (String × ℕ)) (ws : List ℕ) (b : PendingBranch)
    (bs : List PendingBranch)
    → LabelsFit labels
    → Words params n (b ∷ bs) ws
    → (r : Result (List ℕ) AssemblyError) × (resolve_one labels ws b ≡ some r)
      × Holds (Words params n bs) r
unfolding resolve_one
resolve_one_lem params n labels ws b bs fit (is, coded, ((i, at, bra), hs), declares, len) =
    elim (Option-cases (find_label b.label labels)) [
      | inl e ↦ (fail (undefined_label b), rw (resolve_one, e) refl, tt)
      | inr (t, e) ↦
          let (enc, dec) = Coded-get ws is b.pc i coded at in
          let lt = target_imm-lt i t (find_label-lt b.label labels t fit e) in
          let j : Instruction = record i { imm = make_branch_imm t no_reconvergence } in
          let (v, code) =
            Code-imm (get_or ws b.pc 0) i (make_branch_imm t no_reconvergence) (enc, dec) bra lt in
          (
            ok (set ws b.pc v),
            rw (resolve_one, e, dec, code.0) refl,
            (
              set is b.pc j,
              Coded-set ws is b.pc v j coded code,
              PendFit-set is b.pc j bs bra hs,
              Declares-set params is b.pc j declares (bra-Undeclared params j bra),
              length-set ws b.pc v ∙ len,
            ),
          )
    ]

pub resolve_branches_lem :
    (params : List String) (n : ℕ) (labels : List (String × ℕ)) (bs : List PendingBranch)
    (ws : List ℕ)
    → LabelsFit labels
    → Words params n bs ws
    → (r : Result (List ℕ) AssemblyError) × (resolve_branches labels bs ws ≡ some r)
      × Holds (Words params n []) r
unfolding resolve_branches
resolve_branches_lem params n labels [] ws fit h = (ok ws, refl, h)
resolve_branches_lem params n labels (b ∷ bs) ws fit h =
    let (r, e, k) = resolve_one_lem params n labels ws b bs fit h in
    rw (resolve_branches, e)
      (after r k (λ next w. resolve_branches_lem params n labels bs next fit w))
  where
    after :
        (r : Result (List ℕ) AssemblyError)
        → Holds (Words params n bs) r
        → ((next : List ℕ)
            → Words params n bs next
            → (s : Result (List ℕ) AssemblyError) × (resolve_branches labels bs next ≡ some s)
              × Holds (Words params n []) s)
        → (s : Result (List ℕ) AssemblyError) × ((elim r
              as (λ _. Option (Result (List ℕ) AssemblyError)) [
                | fail e ↦ some (fail e)
                | ok next ↦ resolve_branches labels bs next
              ])
            ≡ some s)
          × Holds (Words params n []) s
    after (fail e) k later = (fail e, refl, tt)
    after (ok next) k later = later next k

-- What the last pass gives: the words of an annotated program without stray branches.
pub record Linked (params : List String) (n : ℕ) (ws : List ℕ) : Type 0 where
  pub before : List Instruction
  pub after : List Instruction
  pub cfg : Cfg
  pub graph : build_cfg before ≡ ok cfg
  pub annotated : IsAnnotation cfg before after
  pub in_range : (k : ℕ) (i : Instruction) → get_elem? before k ≡ some i → ¬ Stray (length before) i
  pub coded : Coded ws after
  pub declares : Declares params after
  pub length_is : length ws ≡ n

Annotated-Code :
    (cfg : Cfg) (b w : ℕ) (i j : Instruction) → Annotated cfg b i j → Code w i → (v : ℕ) × Code v j
Annotated-Code cfg b w i j a c = elim (Bool-cases (is_bra i)) [
  | inr other ↦ (w, subst (λ (x : Instruction). Code w x) (sym (a.other_same other)) c)
  | inl bra ↦
      let same : record i { imm = j.imm } ≡ j =
        ap (λ (x : Instruction). record x { imm = j.imm }) (sym a.rest_same) in
      let (v, code) = Code-imm w i j.imm c bra (a.imm_fits bra) in
      (v, subst (λ (x : Instruction). Code v x) same code)
]

pub get_elem?-some :
    (is : List Instruction) (k : ℕ) → k < length is → (i : Instruction) × (get_elem? is k ≡ some i)
get_elem?-some [] k lt = absurd (omega (arith, lt))
get_elem?-some (x ∷ xs) zero lt = (x, refl)
get_elem?-some (x ∷ xs) (suc k) lt = get_elem?-some xs k (omega (arith, lt))

annotation-Codes :
    (cfg : Cfg) (ws : List ℕ) (before after : List Instruction)
    → Coded ws before
    → IsAnnotation cfg before after
    → (k : ℕ) (j : Instruction) → get_elem? after k ≡ some j
    → (v : ℕ) × Code v j
annotation-Codes cfg ws before after coded (len, each) k j e =
    let (i, f) = get_elem?-some before k (omega (arith, get_elem?-lt after k j e, len)) in
    let (j', g, a) = each k i f in
    let same : j' ≡ j = cc (e, g) in
    subst (λ (x : Instruction). (v : ℕ) × Code v x) same
      (Annotated-Code cfg _ (get_or ws k 0) i j' a (Coded-get ws before k i coded f))

Annotated-Declares :
    (params : List String) (cfg : Cfg) (b : ℕ) (i j : Instruction)
    → Annotated cfg b i j
    → ¬ Undeclared params i
    → ¬ Undeclared params j
Annotated-Declares params cfg b i j a n = elim (Bool-cases (is_bra i)) [
  | inr other ↦ subst (λ (x : Instruction). ¬ Undeclared params x) (sym (a.other_same other)) n
  | inl bra ↦
      let same : i.opcode ≡ j.opcode = ap (λ (x : Instruction). x.opcode) (sym a.rest_same) in
      bra-Undeclared params j (cc (same, bra))
]

annotation-Declares :
    (params : List String) (cfg : Cfg) (before after : List Instruction)
    → Declares params before
    → IsAnnotation cfg before after
    → Declares params after
annotation-Declares params cfg before after h (len, each) k j e =
    let (i, f) = get_elem?-some before k (omega (arith, get_elem?-lt after k j e, len)) in
    let (j', g, a) = each k i f in
    let same : j' ≡ j = cc (e, g) in
    subst (λ (x : Instruction). ¬ Undeclared params x) same
      (Annotated-Declares params cfg _ i j' a (h k i f))

pub annotate_lem :
    (params : List String) (n : ℕ) (ws : List ℕ)
    → Words params n [] ws
    → (r : Result (List ℕ) AssemblyError) × (annotate ws ≡ some r) × Holds (Linked params n) r
unfolding annotate annotate_decoded
annotate_lem params n ws (is, coded, pend, declares, len) = elim (annotate_reconvergence_lem is) [
  | inl (e, failed, stray) ↦ (
    fail (analysis_error e.message),
    rw (annotate, decode_all-Coded ws is coded, annotate_decoded, failed) refl,
    tt,
  )
  | inr (cfg, out, built, ends, sections, annotated, fine) ↦
      let (vs, all, codes) =
        encode_all-Coded out (annotation-Codes cfg ws is out coded annotated) in
      (
        ok vs,
        rw (annotate, decode_all-Coded ws is coded, annotate_decoded, ends, all) refl,
        record {
          before = is;
          after = out;
          cfg = cfg;
          graph = built;
          annotated = annotated;
          in_range = fine;
          coded = codes;
          declares = annotation-Declares params cfg is out declares annotated;
          length_is =
              Coded-length vs out codes ∙ (annotated.0 ∙ (sym (Coded-length ws is coded) ∙ len));
        },
      )
]
