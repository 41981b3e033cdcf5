-- ===== src/Core/Device/Memories.antt =====
-- What a launch of src/core/device.cpp does to the device's global memory.
use mathlib.Core.Option.{some-injective}
use mathlib.Core.Option.{some-injective}
use warp_sim.Base.{
  outcome, [], ◌∷◌, zero, suc, ◌⊎◌, inl, inr, subst, ℕ, zero, suc, ◌≡◌, ◌≢◌, ◌⊎◌, inl, inr, refl,
  ◌∙◌, subst, arith, true, some, List, [], ◌∷◌, length, get_elem?, ok,
}
use warp_sim.Isa.Instruction.{Instruction}
use warp_sim.Isa.Opcode.{Opcode}
use warp_sim.Asm.Program.{Program}
use warp_sim.Core.Types.{Dim2}
use warp_sim.Core.Alu.{Binary32}
use warp_sim.Core.Memory.{global, ByteMemory}
use warp_sim.Core.Memory.Bytes.{IsBytes, store32-IsBytes, store32-length}
use warp_sim.Core.Warp.Step.{is_store, space_of}
use warp_sim.Core.Device.Launch.{decode_words, launch}
use warp_sim.Core.Device.Frames.{launch-related, KeepsGlobal}

-- The memory keeps its size, and its cells stay bytes.
abbrev SameShape : ByteMemory → ByteMemory → Type 0
SameShape g h = (length h.bytes ≡ length g.bytes) × (IsBytes g.bytes → IsBytes h.bytes)

SameShape-KeepsGlobal : KeepsGlobal (λ s. Unit {0}) SameShape
SameShape-KeepsGlobal = record {
  same = λ g. (refl, λ b. b);
  joined = λ a b c p q. (q.0 ∙ p.0, λ i. q.1 (p.1 i));
  stored =
      λ g h a v lane w e. (store32-length g h a v lane e, λ i. store32-IsBytes g h a v lane i e);
}

unchanged-KeepsGlobal : KeepsGlobal (λ s. s ≢ global) (λ g h. h ≡ g)
unchanged-KeepsGlobal = record {
  same = λ g. refl;
  joined = λ a b c p q. q ∙ p;
  stored = λ g h a v lane w e. absurd (w refl);
}

-- No instruction is a store to global memory.
abbrev ReadsOnly : List Instruction → Type 0
ReadsOnly program =
    (k : ℕ) (i : Instruction) → get_elem? program k ≡ some i → i.opcode ≢ Opcode.st_global

global_store : (op : Opcode) → is_store op ≡ true → op ≢ Opcode.st_global → space_of op ≢ global
unfolding is_store space_of
global_store Opcode.st_global h ne = absurd (ne refl)
global_store Opcode.st_shared h ne = λ e. cc (e)
global_store _ h ne = ground (arith, h)

-- The program holds an `st.global`.
abbrev pub StoresGlobal : Program → Type 0
StoresGlobal program =
    (decoded : List Instruction) × (decode_words 0 program.words ≡ ok decoded)
    × ((k : ℕ) × (i : Instruction) × (get_elem? decoded k ≡ some i) × (i.opcode ≡ Opcode.st_global))

st_global_cases : (op : Opcode) → (op ≡ Opcode.st_global) ⊎ (op ≢ Opcode.st_global)
st_global_cases Opcode.st_global = inl refl
st_global_cases _ = inr λ e. cc (e)

find_store :
    (is : List Instruction)
    → ReadsOnly is
      ⊎ ((k : ℕ) × (i : Instruction) × (get_elem? is k ≡ some i) × (i.opcode ≡ Opcode.st_global))
find_store [] = inl λ k i at. absurd (cc (at))
find_store (i ∷ is) = elim (st_global_cases i.opcode) [
  | inl here ↦ inr (0, i, refl, here)
  | inr not_here ↦ elim (find_store is) [
    | inr (k, j, at, stores) ↦ inr (suc k, j, at, stores)
    | inl none_there ↦ inl (reads not_here none_there)
  ]
]
  where
    reads : i.opcode ≢ Opcode.st_global → ReadsOnly is → ReadsOnly (i ∷ is)
    reads a b zero j at =
        subst (λ (x : Instruction). x.opcode ≢ Opcode.st_global) (some-injective _ _ at) a
    reads a b (suc k) j at = b k j at

-- On a memory of bytes, a launch, whatever it returns, leaves a memory of bytes of the same size; and it
-- leaves the very same memory, or the program decodes to instructions one of which is an `st.global`.
-- This holds after a fault too, and where the model's fuel runs out, when the memory is by convention
-- the one before the block.
pub launch-memory :
    (fp : Binary32) (fuel : ℕ) (program : Program) (grid block : Dim2) (params : List ℕ)
    (g : ByteMemory)
    → IsBytes g.bytes
    → (length (launch fp fuel program grid block params g).memory.bytes ≡ length g.bytes)
      × IsBytes (launch fp fuel program grid block params g).memory.bytes
      × (((launch fp fuel program grid block params g).memory ≡ g) ⊎ StoresGlobal program)
launch-memory fp fuel program grid block params g bytes = (
  shape.0,
  shape.1 bytes,
  elim (outcome (decode_words 0 program.words)) [
    | inl (f, failed) ↦ inl (same λ decoded e. absurd (cc (failed, e)))
    | inr (decoded, e) ↦ elim (find_store decoded) [
      | inr found ↦ inr (decoded, e, found)
      | inl reads ↦ inl (same λ decoded' e'. subst ReadsOnly (cc (e, e')) reads)
    ]
  ],
)
  where
    shape : SameShape g (launch fp fuel program grid block params g).memory
    shape =
        launch-related (λ s. Unit {0}) SameShape SameShape-KeepsGlobal fp fuel program grid block
          params g (λ decoded e k i at h. tt)

    same :
        ((decoded : List Instruction)
          → decode_words 0 program.words ≡ ok decoded
          → ReadsOnly decoded)
        → (launch fp fuel program grid block params g).memory ≡ g
    same reads =
        launch-related (λ s. s ≢ global) (λ a b. b ≡ a) unchanged-KeepsGlobal fp fuel program grid
          block params g (λ decoded e k i at h. global_store i.opcode h (reads decoded e k i at))
