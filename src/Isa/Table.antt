-- ===== src/Isa/Table.antt =====
-- The opcode table of include/warpsim/isa/opcode.hpp: its lookups invert the numbering and the
-- mnemonics of the enumeration.
use warp_sim.Base.{ℕ, ◌<◌, ◌≡◌, refl, some, List, [], ◌∷◌, arith}
use warp_sim.Isa.Opcode.{
  Opcode, OpcodeInfo, number, find_number, opcode_info, opcode_info_of, opcode_info_named,
  opcode_table,
}

-- Every opcode is found under its number, as the entry that `opcode_info(Opcode)` gives.
pub opcode_info-number : (op : Opcode) → opcode_info (number op) ≡ some (opcode_info_of op)
unfolding opcode_info opcode_info_of number
opcode_info-number Opcode.add = refl
opcode_info-number _ = refl

pub opcode-opcode_info_of : (op : Opcode) → (opcode_info_of op).opcode ≡ op
unfolding opcode_info_of number
opcode-opcode_info_of Opcode.add = refl
opcode-opcode_info_of _ = refl

find_number_sound :
    (n : ℕ) (es : List OpcodeInfo) {e : OpcodeInfo}
    → find_number n es ≡ some e
    → number e.opcode ≡ n
unfolding find_number
find_number_sound n [] h = ground arith
find_number_sound n (x ∷ es) {e} h = ground (arith, find_number_sound n es {e = e})

-- If the lookup of a number finds an entry, the number is the one of the entry's opcode.
pub number-opcode_info : (n : ℕ) {e : OpcodeInfo} → opcode_info n ≡ some e → number e.opcode ≡ n
unfolding opcode_info
number-opcode_info n h = find_number_sound n opcode_table h

-- The lookup of an opcode's mnemonic finds the opcode's own entry of the table.
pub mnemonic_lookup :
    (op : Opcode) → opcode_info_named (opcode_info_of op).mnemonic ≡ some (opcode_info_of op)
unfolding opcode_info_named opcode_info_of number
mnemonic_lookup Opcode.add = refl
mnemonic_lookup _ = refl

pub number-lt : (op : Opcode) → number op < 256
unfolding number
number-lt Opcode.add = omega arith
number-lt _ = omega arith
