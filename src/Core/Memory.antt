-- ===== src/Core/Memory.antt =====
-- src/core/memory.cpp, memory_port.hpp and memory_stats.hpp. A `std::memcpy` of a word is
-- little-endian (the byte order of the hosts that the simulator is built for).
pub mod Bytes
pub mod Analysis
pub mod Sets
pub mod Segments
pub mod Banks
use warp_sim.Base.{
  ℕ, String, ◌+◌, ◌*◌, ◌/◌, ◌%◌, ◌^◌, ltb, leb, ◌==◌, Bool, not, List, length, get_or, set,
  replicate, Result, ok, fail, fail_if, ◌>>◌, ◌>>=◌,
}
use warp_sim.Core.Types.{LaneMask}
use Analysis.{MemoryStats, fresh_stats, on_global, on_shared}

pub data Space : Type 0 where
  global shared param : Space

pub record AccessFault : Type 0 where
  pub message : String
  pub lane : ℕ
  pub address : ℕ

abbrev pub access_fault : String → ℕ → ℕ → AccessFault
access_fault message lane address = record { message = message; lane = lane; address = address }

pub record ByteMemory : Type 0 where
  pub bytes : List ℕ

unfoldable pub zeroed : ℕ → ByteMemory
zeroed size = record { bytes = replicate size 0 }

-- `ByteMemory::check`
unfoldable pub check : ByteMemory → ℕ → ℕ → Result (Unit {0}) AccessFault
check m address lane = do
  fail_if (not (address % 4 == 0)) (access_fault "misaligned 32-bit access" lane address)
  fail_if (ltb (length m.bytes) (address + 4)) (access_fault "access out of bounds" lane address)

-- `std::memcpy` of four bytes out of and into the vector.
unfoldable pub word_at : List ℕ → ℕ → ℕ
word_at bytes a =
    get_or bytes a 0
    + 2 ^ 8 * get_or bytes (a + 1) 0
    + 2 ^ 16 * get_or bytes (a + 2) 0
    + 2 ^ 24 * get_or bytes (a + 3) 0

unfoldable pub put_word : List ℕ → ℕ → ℕ → List ℕ
put_word bytes a v =
    let b0 = set bytes a (v % 2 ^ 8) in
    let b1 = set b0 (a + 1) (v / 2 ^ 8 % 2 ^ 8) in
    let b2 = set b1 (a + 2) (v / 2 ^ 16 % 2 ^ 8) in set b2 (a + 3) (v / 2 ^ 24 % 2 ^ 8)

unfoldable pub load32 : ByteMemory → ℕ → ℕ → Result ℕ AccessFault
load32 m address lane = do check m address lane; ok (word_at m.bytes address)

unfoldable pub store32 : ByteMemory → ℕ → ℕ → ℕ → Result ByteMemory AccessFault
store32 m address value lane = do
  check m address lane
  ok (record m { bytes = put_word m.bytes address value })

-- `class MemoryPort`: what a warp needs of its block's memory, as operations on the port's state. A
-- failed store leaves the state as it was.
pub record MemoryPort (M : Type 0) : Type 0 where
  pub load : M → Space → ℕ → ℕ → Result ℕ AccessFault
  pub store : M → Space → ℕ → ℕ → ℕ → Result M AccessFault
  pub on_warp_access : M → Space → Bool → (ℕ → ℕ) → LaneMask → M

-- `class BlockMemory`: the device's global memory is part of the state of the port.
pub record BlockMemory : Type 0 where
  pub global_memory : ByteMemory
  pub shared_memory : ByteMemory
  pub params : List ℕ
  pub stats : MemoryStats

unfoldable pub block_memory : ByteMemory → ℕ → List ℕ → BlockMemory
block_memory g shared_bytes params = record {
  global_memory = g;
  shared_memory = zeroed shared_bytes;
  params = params;
  stats = fresh_stats;
}

unfoldable pub load : BlockMemory → Space → ℕ → ℕ → Result ℕ AccessFault
load m global address lane = load32 m.global_memory address lane
load m shared address lane = load32 m.shared_memory address lane
load m param address lane = do
  fail_if (leb (length m.params) address)
      (access_fault "parameter ordinal out of range" lane address)
  ok (get_or m.params address 0)

unfoldable pub store : BlockMemory → Space → ℕ → ℕ → ℕ → Result BlockMemory AccessFault
store m global address value lane = do
  g ← store32 m.global_memory address value lane
  ok (record m { global_memory = g })
store m shared address value lane = do
  s ← store32 m.shared_memory address value lane
  ok (record m { shared_memory = s })
store m param address value lane = fail (access_fault "store to parameter space" lane address)

unfoldable pub on_warp_access : BlockMemory → Space → Bool → (ℕ → ℕ) → LaneMask → BlockMemory
on_warp_access m global is_store addresses exec = record m {
  stats = on_global m.stats addresses exec is_store;
}
on_warp_access m shared is_store addresses exec = record m {
  stats = on_shared m.stats addresses exec is_store;
}
on_warp_access m param is_store addresses exec = m

abbrev pub block_port : MemoryPort BlockMemory
block_port = record { load = load; store = store; on_warp_access = on_warp_access }
