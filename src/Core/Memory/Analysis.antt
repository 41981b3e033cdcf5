-- ===== src/Core/Memory/Analysis.antt =====
-- src/core/memory_analysis.cpp and memory_stats.hpp: the coalescing and bank-conflict counters of
-- one warp-level access. The array of addresses is a function of the lane; counters wrap at 2 ^ 64.
use warp_sim.Base.{
  ℕ, ◌+◌, ◌/◌, ◌%◌, ◌^◌, max, ltb, ◌==◌, if◌then◌else◌, Bool, false, ◌||◌, List, [], ◌∷◌, ◌++◌,
  length,
}
use warp_sim.Core.Types.{LaneMask, has_lane, lane_count, for_range}

abbrev pub segment_bytes : ℕ
segment_bytes = 128

abbrev pub bank_count : ℕ
bank_count = 32

abbrev pub bank_width_bytes : ℕ
bank_width_bytes = 4

-- `std::ranges::find(xs, x) != xs.end()`
unfoldable pub contains : ℕ → List ℕ → Bool
contains x [] = false
contains x (y ∷ ys) = x == y || contains x ys

-- The array `segments` and its `count` are the list of the segments seen, in order.
unfoldable pub note : ℕ → List ℕ → List ℕ
note x seen = if contains x seen then seen else seen ++ (x ∷ [])

unfoldable pub segments_seen : ℕ → (ℕ → ℕ) → LaneMask → List ℕ
unfolding for_range
segments_seen lanes addresses exec =
    for_range lanes 0
      (λ lane seen. if has_lane exec lane then note (addresses lane / segment_bytes) seen else seen)
      []

unfoldable pub distinct_segments : (ℕ → ℕ) → LaneMask → ℕ
unfolding segments_seen note contains
distinct_segments addresses exec = length (segments_seen 32 addresses exec)

-- The arrays `seen` and `counts` are a list for each bank.
pub record Buckets : Type 0 where
  pub seen : ℕ → List ℕ
  pub degree : ℕ

unfoldable pub bank_of : ℕ → ℕ
bank_of address = address / bank_width_bytes % bank_count

unfoldable pub visit : ℕ → Buckets → Buckets
visit address s =
    let bucket = s.seen (bank_of address) in
    if contains address bucket then s else record {
      seen = λ bank. if bank == bank_of address then bucket ++ (address ∷ []) else s.seen bank;
      degree = max s.degree (length bucket + 1);
    }

unfoldable pub buckets : ℕ → (ℕ → ℕ) → LaneMask → Buckets
unfolding for_range visit bank_of
buckets lanes addresses exec =
    for_range lanes 0 (λ lane s. if has_lane exec lane then visit (addresses lane) s else s)
      (record { seen = λ bank. []; degree = 0 })

unfoldable pub bank_conflict_degree : (ℕ → ℕ) → LaneMask → ℕ
unfolding buckets contains
bank_conflict_degree addresses exec = (buckets 32 addresses exec).degree

pub record MemoryStats : Type 0 where
  pub global_loads : ℕ
  pub global_stores : ℕ
  pub global_lane_accesses : ℕ
  pub global_segments : ℕ
  pub shared_accesses : ℕ
  pub shared_lane_accesses : ℕ
  pub shared_wavefronts : ℕ
  pub shared_conflicted_accesses : ℕ

abbrev pub fresh_stats : MemoryStats
fresh_stats = record {
  global_loads = 0;
  global_stores = 0;
  global_lane_accesses = 0;
  global_segments = 0;
  shared_accesses = 0;
  shared_lane_accesses = 0;
  shared_wavefronts = 0;
  shared_conflicted_accesses = 0;
}

-- Addition on a `std::uint64_t` counter.
abbrev pub add64 : ℕ → ℕ → ℕ
add64 a b = (a + b) % 2 ^ 64

-- `MemoryAnalyzer::on_global`
unfoldable pub on_global : MemoryStats → (ℕ → ℕ) → LaneMask → Bool → MemoryStats
on_global s addresses exec is_store = if exec == 0 then s else record s {
  global_loads = if is_store then s.global_loads else add64 s.global_loads 1;
  global_stores = if is_store then add64 s.global_stores 1 else s.global_stores;
  global_lane_accesses = add64 s.global_lane_accesses (lane_count exec);
  global_segments = add64 s.global_segments (distinct_segments addresses exec);
}

-- `MemoryAnalyzer::on_shared`
unfoldable pub on_shared : MemoryStats → (ℕ → ℕ) → LaneMask → Bool → MemoryStats
on_shared s addresses exec is_store =
    if exec == 0
    then s
    else (let degree = bank_conflict_degree addresses exec in
        record s {
          shared_accesses = add64 s.shared_accesses 1;
          shared_lane_accesses = add64 s.shared_lane_accesses (lane_count exec);
          shared_wavefronts = add64 s.shared_wavefronts degree;
          shared_conflicted_accesses =
              if ltb 1 degree
              then add64 s.shared_conflicted_accesses 1
              else s.shared_conflicted_accesses;
        })
