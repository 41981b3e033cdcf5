-- ===== src/Core/Memory/Segments.antt =====
-- `distinct_segments` of src/core/memory_analysis.cpp against its specification
-- (docs/wisa-spec.md section 2.5): the number of distinct 128-byte segments of the executing lanes.
use warp_sim.Base.{ℕ, ◌/◌, ◌≡◌, refl, arith, List, [], length}
use warp_sim.Core.Types.{LaneMask, has_lane}
use warp_sim.Core.Types.Loops.{for_range_inv}
use warp_sim.Core.Memory.Analysis.{segments_seen, distinct_segments}
use warp_sim.Core.Memory.Sets.{Lists, Lists-step, Lists-none}

segments_seen-Lists :
    (addresses : ℕ → ℕ) (exec : LaneMask)
    → Lists 32 (λ lane. addresses lane / 128) (has_lane exec) (segments_seen 32 addresses exec)
unfolding segments_seen
segments_seen-Lists addresses exec =
    for_range_inv (λ k seen. Lists k (λ lane. addresses lane / 128) (has_lane exec) seen) _ 32 0 32
      [] (omega arith) (λ l t h p. Lists-step (λ lane. addresses lane / 128) (has_lane exec) l t p)
      (Lists-none (λ lane. addresses lane / 128) (has_lane exec))

-- The counter is the number of distinct 128-byte segments that executing lanes touch: it is the
-- length of a list without repetition that holds a segment exactly when some executing lane's address
-- lies in it.
pub distinct_segments_lem :
    (addresses : ℕ → ℕ) (exec : LaneMask)
    → (segments : List ℕ) × Lists 32 (λ lane. addresses lane / 128) (has_lane exec) segments
      × (distinct_segments addresses exec ≡ length segments)
unfolding distinct_segments
distinct_segments_lem addresses exec =
    (segments_seen 32 addresses exec, segments_seen-Lists addresses exec, refl)
