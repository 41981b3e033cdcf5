-- ===== src/Core/Types/Loops.antt =====
-- The invariant rule for counted loops.
use warp_sim.Base.{ℕ, zero, suc, ◌+◌, ◌<◌, ◌≡◌, arith, subst}
use warp_sim.Core.Types.{for_range}

pub for_range_inv {ℓ κ} :
    {S : Type ℓ} (P : ℕ → S → Type κ) (body : ℕ → S → S)
    → (n i k : ℕ) (s : S) → i + n ≡ k
    → ((l : ℕ) (t : S) → l < k → P l t → P (suc l) (body l t))
    → P i s
    → P k (for_range n i body s)
unfolding for_range
for_range_inv P body zero i k s e keep h = let e' : i ≡ k = omega arith in subst (λ t. P t s) e' h
for_range_inv P body (suc n) i k s e keep h =
    for_range_inv P body n (i + 1) k (body i s) (omega arith) keep (
      let next : suc i ≡ i + 1 = omega arith in
      subst (λ t. P t (body i s)) next (keep i s (omega arith) h))
