-- ===== src/Paths/Cost/Bounds.antt =====
-- The ranking cost of src/path.c is the same from both ends, and a peer's claim is bounded.
use comrade.Prelude.{ℕ, ◌+◌, ◌*◌, ◌/◌, ◌≤◌, ◌<◌, max, ◌≡◌, true, arith, ap₂}
use comrade.Prelude.Int.{ℤ, clamp_zero}
use comrade.Paths.Types.{NetPath, path_peer_srtt_max, path_peer_srtt_ratio, path_loss_penalty_ms}
use comrade.Paths.Measure.{srtt_ms, loss_ppt}
use comrade.Paths.Cost.{peer_cap, peer_view, cost_of, cost, larger, at_most}
use comrade.Paths.Measure.Loss.{loss_ppt-le}

-- The cost takes the two views through a commutative function.
pub cost_of_comm :
    (srtt_a loss_a srtt_b loss_b : ℕ)
    → cost_of srtt_a loss_a srtt_b loss_b ≡ cost_of srtt_b loss_b srtt_a loss_a
unfolding cost_of
cost_of_comm srtt_a loss_a srtt_b loss_b = ground arith

-- Two ends that hold each other's measurements of a path give it the same cost.
pub cost-mirror :
    (p q : NetPath)
    → q.peer_srtt_ms ≡ srtt_ms p
    → q.peer_loss_ppt ≡ loss_ppt p
    → p.peer_srtt_ms ≡ srtt_ms q
    → p.peer_loss_ppt ≡ loss_ppt q
    → cost p ≡ cost q
unfolding cost
cost-mirror p q a b c d = ground arith

larger-max : (a b : ℕ) → larger a b ≡ max a b
larger-max a b = ground arith

cost-peer_view :
    (p : NetPath) (srtt loss base : ℤ)
    → cost (peer_view p srtt loss base)
      ≡ max (srtt_ms p) (at_most (peer_cap p) (clamp_zero srtt))
        + 200 * max (loss_ppt p) (at_most 1000 (clamp_zero loss)) / 1000
unfolding peer_view cost cost_of srtt_ms loss_ppt
cost-peer_view p srtt loss base = ap₂ (λ a b. a + 200 * b / 1000) (larger-max _ _) (larger-max _ _)

peer_cap-le : (p : NetPath) → peer_cap p ≤ path_peer_srtt_max
unfolding peer_cap
peer_cap-le p = ground arith

peer_cap-answered :
    (p : NetPath)
    → p.qualified ≡ true
    → 0 < srtt_ms p
    → peer_cap p ≤ srtt_ms p * path_peer_srtt_ratio
unfolding peer_cap
peer_cap-answered p q pos = ground arith

-- A claim can only argue a path down, and only so far: after `path_peer_view`, whatever the peer
-- said, the path costs at least our own smoothed round trip, and at most the larger of that and
-- PATH_PEER_SRTT_MAX, plus PATH_LOSS_PENALTY_MS.
pub peer_view-cost :
    (p : NetPath) (srtt loss base : ℤ)
    → (srtt_ms p ≤ cost (peer_view p srtt loss base))
      × (cost (peer_view p srtt loss base)
          ≤ max (srtt_ms p) path_peer_srtt_max + path_loss_penalty_ms)
peer_view-cost p srtt loss base = (
  omega (arith, cost-peer_view p srtt loss base),
  ground (arith, cost-peer_view p srtt loss base, loss_ppt-le p, peer_cap-le p),
)

-- A path that has answered, with a smoothed round trip above zero, is never argued beyond
-- PATH_PEER_SRTT_RATIO times that, plus the penalty.
pub peer_view-cost_answered :
    (p : NetPath) (srtt loss base : ℤ)
    → p.qualified ≡ true
    → 0 < srtt_ms p
    → cost (peer_view p srtt loss base) ≤ srtt_ms p * path_peer_srtt_ratio + path_loss_penalty_ms
peer_view-cost_answered p srtt loss base q pos =
    ground (arith, cost-peer_view p srtt loss base, loss_ppt-le p, capped)
  where
    capped : peer_cap p ≤ srtt_ms p * path_peer_srtt_ratio
    capped = peer_cap-answered p q pos
