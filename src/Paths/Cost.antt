-- ===== src/Paths/Cost.antt =====
-- The cost of a path and the peer's claims about it (src/path.c).
pub mod Bounds
use comrade.Prelude.{
  ℕ, ◌+◌, ◌*◌, ◌/◌, ◌&&◌, Option, none, some, List, [], ◌∷◌, ltb, if◌then◌else◌, take,
}
use comrade.Prelude.Int.{ℤ, clamp_zero}
use comrade.Paths.Types.{
  NetPath, path_loss_penalty_ms, path_peer_srtt_max, path_peer_srtt_ratio, path_cost_quantum_ms,
}
use comrade.Paths.Measure.{srtt_ms, loss_ppt}

-- How far one claim of the peer may go.
unfoldable pub peer_cap : NetPath → ℕ
unfolding srtt_ms
peer_cap p =
    let mine = srtt_ms p in
    if p.qualified && (ltb 0 mine && ltb (mine * path_peer_srtt_ratio) path_peer_srtt_max)
    then mine * path_peer_srtt_ratio
    else path_peer_srtt_max

abbrev pub at_most : ℕ → ℕ → ℕ
at_most cap v = if ltb cap v then cap else v

unfoldable pub peer_view : NetPath → ℤ → ℤ → ℤ → NetPath
unfolding peer_cap
peer_view p srtt loss base = record p {
  peer_srtt_ms = at_most (peer_cap p) (clamp_zero srtt);
  peer_loss_ppt = at_most 1000 (clamp_zero loss);
  peer_base_srtt_ms = at_most (peer_cap p) (clamp_zero base);
}

-- `a > b ? a : b`
abbrev pub larger : ℕ → ℕ → ℕ
larger a b = if ltb b a then a else b

unfoldable pub cost_of : ℕ → ℕ → ℕ → ℕ → ℕ
cost_of srtt_a loss_a srtt_b loss_b =
    larger srtt_a srtt_b + path_loss_penalty_ms * larger loss_a loss_b / 1000

unfoldable pub cost : NetPath → ℕ
unfolding cost_of
cost p = cost_of (srtt_ms p) (loss_ppt p) p.peer_srtt_ms p.peer_loss_ppt

unfoldable pub bucket_of : ℕ → ℕ
bucket_of c = c / path_cost_quantum_ms

unfoldable pub bucket : NetPath → ℕ
bucket p = bucket_of (cost p)

-- The loop of `path_base_srtt_ms` over the round trips held; `none` is its -1.
unfoldable pub least : Option ℕ → List ℕ → Option ℕ
least base [] = base
least none (x ∷ xs) = least (some x) xs
least (some b) (x ∷ xs) = least (some (if ltb x b then x else b)) xs

abbrev pub or_zero : Option ℕ → ℕ
or_zero none = 0
or_zero (some b) = b

unfoldable pub base_srtt_ms : NetPath → ℕ
unfolding least
base_srtt_ms p = or_zero (least none (take p.rtt_n p.rtt))

unfoldable pub base_cost_of : ℕ → ℕ → ℕ
base_cost_of a b = larger a b

unfoldable pub base_cost : NetPath → ℕ
unfolding base_cost_of
base_cost p = base_cost_of (base_srtt_ms p) p.peer_base_srtt_ms

unfoldable pub base_bucket : NetPath → ℕ
base_bucket p = bucket_of (base_cost p)
