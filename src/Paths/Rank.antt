-- ===== src/Paths/Rank.antt =====
-- The order of paths and the choice of the one that carries the session (src/path.c).
pub mod Order
pub mod Best
pub mod Select
use comrade.Prelude.{
  ℕ, ◌/◌, Bool, true, false, not, ◌&&◌, ◌||◌, Option, none, some, ltb, leb, ◌==◌, if◌then◌else◌,
  map, memcmp, is_lt, Ordering,
}
use Prim.Native.Nat.{lt, gt}
use comrade.Prelude.Pick.{pick}
use comrade.Paths.Types.{NetPath, warmth_rank, path_loss_window}
use comrade.Paths.Measure.{warmth_of, loss_ppt, probe_expire}
use comrade.Paths.Cost.{bucket, base_bucket, base_srtt_ms}
use comrade.Paths.Table.{Table, slot, index_of}

-- `path_cmp`: the sign of its result.
unfoldable pub cmp : NetPath → NetPath → ℕ → Ordering
cmp a b now =
    let wa = warmth_rank (warmth_of a now) in
    let wb = warmth_rank (warmth_of b now) in
    if not (wa == wb)
    then (if ltb wa wb then lt else gt)
    else if not (bucket a == bucket b)
    then (if ltb (bucket a) (bucket b) then lt else gt)
    else memcmp a.id b.id

-- `path_cmp(a, b, now) < 0`
abbrev pub ahead : ℕ → NetPath → NetPath → Bool
ahead now a b = is_lt (cmp a b now)

-- A path that has lost every probe of half a window or more.
unfoldable pub fully_lost : NetPath → Bool
fully_lost p = leb (path_loss_window / 2) p.loss_n && leb 1000 (loss_ppt p)

abbrev pub can_carry : NetPath → Bool
can_carry p = p.used && (p.usable && not (fully_lost p))

unfoldable pub best : Table → ℕ → Option ℕ
best t now = index_of (pick (λ i p. can_carry p) (ahead now) 0 t.p none)

unfoldable pub expire_used : ℕ → NetPath → NetPath
expire_used now p = if p.used then probe_expire p now else p

unfoldable pub expire_all : Table → ℕ → Table
unfolding expire_used
expire_all t now = record t { p = map (expire_used now) t.p }

-- Whether the choice moves to slot `b`: there is none, it cannot send, or its tier is worse.
unfoldable pub moves : Table → ℕ → ℕ → Bool
moves t now b = elim t.sel [
  | none ↦ true
  | some s ↦
      not (slot t s).used
      || (not (slot t s).usable
          || ltb (warmth_rank (warmth_of (slot t b) now)) (warmth_rank (warmth_of (slot t s) now)))
]

-- `path_select` on the table whose probes are scored.
unfoldable pub choose : Table → ℕ → Table
unfolding moves
choose t now = elim (best t now) [
  | none ↦ record t { sel = none }
  | some b ↦ if moves t now b then record t { sel = some b } else t
]

-- `path_select`: it returns the choice that it leaves in the table.
unfoldable pub select : Table → ℕ → Option ℕ × Table
unfolding choose expire_all
select t now = let t' = choose (expire_all t now) now in (t'.sel, t')

unfoldable pub challenger_eligible : Table → ℕ → ℕ → ℕ → NetPath → Bool
challenger_eligible t sel now i p =
    if i == sel || (not p.used || not p.usable)
    then false
    else if fully_lost p
    then false
    else if not (warmth_rank (warmth_of p now) == warmth_rank (warmth_of (slot t sel) now))
    then false
    else ltb 0 (base_srtt_ms p)

-- What a challenger passes in the loop of `path_challenger`.
unfoldable pub contends : Table → ℕ → ℕ → ℕ → NetPath → Bool
unfolding challenger_eligible
contends t sel now i p =
    if not (challenger_eligible t sel now i p)
    then false
    else if leb (base_bucket (slot t sel)) (base_bucket p)
    then false
    else if leb (bucket (slot t sel)) (bucket p)
    then false
    else true

unfoldable pub challenger : Table → ℕ → Option ℕ
unfolding contends
challenger t now = elim t.sel [
  | none ↦ none
  | some s ↦
      if not (slot t s).used
      then none
      else index_of (pick (contends t s now) (ahead now) 0 t.p none)
]
