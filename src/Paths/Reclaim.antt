-- ===== src/Paths/Reclaim.antt =====
-- Clearing, dropping and resetting paths of the table of src/path.c, and what it says of itself.
pub mod Laws
use comrade.Prelude.{
  ℕ, suc, Bool, true, false, not, ◌&&◌, ◌||◌, Option, none, some, List, [], ◌∷◌, if◌then◌else◌, map,
}
use comrade.Paths.Types.{NetPath, PathKind, warm, zero_path}
use comrade.Paths.Measure.{warmth_of}
use comrade.Paths.Table.{Table, init, same_kind, same_agent, is_dead, is_sel}

unfoldable pub clear : Table → Table
clear t = init

-- The loops that zero the slots that pass a test, and drop the choice that stood in one.
unfoldable pub drop_from : (NetPath → Bool) → ℕ → List NetPath → Option ℕ → List NetPath × Option ℕ
drop_from test i [] sel = ([], sel)
drop_from test i (p ∷ ps) sel =
    let (rest, s) = drop_from test (suc i) ps (if test p && is_sel sel i then none else sel) in
    ((if test p then zero_path else p) ∷ rest, s)

abbrev pub drop_where : (NetPath → Bool) → Table → Table
drop_where test t = let (p, s) = drop_from test 0 t.p t.sel in record { p = p; sel = s }

unfoldable pub drop_agent : Table → Option ℕ → Table
unfolding drop_from
drop_agent t none = t
drop_agent t (some a) = drop_where (λ p. p.used && same_agent p.agent a) t

unfoldable pub drop_kind : Table → PathKind → Table
unfolding drop_from
drop_kind t kind = drop_where (λ p. p.used && same_kind p.kind kind) t

unfoldable pub reset_path : ℕ → NetPath → NetPath
reset_path now p = if not p.used then p else record p {
  nonce = 0;
  sent_ms = 0;
  outstanding = false;
  srtt8 = 0;
  peer_srtt_ms = 0;
  peer_loss_ppt = 0;
  peer_base_srtt_ms = 0;
  loss_reg = 0;
  loss_n = 0;
  rtt_n = 0;
  rtt_i = 0;
  last_pong_ms = 0;
  next_probe_ms = 0;
  qualified = false;
  warmth_noted = warm;
  trying_since_ms = now;
}

unfoldable pub reset_stats : Table → ℕ → Table
unfolding reset_path
reset_stats t now = record t { p = map (reset_path now) t.p }

unfoldable pub any_qualified_of : List NetPath → Bool
any_qualified_of [] = false
any_qualified_of (p ∷ ps) =
    let rest = any_qualified_of ps in if p.used && p.qualified then true else rest

unfoldable pub any_qualified : Table → Bool
unfolding any_qualified_of
any_qualified t = any_qualified_of t.p

unfoldable pub all_dead_of : ℕ → Bool → List NetPath → Bool
all_dead_of now seen [] = seen
all_dead_of now seen (p ∷ ps) =
    let skip = all_dead_of now seen ps in
    let next = all_dead_of now true ps in
    if not p.used || not p.qualified
    then skip
    else if not (is_dead (warmth_of p now))
    then false
    else next

unfoldable pub all_dead : Table → ℕ → Bool
unfolding all_dead_of
all_dead t now = all_dead_of now false t.p
