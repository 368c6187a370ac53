-- ===== src/PathPlane/Carry.antt =====
-- Which path carries (`pin_check` to `pathplane_proven` of src/pathplane.c).
pub mod Pinned
use comrade.Prelude.{
  ℕ, suc, ◌+◌, Bool, true, false, not, ◌&&◌, ◌||◌, Option, none, some, List, [], ◌∷◌, ◌==◌, leb,
  if◌then◌else◌, set, map, bytes_eq, replicate, length,
}
use comrade.Paths.Ep.{Sockaddr, unspec, in6}
use comrade.Paths.Types.{NetPath, PathKind, ice, Warmth, warmth_rank}
use comrade.Paths.Measure.{warmth_of, srtt_ms}
use comrade.Paths.Table.{Table, slot, first, is_sel, is_dead, same_kind}
use comrade.Paths.Rank.{select, challenger}
use comrade.PathPlane.{PathPlane, Sinks, now_usable, blackholed}

-- `struct pathplane_pick`; a `kind` of -1 is none.
pub record Pick : Type 0 where
  pub kind : Option PathKind
  pub blackholed : Bool
  pub qualified : Bool
  pub srtt_ms : ℕ
  pub remote : Sockaddr
  pub agent : Option ℕ
  pub label : List ℕ
  pub nlive : ℕ
  pub moved : Bool

abbrev pub nlive_of : Sinks → ℕ
nlive_of k = elim k.live [ none ↦ 0 | some live ↦ length live ]

abbrev pub no_pick : Sinks → Pick
no_pick k = record {
  kind = none;
  blackholed = false;
  qualified = false;
  srtt_ms = 0;
  remote = unspec;
  agent = none;
  label = [];
  nlive = nlive_of k;
  moved = false;
}

unfoldable pub pick_of : PathPlane → Sinks → (moved : Bool) → NetPath → Pick
pick_of pl k moved p = record {
  kind = some p.kind;
  blackholed = blackholed pl p.kind (some p.remote);
  qualified = p.qualified;
  srtt_ms = srtt_ms p;
  remote = p.remote;
  agent = p.agent;
  label = p.label;
  nlive = nlive_of k;
  moved = moved;
}

-- The path of an id.
unfoldable pub named : (id : List ℕ) → Table → Option ℕ
named id t = first (λ p. p.used && bytes_eq p.id id) 0 t.p

abbrev pub carries_pin : PathPlane → (now : ℕ) → NetPath → Bool
carries_pin pl now p = p.usable && leb (warmth_rank (warmth_of p now)) (warmth_rank pl.pin_warmth)

-- What becomes of the pin, whose path is at `at`.
unfoldable pub pin_at : PathPlane → (now : ℕ) (at : Option ℕ) → PathPlane
pin_at pl now none = record pl { pinned = false }
pin_at pl now (some i) =
    if carries_pin pl now (slot pl.t i)
    then record pl { t = record pl.t { sel = some i } }
    else record pl { pinned = false }

unfoldable pub pin_check : PathPlane → (now : ℕ) → PathPlane
pin_check pl now = if pl.pinned then pin_at pl now (named pl.pin_id pl.t) else pl

abbrev pub same_sel : Option ℕ → Option ℕ → Bool
same_sel none none = true
same_sel (some i) (some j) = i == j
same_sel _ _ = false

-- The table with every carrier asked whether it can send, and the choice among its paths.
unfoldable pub choose_anew : PathPlane → Sinks → (now : ℕ) → PathPlane
choose_anew pl k now = record pl {
  t = (select (record pl.t { p = map (now_usable k) pl.t.p }) now).1;
}

unfoldable pub report : PathPlane → Sinks → (prev : Option ℕ) → Pick
report pl k prev = elim pl.t.sel [
  | none ↦ no_pick k
  | some i ↦ pick_of pl k (not (same_sel pl.t.sel prev)) (slot pl.t i)
]

unfoldable pub decide : PathPlane → Sinks → (now : ℕ) → Pick × PathPlane
decide pl k now = let pl' = pin_check (choose_anew pl k now) now in (report pl' k pl.t.sel, pl')

unfoldable pub plane_pick : PathPlane → Sinks → Pick
plane_pick pl k = elim pl.t.sel [
  | none ↦ no_pick k
  | some i ↦ if (slot pl.t i).used then pick_of pl k false (slot pl.t i) else no_pick k
]

unfoldable pub carry_id : PathPlane → Option (List ℕ)
carry_id pl = elim pl.t.sel [
  | none ↦ none
  | some i ↦ if (slot pl.t i).used then some (slot pl.t i).id else none
]

unfoldable pub challenger_id : PathPlane → (now : ℕ) → Option (List ℕ)
challenger_id pl now = elim (challenger pl.t now) [ none ↦ none | some i ↦ some (slot pl.t i).id ]

-- `enum pathplane_pin`
pub data PinResult : Type 0 where
  pin_ok pin_unknown pin_unusable : PinResult

-- The statement's path at `at`; `pinned` is what a successful pin leaves.
unfoldable pub pin_on :
    PathPlane → Sinks → (id : List ℕ) (now : ℕ) (at : Option ℕ) → PinResult × PathPlane
pin_on pl k id now none = (pin_unknown, pl)
pin_on pl k id now (some i) =
    let p = now_usable k (slot pl.t i) in
    let t = record pl.t { p = set pl.t.p i p } in
    if not p.usable then (pin_unusable, record pl { t = t }) else (
      pin_ok,
      record pl {
        t = record t { sel = some i };
        pin_id = id;
        pin_warmth = warmth_of p now;
        pinned = true;
      },
    )

unfoldable pub plane_pin : PathPlane → Sinks → (id : List ℕ) (now : ℕ) → PinResult × PathPlane
plane_pin pl k id now = pin_on pl k id now (named id pl.t)

unfoldable pub carry_rtt : PathPlane → Option ℕ
carry_rtt pl = elim pl.t.sel [
  | none ↦ none
  | some i ↦ if (slot pl.t i).qualified then some (srtt_ms (slot pl.t i)) else none
]

unfoldable pub proven_of : (now : ℕ) → List NetPath → ℕ
proven_of now [] = 0
proven_of now (p ∷ ps) =
    (if p.used && (p.qualified && not (is_dead (warmth_of p now))) then 1 else 0) + proven_of now ps

unfoldable pub proven : PathPlane → (now : ℕ) → ℕ
proven pl now = proven_of now pl.t.p
