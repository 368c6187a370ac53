-- ===== src/PathPlane.antt =====
-- The paths of one connection, their probes and answers (src/pathplane.c): the state, here; the
-- rounds of probes in `Tick`, what arrives in `Arrive`, the choice and the pin in `Carry`, the
-- carriers set aside in `Holds` and `Dedup`. The lock makes each stretch one step; callbacks are effects, in
-- order, and what a callback answers is an argument (`Sinks`). Log lines are left out.
pub mod Arrive
pub mod Carry
pub mod Holds
pub mod Dedup
pub mod Tick
mod Tests
use comrade.Prelude.{
  ℕ, ◌+◌, Bool, true, false, not, ◌&&◌, ◌||◌, Option, none, some, List, [], ◌∷◌, ◌++◌, ◌==◌,
  if◌then◌else◌, replicate, get_or, set,
}
use comrade.Paths.Ep.{Ep, Os, Sockaddr, unspec, zero_ep, any, ep_eq, is_unicast, from_sockaddr}
use comrade.Paths.Types.{NetPath, PathKind, routed, ice, Warmth, warm, zero_path}
use comrade.Paths.Table.{Table, slot, same_kind, find_ep, find_port, is_none}
use comrade.Paths.Admit.{add, offer}
use comrade.Paths.Reclaim.{drop_agent, drop_kind, any_qualified, all_dead, reset_stats, clear}
use comrade.Paths.Adopt.{Adopt, allow}
use comrade.Paths.Observe.{Probe}
use comrade.Paths.Probe.{probe_is}
use comrade.ProbePlane.{Plane}

-- PATHPLANE_LIVE_MAX, PATHPLANE_HOLD_MAX
abbrev pub live_max : ℕ
live_max = 17

abbrev pub hold_max : ℕ
hold_max = 16

-- `struct pathplane_hold`. `ctx` is the identity of the context, none for NULL.
pub record Hold : Type 0 where
  pub agent : Option ℕ
  pub ctx : Option ℕ
  pub until_ms : ℕ

-- `struct pathplane`; `pp` is the probe plane that it points to, a `bh_kind` of -1 is none.
pub record PathPlane : Type 0 where
  pub t : Table
  pub pin_id : List ℕ
  pub pinned : Bool
  pub pin_warmth : Warmth
  pub pp : Plane
  pub next_ice_ep_ms : ℕ
  pub holds : List Hold
  pub bh_kind : Option PathKind
  pub bh_ep : Ep
  pub bh_mute : Bool

-- `struct pathplane_sinks`: what the callbacks answer, none where there is no callback that may be
-- missing; `other`, `heard` and `qualified` say whether there is one.
pub record Sinks : Type 0 where
  pub ident : List ℕ
  pub live : Option (List ℕ)
  pub ice_ep : Option (ℕ → Option Ep)
  pub is_self : Option (Ep → Bool)
  pub kind_of : Option (Ep → PathKind)
  pub heard : Bool
  pub qualified : Bool
  pub agent_free : Bool
  pub agent_failed : Option (ℕ → Bool)
  pub other : Bool

-- The calls of the callbacks that act.
pub data Effect : Type 0 where
  sent : PathKind → (agent : Option ℕ) (to : Option Sockaddr) (bytes : List ℕ) → Effect
  heard_at : (now : ℕ) → Effect
  qualifies : Effect
  freed : (agent ctx : Option ℕ) → Effect
  handed : Probe → PathKind → (held : Bool) → Effect

abbrev pub no_hold : Hold
no_hold = record { agent = none; ctx = none; until_ms = 0 }

unfoldable pub plane_init : Plane → PathPlane
plane_init pp = record {
  t = comrade.Paths.Table.init;
  pin_id = replicate 8 0;
  pinned = false;
  pin_warmth = warm;
  pp = pp;
  next_ice_ep_ms = 0;
  holds = replicate hold_max no_hold;
  bh_kind = none;
  bh_ep = zero_ep;
  bh_mute = false;
}

abbrev pub is_self : Sinks → Ep → Bool
is_self k e = elim k.is_self [ none ↦ false | some f ↦ f e ]

abbrev pub kind_of : Sinks → Ep → PathKind
kind_of k e = elim k.kind_of [ none ↦ routed | some f ↦ f e ]

abbrev pub member : ℕ → List ℕ → Bool
member a [] = false
member a (b ∷ bs) = b == a || member a bs

-- `agent_listed` on the carriers that can send; a path without an agent is on no list.
unfoldable pub usable_with : NetPath → List ℕ → Bool
usable_with p live =
    if not (same_kind p.kind ice)
    then true
    else elim p.agent [ none ↦ false | some a ↦ member a live ]

abbrev pub now_usable : Sinks → NetPath → NetPath
now_usable k p = record p { usable = elim k.live [ none ↦ true | some live ↦ usable_with p live ] }

-- Whether the test hook swallows what goes to this path.
unfoldable pub blackholed : PathPlane → PathKind → Option Sockaddr → Bool
blackholed pl kind to = if pl.bh_mute then true else elim pl.bh_kind [
  | none ↦ false
  | some k ↦
      if not (same_kind kind k) then false else if same_kind kind ice then true else elim to [
        | none ↦ false
        | some sa ↦ elim (from_sockaddr sa 28) [ none ↦ false | some e ↦ ep_eq e pl.bh_ep ]
      ]
]

-- The endpoint that a socket address names, where it names one.
abbrev pub ep_of : Option Sockaddr → Option Ep
ep_of none = none
ep_of (some sa) = from_sockaddr sa 28

unfoldable pub blackhole_arm : PathPlane → Option PathKind → Option Sockaddr → PathPlane
blackhole_arm pl kind to = record pl {
  bh_ep = elim (ep_of to) [ none ↦ zero_ep | some e ↦ e ];
  bh_kind = kind;
}

unfoldable pub blackhole_lift : PathPlane → PathPlane
blackhole_lift pl = record pl { bh_kind = none; bh_mute = false }

unfoldable pub plane_drop_ice : PathPlane → PathPlane
plane_drop_ice pl = record pl { t = drop_kind pl.t ice }

unfoldable pub plane_drop_agent : PathPlane → Option ℕ → PathPlane
plane_drop_agent pl agent = record pl { t = drop_agent pl.t agent }

unfoldable pub plane_reset_stats : PathPlane → (now : ℕ) → PathPlane
plane_reset_stats pl now = record pl { t = reset_stats pl.t now }

unfoldable pub plane_clear : PathPlane → PathPlane
plane_clear pl = record pl { t = clear pl.t }

unfoldable pub holds_ep : PathPlane → Ep → (exact : Bool) → Bool
holds_ep pl e exact =
    if exact then not (is_none (find_ep pl.t e)) else not (is_none (find_port pl.t e.port))

-- Whether a datagram may be opened, and the budget after it; `pl` may be missing.
unfoldable pub gate :
    Option PathPlane → Adopt → (magic : ℕ) → Ep → List ℕ → (now : ℕ) → Bool × Adopt
gate none a magic e wire now = if not (probe_is magic wire) then (true, a) else allow a e now
gate (some pl) a magic e wire now =
    if not (probe_is magic wire)
    then (true, a)
    else if holds_ep pl e true
    then (true, a)
    else allow a e now

module _ (os : Os) where
  unfoldable pub plane_add_ice : PathPlane → (agent : Option ℕ) (now : ℕ) → PathPlane
  plane_add_ice pl agent now = record pl { t = (add os pl.t ice none agent now).1 }

  -- Whether the plane holds the path afterwards.
  unfoldable pub plane_add_ep :
      PathPlane → Sinks → PathKind → Sockaddr → (now : ℕ) → Bool × PathPlane
  plane_add_ep pl k kind remote now =
      let (at, t) = add os pl.t kind (some remote) none now in
      if elim (from_sockaddr remote 28) [ none ↦ false | some e ↦ is_self k e ]
      then (false, pl)
      else (not (is_none at), record pl { t = t })

  unfoldable pub offer_ep : PathPlane → Sinks → Sockaddr → Ep → (now : ℕ) → PathPlane
  offer_ep pl k remote e now =
      if any e || e.port == 0
      then pl
      else if not (is_unicast e)
      then pl
      else if is_self k e
      then pl
      else record pl { t = (offer os pl.t (kind_of k e) (some remote) now).1 }

  unfoldable pub plane_offer_path : PathPlane → Sinks → Sockaddr → (now : ℕ) → PathPlane
  plane_offer_path pl k remote now = elim (from_sockaddr remote 28) [
    | none ↦ pl
    | some e ↦ offer_ep pl k remote e now
  ]
