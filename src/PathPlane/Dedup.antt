-- ===== src/PathPlane/Dedup.antt =====
-- One carrier for each route (`pathplane_route_dedup` of src/pathplane.c), and the count of paths off
-- ICE (`pathplane_lan_paths`).
use comrade.Prelude.{
  ℕ, zero, suc, ◌+◌, Bool, false, not, ◌&&◌, ◌||◌, Option, none, some, List, [], ◌∷◌, ◌++◌, ◌==◌,
  leb, if◌then◌else◌,
}
use comrade.Paths.Ep.{Sockaddr, in6, octet, any, same_addr}
use comrade.Paths.Types.{NetPath, ice, path_table_max}
use comrade.Paths.Table.{Table, slot, same_kind, is_sel}
use comrade.PathPlane.{PathPlane, Sinks, Effect, Hold, no_hold}
use comrade.PathPlane.Holds.{same_id, free_agent}

-- Whether two paths run over agents that nominated one route.
unfoldable pub same_route : NetPath → NetPath → Bool
same_route p q =
    p.used
    && (same_kind p.kind ice
        && (not (any p.peer_ep)
            && (q.used
                && (same_kind q.kind ice
                    && (same_addr p.peer_ep q.peer_ep
                        && (p.have_self_ep
                            && (q.have_self_ep && same_addr p.self_ep q.self_ep)))))))

-- The agent of the two paths that is let go: the later one's, unless it is in use or carries.
unfoldable pub redundant : Table → (live : Option ℕ) → (i j : ℕ) → Option ℕ
redundant t live i j =
    if not (same_id (slot t j).agent live) && not (is_sel t.sel j)
    then (slot t j).agent
    else if not (same_id (slot t i).agent live) && not (is_sel t.sel i)
    then (slot t i).agent
    else none

-- The first hold of an agent: its context, and the holds without it.
unfoldable pub take_first : (agent : Option ℕ) → List Hold → Option (Option ℕ × List Hold)
take_first agent [] = none
take_first agent (h ∷ hs) =
    let rest = take_first agent hs in
    if same_id h.agent agent
    then some (h.ctx, no_hold ∷ hs)
    else elim rest [ none ↦ none | some r ↦ some (r.0, h ∷ r.1) ]

-- A carrier that was set aside and is to be freed: its agent and its context.
abbrev pub Loser : Type 0
Loser = Option ℕ × Option ℕ

unfoldable pub lose : Option ℕ → List Hold → List Loser × List Hold
lose none holds = ([], holds)
lose (some a) holds = elim (take_first (some a) holds) as (λ r. List Loser × List Hold) [
  | none ↦ ([], holds)
  | some r ↦ ((some a, r.0) ∷ [], r.1)
]

-- The inner loop, with `left` slots from `j` on.
unfoldable pub against :
    Table → (live : Option ℕ) (i left j : ℕ) → List Hold → List Loser × List Hold
against t live i zero j holds = ([], holds)
against t live i (suc left) j holds =
    let lost = lose (redundant t live i j) holds in
    let after = against t live i left (suc j) lost.1 in
    let kept = against t live i left (suc j) holds in
    if same_route (slot t i) (slot t j) then (lost.0 ++ after.0, after.1) else kept

-- The outer loop.
unfoldable pub losers_from :
    Table → (live : Option ℕ) (left i : ℕ) → List Hold → List Loser × List Hold
losers_from t live zero i holds = ([], holds)
losers_from t live (suc left) i holds =
    let here = against t live i left (suc i) holds in
    let rest = losers_from t live left (suc i) here.1 in (here.0 ++ rest.0, rest.1)

unfoldable pub free_all : PathPlane → Sinks → List Loser → List Effect × PathPlane
free_all pl k [] = ([], pl)
free_all pl k ((agent, ctx) ∷ ls) =
    let freed = free_agent pl k agent ctx in
    let rest = free_all freed.1 k ls in (freed.0 ++ rest.0, rest.1)

unfoldable pub route_dedup : PathPlane → Sinks → (live : Option ℕ) → List Effect × PathPlane
route_dedup pl k live =
    let (losers, holds) = losers_from pl.t live path_table_max 0 pl.holds in
    free_all (record pl { holds = holds }) k losers

-- IN6_IS_ADDR_LINKLOCAL: fe80::/10. The path's address is in IPv6 form, or zero.
abbrev pub is_linklocal : Sockaddr → Bool
is_linklocal (in6 addr port scope) =
    octet addr 0 == 0xfe && (leb 0x80 (octet addr 1) && leb (octet addr 1) 0xbf)
is_linklocal _ = false

unfoldable pub lan_paths_of : (routable_only : Bool) → List NetPath → ℕ
lan_paths_of routable_only [] = 0
lan_paths_of routable_only (p ∷ ps) =
    (if not p.used || (same_kind p.kind ice || routable_only && is_linklocal p.remote)
      then 0
      else 1)
    + lan_paths_of routable_only ps

unfoldable pub lan_paths : PathPlane → (routable_only : Bool) → ℕ
lan_paths pl routable_only = lan_paths_of routable_only pl.t.p
