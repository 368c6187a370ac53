-- ===== src/PathPlane/Tick.antt =====
-- One round of probes and the decision (`tick_probes` and `pathplane_tick` of src/pathplane.c).
use comrade.Prelude.{
  ℕ, ◌+◌, ◌%◌, ◌^◌, Bool, true, false, not, ◌&&◌, Option, none, some, List, [], ◌∷◌, leb,
  if◌then◌else◌, map,
}
use comrade.Paths.Ep.{Ep, Os, Sockaddr}
use comrade.Paths.Types.{NetPath, PathKind, ice, path_keep_ms}
use comrade.Paths.Measure.{warmth_of, probe_expire, probe_due, probe_sent}
use comrade.Paths.Table.{same_kind, same_agent}
use comrade.Paths.Observe.{Probe, set_peer_ep, fill_tail}
use comrade.Paths.Probe.{probe_max}
use comrade.Seal.{Aead}
use comrade.ProbePlane.{Plane, plane_seal}
use comrade.PathPlane.{PathPlane, Sinks, Effect, sent, now_usable, blackholed}
use comrade.PathPlane.Arrive.{zero_probe, probe_ping}
use comrade.PathPlane.Carry.{decide}

-- What each agent says of its nominated pair.
unfoldable pub nominated : (ice_ep : ℕ → Option Ep) → List ℕ → List (ℕ × Ep)
nominated ice_ep [] = []
nominated ice_ep (a ∷ as') =
    let rest = nominated ice_ep as' in elim (ice_ep a) [ none ↦ rest | some e ↦ (a, e) ∷ rest ]

unfoldable pub ice_eps : PathPlane → Sinks → (now : ℕ) → List (ℕ × Ep)
ice_eps pl k now =
    if leb pl.next_ice_ep_ms now
    then elim k.ice_ep [
      | none ↦ []
      | some f ↦ nominated f (elim k.live [ none ↦ [] | some live ↦ live ])
    ]
    else []

abbrev has_ice_ep : Sinks → Bool
has_ice_ep k = elim k.ice_ep [ none ↦ false | some f ↦ true ]

module _ (os : Os) (key : List ℕ) where
  -- The pair that a path's agent has nominated.
  unfoldable pub take_nominated : NetPath → List (ℕ × Ep) → NetPath
  take_nominated p [] = p
  take_nominated p ((a, e) ∷ eps) =
      let rest = take_nominated p eps in
      if same_agent p.agent a then set_peer_ep os key p e else rest

  -- The first pass over a slot.
  unfoldable pub refresh : Sinks → (now : ℕ) → List (ℕ × Ep) → NetPath → NetPath
  refresh k now eps p =
      let q = probe_expire (now_usable k p) now in
      let r = if q.qualified then record q { warmth_noted = warmth_of q now } else q in
      if not p.used then p else if same_kind r.kind ice then take_nominated r eps else r

-- A probe that is to go out.
pub record Asked : Type 0 where
  pub kind : PathKind
  pub agent : Option ℕ
  pub drop : Bool
  pub to : Sockaddr
  pub probe : Probe

abbrev pub is_due : (now : ℕ) → NetPath → Bool
is_due now p = p.usable && probe_due p now

unfoldable pub ask : PathPlane → (now nonce : ℕ) → NetPath → Asked
ask pl now nonce p = record {
  kind = p.kind;
  agent = p.agent;
  drop = blackholed pl p.kind (some p.remote);
  to = p.remote;
  probe = fill_tail p (zero_probe probe_ping nonce);
}

-- The second pass: each due path takes the next nonce, and its probe counts as sent.
unfoldable pub ask_due :
    PathPlane → (now : ℕ) → (nonces : List ℕ) → List NetPath → List Asked × List NetPath
ask_due pl now nonces [] = ([], [])
ask_due pl now [] (p ∷ ps) = ([], p ∷ ps)
ask_due pl now (nonce ∷ nonces) (p ∷ ps) =
    let next = ask_due pl now nonces ps in
    let skip = ask_due pl now (nonce ∷ nonces) ps in
    if is_due now p
    then (ask pl now nonce p ∷ next.0, probe_sent p nonce now ∷ next.1)
    else (skip.0, p ∷ skip.1)

module _ (aead : Aead) where
  -- What goes out, until a seal fails; a draw of random bytes for each seal.
  unfoldable pub send_asked :
      Plane → (mine : List ℕ) → (random : List (List ℕ)) → List Asked → List Effect × Plane
  send_asked pp mine random [] = ([], pp)
  send_asked pp mine [] (a ∷ as') =
      let rest = send_asked pp mine [] as' in
      if a.drop then rest else ([], (plane_seal aead pp a.probe mine probe_max none).1)
  send_asked pp mine (r ∷ random) (a ∷ as') =
      let out = plane_seal aead pp a.probe mine probe_max (some r) in
      let rest = send_asked pp mine (r ∷ random) as' in
      let after = send_asked out.1 mine random as' in
      if a.drop then rest else elim out.0 as (λ o. List Effect × Plane) [
        | none ↦ ([], out.1)
        | some bytes ↦ (sent a.kind a.agent (some a.to) bytes ∷ after.0, after.1)
      ]

module _ (os : Os) (aead : Aead) where
  -- The refreshed plane, before anything is asked.
  unfoldable pub refresh_all : PathPlane → Sinks → (now : ℕ) → PathPlane
  refresh_all pl k now = record pl {
    t = record pl.t { p = map (refresh os pl.pp.base k now (ice_eps pl k now)) pl.t.p };
    next_ice_ep_ms =
        if leb pl.next_ice_ep_ms now && has_ice_ep k
        then (now + path_keep_ms) % 2 ^ 64
        else pl.next_ice_ep_ms;
  }

  unfoldable pub ask_all :
      PathPlane
      → Sinks
      → (now : ℕ) (nonces : List ℕ) (random : List (List ℕ)) → List Effect × PathPlane
  ask_all pl k now nonces random =
      let (asked, ps) = ask_due pl now nonces pl.t.p in
      let (es, pp) = send_asked aead pl.pp k.ident random asked in
      (es, record pl { t = record pl.t { p = ps }; pp = pp })

  -- `nonces` is what is drawn for the paths that are due.
  unfoldable pub tick_probes :
      PathPlane
      → Sinks
      → (now : ℕ) (nonces : Option (List ℕ)) (random : List (List ℕ)) → List Effect × PathPlane
  tick_probes pl k now nonces random = elim k.ident as (λ i. List Effect × PathPlane) [
    | [] ↦ ([], pl)
    | _ ∷ _ ↦ elim nonces as (λ i. List Effect × PathPlane) [
      | none ↦ ([], refresh_all pl k now)
      | some ns ↦ ask_all (refresh_all pl k now) k now ns random
    ]
  ]

  unfoldable pub tick :
      PathPlane
      → Sinks
      → (now : ℕ) (nonces : Option (List ℕ)) (random : List (List ℕ))
      → Bool × (List Effect × PathPlane)
  tick pl k now nonces random =
      let (es, pl') = tick_probes pl k now nonces random in
      let (pick, pl'') = decide pl' k now in (pick.moved && pick.qualified, (es, pl''))
