-- ===== src/PathPlane/Arrive.antt =====
-- What a probe that arrives does (`recv_path` to `pathplane_claims` of src/pathplane.c).
pub mod Sources
pub mod Answers
pub mod Reflected
use comrade.Prelude.{
  ℕ, Bool, true, false, not, ◌&&◌, ◌||◌, Option, none, some, List, [], ◌∷◌, ◌++◌, ◌==◌,
  if◌then◌else◌, set, bytes_eq,
}
use comrade.Prelude.Int.{pos}
use comrade.Paths.Ep.{Ep, Os, Sockaddr, zero_ep, any, ep_eq}
use comrade.Paths.Types.{NetPath, PathKind, ice}
use comrade.Paths.Measure.{probe_pong}
use comrade.Paths.Table.{Table, slot, same_kind, first, find_ep, find_agent, is_none}
use comrade.Paths.Admit.{offer}
use comrade.Paths.Observe.{Probe, saw_inbound, apply_tail, fill_tail}
use comrade.Paths.Probe.{probe_max}
use comrade.Seal.{Aead}
use comrade.ProbePlane.{Plane, plane_seal, plane_open, fresh}
use comrade.PathPlane.{
  PathPlane, Sinks, Effect, sent, heard_at, qualifies, handed, is_self, kind_of, blackholed, ep_of,
}

-- PROBE_PING, PROBE_PONG
abbrev pub probe_ping : ℕ
probe_ping = 1

abbrev pub probe_pong_type : ℕ
probe_pong_type = 2

abbrev pub is_ice : PathKind → Bool
is_ice kind = same_kind kind ice

-- The path that a frame arrived on.
unfoldable pub recv_path : Table → PathKind → Ep → (agent : Option ℕ) → Option ℕ
recv_path t kind src agent = if is_ice kind then find_agent t agent else find_ep t src

-- The path that a nonce names.
unfoldable pub nonce_path : Table → (nonce : ℕ) → Option ℕ
nonce_path t nonce = first (λ p. p.used && (p.outstanding && p.nonce == nonce)) 0 t.p

abbrev pub zero_probe : (type nonce : ℕ) → Probe
zero_probe type nonce = record {
  type = type;
  nonce = nonce;
  seq = 0;
  ufrag = [];
  have_tail = false;
  echo = zero_ep;
  srtt_ms = pos 0;
  loss_ppt = pos 0;
  base_srtt_ms = pos 0;
}

abbrev pub has_src : Option Sockaddr → Bool
has_src none = false
has_src (some sa) = true

-- The source endpoint, all zero where none is known.
abbrev pub from_src : Option Sockaddr → Ep
from_src src = elim (ep_of src) [ none ↦ zero_ep | some e ↦ e ]

-- The source, or where the path goes where ICE reports none.
abbrev source : Ep → NetPath → Ep
source from p = if any from then p.peer_ep else from

-- A ping with a nonce that this end waits on: its own, come back.
abbrev pub reflected : Table → Probe → Bool
reflected t pr = not (is_none (nonce_path t pr.nonce))

-- Whether the test hook swallows the answer, for the path at `at` or for the source's kind.
abbrev pub swallowed :
    PathPlane → Table → (at : Option ℕ) (srck : PathKind) (src : Option Sockaddr) → Bool
swallowed pl t none srck src = blackholed pl srck src
swallowed pl t (some i) srck src = blackholed pl (slot t i).kind src

-- An answer from another place than the question went to.
abbrev pub strayed : PathKind → Option Sockaddr → Ep → NetPath → Bool
strayed kind src from p =
    not (is_ice kind) && (has_src src && (not (any from) && not (ep_eq from p.peer_ep)))

module _ (os : Os) where
  -- What a path takes from a probe of its peer.
  unfoldable pub note_probe : (key : List ℕ) → NetPath → Probe → Ep → NetPath
  note_probe key p pr from = apply_tail os key (saw_inbound p (source from p)) pr

  -- The path that a ping is answered on, where there is one, and the table.
  unfoldable pub adopt :
      PathPlane
      → Sinks
      → PathKind
      → Ep
      → Option Sockaddr
      → (agent : Option ℕ) (now : ℕ) → Option ℕ × Table
  adopt pl k kind from src agent now =
      let at = recv_path pl.t kind from agent in
      let srck = if is_ice kind then kind else kind_of k from in
      if is_none at && (has_src src && (not (is_ice kind) && not (is_self k from)))
      then offer os pl.t srck src now
      else (at, pl.t)

  -- The answer, and the table, once the path is known.
  unfoldable pub answer : (key : List ℕ) → Table → Probe → Ep → (at : Option ℕ) → Probe × Table
  answer key t pr from none =
      (record (zero_probe probe_pong_type pr.nonce) { have_tail = true; echo = from }, t)
  answer key t pr from (some i) =
      let p = note_probe key (slot t i) pr from in
      (fill_tail p (zero_probe probe_pong_type pr.nonce), record t { p = set t.p i p })

module _ (os : Os) (aead : Aead) where
  -- A probe that goes out sealed on a path's carrier.
  unfoldable pub send_sealed :
      PathPlane
      → Probe
      → (mine : List ℕ) → PathKind
      → (agent : Option ℕ) (to : Option Sockaddr) → (random : Option (List ℕ))
      → List Effect × PathPlane
  send_sealed pl pr mine kind agent to random =
      let (out, pp) = plane_seal aead pl.pp pr mine probe_max random in
      (elim out [ none ↦ [] | some bytes ↦ sent kind agent to bytes ∷ [] ], record pl { pp = pp })

  unfoldable pub apply_ping :
      PathPlane
      → Sinks
      → Probe
      → PathKind
      → (from : Ep) (src : Option Sockaddr) (agent : Option ℕ)
      → (now : ℕ) (random : Option (List ℕ)) → List Effect × PathPlane
  apply_ping pl k pr kind from src agent now random =
      let srck = if is_ice kind then kind else kind_of k from in
      let (at, t) = adopt os pl k kind from src agent now in
      let (rp, t') = answer os pl.pp.base t pr from at in
      let pl' = record pl { t = t' } in
      if reflected pl.t pr
      then ([], pl)
      else if swallowed pl t at srck src
      then ([], pl')
      else send_sealed pl' rp k.ident kind agent src random

  -- A pong on the path that its nonce names.
  unfoldable pub pong_at :
      PathPlane
      → Sinks
      → Probe
      → PathKind
      → (from : Ep) (src : Option Sockaddr) → (now i : ℕ) → List Effect × PathPlane
  pong_at pl k pr kind from src now i =
      let p = slot pl.t i in
      let (ok, p') = probe_pong (note_probe os pl.pp.base p pr from) pr.nonce now in
      if strayed kind src from p then ([], pl) else (
        (if ok && not p.qualified && k.qualified then qualifies ∷ [] else []),
        record pl { t = record pl.t { p = set pl.t.p i p' } },
      )

  unfoldable pub pong_on :
      PathPlane
      → Sinks
      → Probe
      → PathKind
      → (from : Ep) (src : Option Sockaddr) (now : ℕ) → (at : Option ℕ) → List Effect × PathPlane
  pong_on pl k pr kind from src now none = ([], pl)
  pong_on pl k pr kind from src now (some i) = pong_at pl k pr kind from src now i

  unfoldable pub apply_pong :
      PathPlane
      → Sinks
      → Probe
      → PathKind
      → (from : Ep) (src : Option Sockaddr) (now : ℕ) → List Effect × PathPlane
  apply_pong pl k pr kind from src now =
      pong_on pl k pr kind from src now (nonce_path pl.t pr.nonce)

  unfoldable pub plane_apply :
      PathPlane
      → Sinks
      → Probe
      → PathKind
      → (src : Option Sockaddr) (agent : Option ℕ) → (now : ℕ) (random : Option (List ℕ))
      → List Effect × PathPlane
  plane_apply pl k pr kind src agent now random =
      let from = from_src src in
      if pr.type == probe_ping
      then apply_ping pl k pr kind from src agent now random
      else if pr.type == probe_pong_type
      then apply_pong pl k pr kind from src now
      else (
        (if k.other
            then handed pr kind (is_ice kind || not (is_none (recv_path pl.t kind from agent))) ∷ []
            else []),
        pl,
      )

  -- Once the probe is open.
  unfoldable pub recv_open :
      PathPlane
      → Sinks
      → Probe
      → PathKind
      → (src : Option Sockaddr) (agent : Option ℕ) → (now : ℕ) (random : Option (List ℕ))
      → Bool × (List Effect × PathPlane)
  recv_open pl k pr kind src agent now random =
      let (new, pp) = fresh pl.pp pr in
      let pl' = record pl { pp = pp } in
      let (es, pl'') = plane_apply pl' k pr kind src agent now random in
      if not (bytes_eq pr.ufrag k.ident)
      then (false, ([], pl))
      else if not new
      then (false, ([], pl'))
      else (true, ((if k.heard then heard_at now ∷ [] else []) ++ es, pl''))

  unfoldable pub recv_on :
      PathPlane
      → Sinks
      → (opened : Option Probe) → PathKind
      → (src : Option Sockaddr) → (agent : Option ℕ) (now : ℕ) (random : Option (List ℕ))
      → Bool × (List Effect × PathPlane)
  recv_on pl k none kind src agent now random = (false, ([], pl))
  recv_on pl k (some pr) kind src agent now random = recv_open pl k pr kind src agent now random

  unfoldable pub recv :
      PathPlane
      → Sinks
      → List ℕ
      → PathKind
      → (src : Option Sockaddr) (agent : Option ℕ) (now : ℕ) → (random : Option (List ℕ))
      → Bool × (List Effect × PathPlane)
  recv pl k wire kind src agent now random =
      let opened = plane_open aead pl.pp wire in
      recv_on (record pl { pp = opened.1 }) k opened.0 kind src agent now random

  -- The verdict: not this plane's, its own, or its own again (0, 1 and -1).
  unfoldable pub claims : PathPlane → Sinks → List ℕ → Option Bool × (Option Probe × PathPlane)
  claims pl k wire =
      let opened = plane_open aead pl.pp wire in
      let pl' = record pl { pp = opened.1 } in
      elim opened.0 [
        | none ↦ (none, (none, pl'))
        | some pr ↦
            let (new, pp) = fresh pl'.pp pr in
            if not (pr.type == probe_ping)
              || (bytes_eq pr.ufrag [] || not (bytes_eq k.ident pr.ufrag))
            then (none, (some pr, pl'))
            else (some new, (some pr, record pl' { pp = pp }))
      ]
