-- ===== src/PathPlane/Tests.antt =====
-- The path plane on small inputs (src/pathplane.c).
use comrade.Prelude.{
  ℕ, ◌≡◌, ◌⊎◌, refl, true, false, none, some, List, [], ◌∷◌, ◌++◌, arith, replicate, map, bytes_eq,
  if◌then◌else◌,
}
use comrade.Prelude.Int.{pos}
use comrade.Samples.{summing, clear, key}
use comrade.Replay.Defs.{replay_ok, advance, zeroed}
use comrade.Paths.Ep.{zero_ep, v4_prefix, in4, any, ep_eq, from_sockaddr}
use comrade.Paths.Types.{NetPath, routed, warm, zero_path}
use comrade.Paths.Table.{first}
use comrade.Paths.Measure.{probe_pong, srtt_update, rtt_record, loss_record}
use comrade.Paths.Observe.{Probe, apply_tail, saw_inbound}
use comrade.Paths.Probe.{parse, parse_plain, parse_tail, probe_is, get32}
use comrade.Paths.Rank.{select}
use comrade.Seal.{msg_open, msg_open_ad}
use comrade.ProbePlane.{Plane, plane_open, open_base, base_allows, paired_or, fresh}
use comrade.PathPlane.{heard_at, PathPlane, Sinks, no_hold, now_usable}
use comrade.PathPlane.Arrive.{
  recv, recv_on, recv_open, plane_apply, apply_pong, pong_on, pong_at, note_probe, nonce_path,
  from_src,
}
use comrade.PathPlane.Arrive.Reflected.{recv-reflected}
use comrade.PathPlane.Arrive.Answers.{Answered, recv-qualified}
use comrade.PathPlane.Carry.{decide}
use comrade.PathPlane.Carry.Pinned.{Stands, decide-pinned}
use comrade.PathPlane.Holds.{hold_at, holds_reap, hold_carrying}
use comrade.PathPlane.Holds.Kept.{spent, holds_reap-exact}

-- One path off ICE that waits for the answer to nonce 5.
abbrev asking : NetPath
asking = record zero_path {
  used = true;
  usable = true;
  kind = routed;
  remote = in4 (192 ∷ 0 ∷ 2 ∷ 1 ∷ []) 4242;
  peer_ep = record { addr = v4_prefix ++ (192 ∷ 0 ∷ 2 ∷ 1 ∷ []); port = 4242 };
  nonce = 5;
  sent_ms = 100;
  outstanding = true;
}

abbrev keys : Plane
keys = record {
  magic = 0xc03d0001;
  base = key;
  pair = [];
  pair_ready = false;
  pair_tx = false;
  base_ok = true;
  seq = 0;
  rx = zeroed;
  data_seq = 0;
  data_rx = zeroed;
}

abbrev plane : PathPlane
plane = record {
  t = record { p = asking ∷ replicate 7 zero_path; sel = some 0 };
  pin_id = replicate 8 0;
  pinned = true;
  pin_warmth = warm;
  pp = keys;
  next_ice_ep_ms = 0;
  holds = record { agent = some 3; ctx = none; until_ms = 50 } ∷ replicate 15 no_hold;
  bh_kind = none;
  bh_ep = zero_ep;
  bh_mute = false;
}

abbrev sinks : Sinks
sinks = record {
  ident = 97 ∷ [];
  live = none;
  ice_ep = none;
  is_self = none;
  kind_of = none;
  heard = true;
  qualified = true;
  agent_free = true;
  agent_failed = none;
  other = false;
}

-- A pong for nonce 5 with number 3 and the name that this end has.
abbrev pong : Probe
pong = record {
  type = 2;
  nonce = 5;
  seq = 3;
  ufrag = 97 ∷ [];
  have_tail = false;
  echo = zero_ep;
  srtt_ms = pos 0;
  loss_ppt = pos 0;
  base_srtt_ms = pos 0;
}

abbrev pong_wire : List ℕ
pong_wire =
    0xc0
    ∷ 0x3d
    ∷ 0
    ∷ 1
    ∷ (replicate 24 9
        ++ (replicate 16 0
            ++ (2 ∷ 0 ∷ 0 ∷ 0 ∷ 0 ∷ 0 ∷ 0 ∷ 0 ∷ 5 ∷ 0 ∷ 0 ∷ 0 ∷ 0 ∷ 0 ∷ 0 ∷ 0 ∷ 3 ∷ 1 ∷ 97 ∷ [])))

-- The question itself, come back.
abbrev ping : Probe
ping = record pong { type = 1 }

abbrev ping_wire : List ℕ
ping_wire =
    0xc0
    ∷ 0x3d
    ∷ 0
    ∷ 1
    ∷ (replicate 24 9
        ++ (replicate 16 0
            ++ (1 ∷ 0 ∷ 0 ∷ 0 ∷ 0 ∷ 0 ∷ 0 ∷ 0 ∷ 5 ∷ 0 ∷ 0 ∷ 0 ∷ 0 ∷ 0 ∷ 0 ∷ 0 ∷ 3 ∷ 1 ∷ 97 ∷ [])))

recv-reflected_example :
    let r = (recv summing clear plane sinks ping_wire routed none none 130 none).1 in
    ((r.0 ≡ []) ⊎ (r.0 ≡ heard_at 130 ∷ [])) × (r.1 ≡ record plane { pp = r.1.pp })
unfolding nonce_path plane_open open_base base_allows paired_or parse parse_plain parse_tail
    probe_is get32 msg_open msg_open_ad first
recv-reflected_example =
    recv-reflected summing clear sinks ping routed none none 130 none plane ping_wire 0 refl refl
      refl

recv-qualified_example :
    (pr : Probe) × ((plane_open clear plane.pp pong_wire).0 ≡ some pr)
    × (bytes_eq pr.ufrag sinks.ident ≡ true)
    × ((fresh (plane_open clear plane.pp pong_wire).1 pr).0 ≡ true)
    × Answered plane.t 0 pr routed (from_src (some (in4 (192 ∷ 0 ∷ 2 ∷ 1 ∷ []) 4242)))
unfolding recv recv_on recv_open plane_apply apply_pong pong_on pong_at note_probe nonce_path
    plane_open open_base base_allows paired_or fresh replay_ok advance parse parse_plain parse_tail
    probe_is get32 msg_open msg_open_ad first probe_pong srtt_update rtt_record loss_record
    apply_tail saw_inbound any ep_eq from_sockaddr
recv-qualified_example =
    recv-qualified summing clear sinks routed (some (in4 (192 ∷ 0 ∷ 2 ∷ 1 ∷ []) 4242)) 0 plane
      pong_wire none 130 none refl refl

decide-pinned_example :
    Stands plane.pin_id plane.pin_warmth 200 (decide plane sinks 200).1
    ⊎ (((decide plane sinks 200).1.pinned ≡ false)
        × ((decide plane sinks 200).1.t
            ≡ (select (record plane.t { p = map (now_usable sinks) plane.t.p }) 200).1))
decide-pinned_example = decide-pinned plane sinks 200 refl

holds_reap-exact_example : hold_at (holds_reap plane sinks 60).1 0 ≡ (
    if spent sinks (hold_carrying plane) 60 0 (hold_at plane 0) then no_hold else hold_at plane 0)
holds_reap-exact_example = holds_reap-exact plane sinks 60 0 (omega arith)
