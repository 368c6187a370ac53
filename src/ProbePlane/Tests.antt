-- ===== src/ProbePlane/Tests.antt =====
-- The keys of a connection on small inputs (src/probeplane.c).
use comrade.Prelude.{
  ℕ, ◌≡◌, refl, ◌⊎◌, true, false, none, some, List, [], ◌∷◌, ◌++◌, arith, replicate, length, take,
  drop,
}
use comrade.Prelude.Int.{pos}
use comrade.Replay.Defs.{replay_ok, advance, zeroed}
use comrade.Paths.Ep.{zero_ep}
use comrade.Paths.Observe.{Probe}
use comrade.Paths.Probe.{parse, parse_plain, parse_tail, probe_is, get32}
use comrade.Seal.{msg_open, msg_open_ad}
use comrade.Samples.{summing, summing-IsDigest, clear, key, body, wire}
use comrade.DataAuth.{open_body, tag_of, tag_eq, differing}
use comrade.ProbePlane.{
  Plane, probe_fresh, Call, call_bind, call_tx_ready, call_unwrap, call_wrap, init, run, step,
  unwrap, unwrap_base, admit_or, admit, saw_pair, bind, tx_ready, plane_wrap, plane_open, open_base,
  paired_or, base_allows,
}
use comrade.ProbePlane.Once.{unwrap_once}
use comrade.ProbePlane.Stretches.{
  Stretch, st_reset, st_tx_ready, st_saw_pair, st_wrap, st_bind, touch, touched, admit_once,
}
use comrade.ProbePlane.Paired.{unwrap-paired, open-paired}

abbrev between : List Call
between = call_bind (1 ∷ []) (2 ∷ []) ∷ call_unwrap wire ∷ call_wrap 64 body ∷ []

unwrap_once_example :
    (unwrap summing
      (run summing clear
        (unwrap summing (run summing clear (init 7 key 1) (call_tx_ready ∷ [])) wire).1
        between)
      wire).0
    ≡ none
unfolding init run step unwrap unwrap_base admit_or admit saw_pair bind tx_ready plane_wrap
    open_body tag_of tag_eq differing replay_ok advance
unwrap_once_example = unwrap_once summing clear 7 key 1 (call_tx_ready ∷ []) between wire 2 refl

-- Another thread's key and counter between two that took the same datagram in.
abbrev stretches : List Stretch
stretches = st_bind (1 ∷ []) (2 ∷ []) ∷ st_saw_pair ∷ st_wrap ∷ st_reset ∷ []

admit_once_example :
    (admit
      (touched summing
        (admit (touched summing (init 7 key 1) (st_tx_ready ∷ [])) (2, 258)).1
        stretches)
      (2, 258)).0
    ≡ none
unfolding init touched touch admit saw_pair bind tx_ready open_body tag_of tag_eq differing
    replay_ok advance
admit_once_example =
    admit_once summing 7 key 1 (st_tx_ready ∷ []) stretches wire key key (2, 258) (2, 258) 2 refl
      refl refl

abbrev paired : Plane
paired = record {
  magic = 0xc03d0001;
  base = 9 ∷ [];
  pair = key;
  pair_ready = true;
  pair_tx = true;
  base_ok = true;
  seq = 0;
  rx = zeroed;
  data_seq = 257;
  data_rx = zeroed;
}

-- A pong with no name and no tail, under a cipher that hides nothing.
abbrev pong : Probe
pong = record {
  type = 2;
  nonce = 0;
  seq = 0;
  ufrag = [];
  have_tail = false;
  echo = zero_ep;
  srtt_ms = pos 0;
  loss_ppt = pos 0;
  base_srtt_ms = pos 0;
}

abbrev pong_wire : List ℕ
pong_wire = 0xc0 ∷ 0x3d ∷ 0 ∷ 1 ∷ (replicate 24 9 ++ (replicate 16 0 ++ (2 ∷ replicate 17 0)))

abbrev calls : List Call
calls = call_tx_ready ∷ call_wrap 64 body ∷ []

unwrap-paired_example : (length wire ≡ 26) × (drop 10 wire ≡ tag_of summing key (take 10 wire))
unfolding run step unwrap unwrap_base admit_or admit saw_pair tx_ready plane_wrap plane_open
    open_base paired_or base_allows open_body tag_of tag_eq differing replay_ok advance parse
    parse_plain parse_tail probe_is get32 msg_open msg_open_ad
unwrap-paired_example =
    unwrap-paired summing clear paired pong_wire pong calls wire 2 summing-IsDigest refl refl
      (ground arith) refl

open-paired_example :
    (parse clear (run summing clear (plane_open clear paired pong_wire).1 calls).magic key pong_wire
      ≡ some pong)
    ⊎ (pong.type ≡ probe_fresh)
unfolding run step saw_pair tx_ready plane_wrap plane_open open_base paired_or base_allows parse
    parse_plain parse_tail probe_is get32 msg_open msg_open_ad
open-paired_example =
    open-paired summing clear paired pong_wire pong calls pong_wire pong refl refl (ground arith)
      refl
