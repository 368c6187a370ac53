-- ===== src/CtlPlane/Hear.antt =====
-- What an end hears (`on_pong` to `ctlplane_on_msg` of src/ctlplane.c).
use comrade.Prelude.{
  ℕ, bit_or, Bool, true, false, not, ◌&&◌, ◌||◌, Option, none, some, List, [], ◌∷◌, if◌then◌else◌,
  ltb, leb, ◌==◌, take, length,
}
use comrade.Claims.{since}
use comrade.Paths.Ep.{Os, Sockaddr, in6, octet}
use comrade.ProbePlane.{tx_ready}
use comrade.CtlProto.{txsel_decode, rdv_decode, get_u64, rdv_plen, txsel_plen, reach_plen}
use comrade.CtlPlane.{
  Ctl, Sinks, Effect, send, offered, ponged, others, to_int, ctlm_ping, ctlm_pong, ctlm_rdv,
  ctlm_cand, ctlm_reach, ctlm_rdvask, ctlm_key, ctlm_keyok, ctlm_txsel, ctlm_txack, key_plen,
  ts_len, rdvst_plen, rdvask_plen,
}
use comrade.CtlPlane.Say.{key_bind}

-- `k->answer_ping` where there is one.
abbrev answers : Sinks → Bool
answers k = elim k.answer_ping [ none ↦ true | some a ↦ a ]

unfoldable pub on_ping : Ctl → Sinks → List ℕ → List Effect × Ctl
on_ping c k pl = ((if answers k then send ctlm_pong (take ts_len pl) ∷ [] else []), c)

unfoldable pub on_pong : Ctl → Sinks → List ℕ → (netgen now : ℕ) → List Effect × Ctl
on_pong c k pl netgen now = (
  (if k.pong then ponged ∷ [] else []),
  record c {
    live = record c.live {
      last_pong_ms = now;
      rtt_ms = to_int (since now (get_u64 pl));
      pong_seen = true;
      live_gen = netgen;
    };
  },
)

abbrev pub note_node : Ctl → (status : ℕ) → Option Sockaddr → Ctl
note_node c status (some (in6 addr port scope)) = record c {
  rdv_in6 = record { sa = in6 addr port scope; have = true; status = status };
  rdv_in_dirty = true;
}
note_node c status (some sa) = record c {
  rdv_in4 = record { sa = sa; have = true; status = status };
  rdv_in_dirty = true;
}
note_node c status none = c

unfoldable pub on_rdv : Ctl → List ℕ → Ctl
on_rdv c pl =
    note_node c (if leb rdvst_plen (length pl) then octet pl rdv_plen else 0) (rdv_decode pl)

unfoldable pub on_reach : Ctl → List ℕ → Ctl
on_reach c pl = record c {
  reach_in = take reach_plen pl;
  reach_in_seen = true;
  reach_in_dirty = true;
}

unfoldable pub on_rdvask : Ctl → List ℕ → Ctl
on_rdvask c pl =
    if octet pl 0 == 4 || octet pl 0 == 6
    then record c { rdvask_in = bit_or c.rdvask_in (if octet pl 0 == 6 then 2 else 1) }
    else c

unfoldable pub hold_txsel : Ctl → Option (ℕ × List ℕ × ℕ) → Ctl
hold_txsel c none = c
hold_txsel c (some (seq, id, flags)) =
    if ltb c.txsel_seq_in seq
    then record c {
      txsel_seq_in = seq;
      txsel_in_id = id;
      txsel_in_flags = flags;
      txsel_in_pending = true;
    }
    else c

unfoldable pub on_txsel : Ctl → List ℕ → Ctl
on_txsel c pl = hold_txsel c (txsel_decode pl)

unfoldable pub hold_txack : Ctl → Option (ℕ × List ℕ × ℕ) → Ctl
hold_txack c none = c
hold_txack c (some (seq, id, flags)) =
    if not (c.txsel_wait == 0) && seq == c.txsel_wait
    then record c { txack_in_id = id; txack_in_flags = flags; txack_in_pending = true }
    else c

unfoldable pub on_txack : Ctl → List ℕ → Ctl
on_txack c pl = hold_txack c (txsel_decode pl)

unfoldable pub on_cand : Ctl → Sinks → List ℕ → List Effect × Ctl
on_cand c k pl =
    (elim (rdv_decode pl) [ none ↦ [] | some sa ↦ if k.offer_path then offered sa ∷ [] else [] ], c)

module _ (os : Os) where
  unfoldable pub on_key : Ctl → List ℕ → List Effect × Ctl
  on_key c pl = key_bind os (record c { half_in = take key_plen pl; half_seen = true })

  unfoldable pub on_keyok : Ctl → Ctl
  on_keyok c = record c { pp = (tx_ready c.pp).1 }

  -- Whether the plane owned the message, the calls it made, and the plane.
  unfoldable pub on_msg :
      Ctl → Sinks → (type : ℕ) (pl : List ℕ) (netgen now : ℕ) → Bool × (List Effect × Ctl)
  on_msg c k type pl netgen now =
      let plen = length pl in
      if type == ctlm_ping && leb ts_len plen
      then (true, on_ping c k pl)
      else if type == ctlm_pong && leb ts_len plen
      then (true, on_pong c k pl netgen now)
      else if type == ctlm_rdv && leb rdv_plen plen
      then (true, ([], on_rdv c pl))
      else if type == ctlm_reach && leb reach_plen plen
      then (true, ([], on_reach c pl))
      else if type == ctlm_key && leb key_plen plen
      then (true, on_key c pl)
      else if type == ctlm_keyok
      then (true, ([], on_keyok c))
      else if type == ctlm_rdvask && leb rdvask_plen plen
      then (true, ([], on_rdvask c pl))
      else if type == ctlm_txsel && leb txsel_plen plen
      then (true, ([], on_txsel c pl))
      else if type == ctlm_txack && leb txsel_plen plen
      then (true, ([], on_txack c pl))
      else if type == ctlm_cand && leb rdv_plen plen
      then (true, on_cand c k pl)
      else (false, ((if k.other then others type pl ∷ [] else []), c))
