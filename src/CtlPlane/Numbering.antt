-- ===== src/CtlPlane/Numbering.antt =====
-- The calls that number statements and answers, and those that leave the numbering (src/ctlplane.c).
use comrade.Prelude.{ℕ, Option, none, some, List, ◌≡◌, refl, arith}
use comrade.Paths.Ep.{Os, Sockaddr, in4, in6, unspec}
use comrade.CtlProto.{rdv_decode}
use comrade.CtlPlane.{Ctl, Sinks, ctl_reset, ctlm_txack}
use comrade.CtlPlane.Live.{live_reset, heard, judge}
use comrade.CtlPlane.Say.{
  key_bind, offer_key, tell_txsel, take_txsel, take_txack, ask_rdv, tell_asks, take_nodes,
  take_asks, take_reach,
}
use comrade.CtlPlane.Hear.{
  on_ping, on_pong, on_rdv, on_reach, on_key, on_keyok, on_rdvask, on_txsel, on_txack, on_cand,
  note_node,
}
use comrade.CtlPlane.Ops.{
  Op, op_hear, op_reset, op_offer_key, op_tell_txsel, op_take_txsel, op_take_txack, op_tell_asks,
  op_take_nodes, op_take_asks, op_take_reach, op_ask_rdv, op_live_reset, op_heard, op_judge, step,
  on_msg-keeps,
}

-- The fields that number statements and answers.
abbrev pub SameTx : (c d : Ctl) → Type 0
SameTx c d =
    (d.txsel_seq_out ≡ c.txsel_seq_out)
    × (d.txsel_seq_in ≡ c.txsel_seq_in)
    × (d.txsel_wait ≡ c.txsel_wait)
    × (d.txsel_in_pending ≡ c.txsel_in_pending)
    × (d.txack_in_pending ≡ c.txack_in_pending)
    × (d.txack_in_id ≡ c.txack_in_id)
    × (d.txack_in_flags ≡ c.txack_in_flags)

same : (c : Ctl) → SameTx c c
same c = (refl, refl, refl, refl, refl, refl, refl)

-- The call is an answer that arrives with this payload.
abbrev pub Acks : Op → List ℕ → Type 0
Acks (op_hear k type pl' netgen now) pl = (type ≡ ctlm_txack) × (pl' ≡ pl)
Acks _ pl = ⊥

abbrev pub Resets : Op → Type 0
Resets op_reset = Unit
Resets _ = ⊥

module _ (os : Os) where
  key_bind-SameTx : (c : Ctl) → SameTx c (key_bind os c).1
  unfolding key_bind
  key_bind-SameTx c = ground arith

  on_key-SameTx : (c : Ctl) (pl : List ℕ) → SameTx c (on_key os c pl).1
  unfolding on_key key_bind
  on_key-SameTx c pl = ground arith

  offer_key-SameTx : (c : Ctl) (random : Option (List ℕ)) → SameTx c (offer_key os c random).2
  unfolding offer_key key_bind
  offer_key-SameTx c none = same c
  offer_key-SameTx c (some half) = ground arith

  nodes-SameTx : (c : Ctl) → SameTx c (take_nodes c).1
  unfolding take_nodes
  nodes-SameTx c = ground arith

  reach-SameTx : (c : Ctl) → SameTx c (take_reach c).1
  unfolding take_reach
  reach-SameTx c = ground arith

  heard-SameTx : (c : Ctl) (now : ℕ) → SameTx c (heard c now)
  unfolding heard
  heard-SameTx c now = ground arith

  on_rdvask-SameTx : (c : Ctl) (pl : List ℕ) → SameTx c (on_rdvask c pl)
  unfolding on_rdvask
  on_rdvask-SameTx c pl = ground arith

  note_node-SameTx :
      (c : Ctl) (status : ℕ) (sa : Option Sockaddr) → SameTx c (note_node c status sa)
  note_node-SameTx c status none = same c
  note_node-SameTx c status (some (in6 addr port scope)) = same c
  note_node-SameTx c status (some (in4 addr port)) = same c
  note_node-SameTx c status (some unspec) = same c

  -- A property of the numbering holds after any call if it does after those that number.
  pub step-keeps {ℓ} :
      (op : Op) (P : Ctl → Type ℓ)
      → ((c d : Ctl) → SameTx c d → P c → P d)
      → ((c : Ctl) (pl : List ℕ) → P c → P (on_txsel c pl))
      → ((c : Ctl) (pl : List ℕ) → Acks op pl → P c → P (on_txack c pl))
      → ((c : Ctl) → Resets op → P c → P (ctl_reset c))
      → ((c : Ctl) (k : Sinks) (id : List ℕ) (flags : ℕ) → P c → P (tell_txsel c k id flags).2)
      → ((c : Ctl) → P c → P (take_txsel c).1)
      → ((c : Ctl) → P c → P (take_txack c).1)
      → (c : Ctl) → P c
      → P (step os c op)
  unfolding on_ping on_pong on_rdv on_reach on_keyok on_cand ask_rdv live_reset judge tell_asks
      take_asks
  step-keeps (op_hear k type pl netgen now) P resp txsel txack reset tell takes take_ack c h =
      on_msg-keeps os (λ r. P r.1) c k type pl netgen now h (resp c _ (same c) h)
        (resp c _ (note_node-SameTx c _ (rdv_decode pl)) h) (resp c _ (same c) h)
        (λ e long. resp c _ (on_key-SameTx c pl) h) (λ e. resp c _ (same c) h)
        (resp c _ (on_rdvask-SameTx c pl) h) (txsel c pl h) (λ e. txack c pl (e, refl) h) h h
  step-keeps (op_offer_key random) P resp txsel txack reset tell takes take_ack c h =
      resp c _ (offer_key-SameTx c random) h
  step-keeps (op_tell_txsel k id flags) P resp txsel txack reset tell takes take_ack c h =
      tell c k id flags h
  step-keeps op_reset P resp txsel txack reset tell takes take_ack c h = reset c tt h
  step-keeps op_take_txsel P resp txsel txack reset tell takes take_ack c h = takes c h
  step-keeps op_take_txack P resp txsel txack reset tell takes take_ack c h = take_ack c h
  step-keeps op_tell_asks P resp txsel txack reset tell takes take_ack c h = resp c _ (same c) h
  step-keeps op_take_nodes P resp txsel txack reset tell takes take_ack c h =
      resp c _ (nodes-SameTx c) h
  step-keeps op_take_asks P resp txsel txack reset tell takes take_ack c h = resp c _ (same c) h
  step-keeps op_take_reach P resp txsel txack reset tell takes take_ack c h =
      resp c _ (reach-SameTx c) h
  step-keeps (op_ask_rdv family) P resp txsel txack reset tell takes take_ack c h =
      resp c _ (same c) h
  step-keeps (op_live_reset now) P resp txsel txack reset tell takes take_ack c h =
      resp c _ (same c) h
  step-keeps (op_heard now) P resp txsel txack reset tell takes take_ack c h =
      resp c _ (heard-SameTx c now) h
  step-keeps (op_judge now) P resp txsel txack reset tell takes take_ack c h = resp c _ (same c) h
