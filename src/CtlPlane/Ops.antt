-- ===== src/CtlPlane/Ops.antt =====
-- The calls on one end of a control channel, in the order that they are made (src/ctlplane.c).
use comrade.Prelude.{
  if-keeps, ℕ, Bool, true, Option, List, [], ◌∷◌, ◌≡◌, ◌≤◌, arith, length, leb, ◌==◌, ◌&&◌,
  if◌then◌else◌,
}
use comrade.Paths.Ep.{Os}
use comrade.CtlProto.{rdv_plen, txsel_plen, reach_plen}
use comrade.CtlPlane.{
  Ctl, Sinks, Effect, others, ctl_reset, ctlm_ping, ctlm_pong, ctlm_rdv, ctlm_cand, ctlm_reach,
  ctlm_rdvask, ctlm_key, ctlm_keyok, ctlm_txsel, ctlm_txack, ts_len, key_plen, rdvask_plen,
}
use comrade.CtlPlane.Live.{live_reset, heard, judge}
use comrade.CtlPlane.Say.{
  offer_key, tell_txsel, take_txsel, take_txack, ask_rdv, tell_asks, take_nodes, take_asks,
  take_reach,
}
use comrade.CtlPlane.Hear.{
  on_ping, on_pong, on_rdv, on_reach, on_key, on_keyok, on_rdvask, on_txsel, on_txack, on_cand,
  on_msg,
}

-- Every call that changes the state; `ctlplane_reset` starts a new channel.
pub data Op : Type 0 where
  op_hear : Sinks → (type : ℕ) (pl : List ℕ) (netgen now : ℕ) → Op
  op_offer_key : (random : Option (List ℕ)) → Op
  op_tell_txsel : Sinks → (id : List ℕ) (flags : ℕ) → Op
  op_reset op_take_txsel op_take_txack op_tell_asks op_take_nodes op_take_asks op_take_reach : Op
  op_ask_rdv op_live_reset op_heard op_judge : ℕ → Op

module _ (os : Os) where
  abbrev pub step : Ctl → Op → Ctl
  step c (op_hear k type pl netgen now) = (on_msg os c k type pl netgen now).1.1
  step c op_reset = ctl_reset c
  step c (op_offer_key random) = (offer_key os c random).2
  step c (op_tell_txsel k id flags) = (tell_txsel c k id flags).2
  step c op_take_txsel = (take_txsel c).1
  step c op_take_txack = (take_txack c).1
  step c op_tell_asks = (tell_asks c).1
  step c op_take_nodes = (take_nodes c).1
  step c op_take_asks = (take_asks c).1
  step c op_take_reach = (take_reach c).1
  step c (op_ask_rdv family) = ask_rdv c family
  step c (op_live_reset now) = live_reset c now
  step c (op_heard now) = heard c now
  step c (op_judge now) = (judge c now).2

  unfoldable pub run : Ctl → List Op → Ctl
  run c [] = c
  run c (op ∷ ops) = run (step c op) ops

  -- What holds after each handler holds after `ctlplane_on_msg`.
  pub on_msg-keeps {ℓ} :
      (P : List Effect × Ctl → Type ℓ) (c : Ctl) (k : Sinks) (type : ℕ) (pl : List ℕ)
      (netgen now : ℕ)
      → P (on_ping c k pl)
      → P (on_pong c k pl netgen now)
      → P ([], on_rdv c pl)
      → P ([], on_reach c pl)
      → (type ≡ ctlm_key → key_plen ≤ length pl → P (on_key os c pl))
      → (type ≡ ctlm_keyok → P ([], on_keyok os c))
      → P ([], on_rdvask c pl)
      → P ([], on_txsel c pl)
      → (type ≡ ctlm_txack → P ([], on_txack c pl))
      → P (on_cand c k pl)
      → P ((if k.other then others type pl ∷ [] else []), c)
      → P (on_msg os c k type pl netgen now).1
  unfolding on_msg
  on_msg-keeps P c k type pl netgen now ping pong rdv reach key keyok rdvask txsel txack cand
        other =
      if-keeps Q (type == ctlm_ping && leb ts_len (length pl)) (λ e. ping)
        λ e.
          if-keeps Q (type == ctlm_pong && leb ts_len (length pl)) (λ e. pong)
            λ e.
              if-keeps Q (type == ctlm_rdv && leb rdv_plen (length pl)) (λ e. rdv)
                λ e.
                  if-keeps Q (type == ctlm_reach && leb reach_plen (length pl)) (λ e. reach)
                    λ e.
                      if-keeps Q (type == ctlm_key && leb key_plen (length pl))
                        (λ e. key (is_type e) (is_long e))
                        λ e.
                          if-keeps Q (type == ctlm_keyok) (λ e. keyok (ground arith))
                            λ e.
                              if-keeps Q (type == ctlm_rdvask && leb rdvask_plen (length pl))
                                (λ e. rdvask)
                                λ e.
                                  if-keeps Q (type == ctlm_txsel && leb txsel_plen (length pl))
                                    (λ e. txsel)
                                    λ e.
                                      if-keeps Q (type == ctlm_txack && leb txsel_plen (length pl))
                                        (λ e. txack (is_txack e))
                                        λ e.
                                          if-keeps Q (type == ctlm_cand && leb rdv_plen (length pl))
                                            (λ e. cand) λ e. other
    where
      Q : Bool × (List Effect × Ctl) → Type ℓ
      Q r = P r.1

      is_type : (type == ctlm_key && leb key_plen (length pl)) ≡ true → type ≡ ctlm_key
      is_type e = ground arith

      is_long : (type == ctlm_key && leb key_plen (length pl)) ≡ true → key_plen ≤ length pl
      is_long e = ground arith

      is_txack : (type == ctlm_txack && leb txsel_plen (length pl)) ≡ true → type ≡ ctlm_txack
      is_txack e = ground arith
