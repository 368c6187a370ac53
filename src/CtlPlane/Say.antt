-- ===== src/CtlPlane/Say.antt =====
-- What an end says (src/ctlplane.c): its half of the key, its statements and answers, its node, its
-- reach, a ping; and what the owner of the model takes from it.
use comrade.Prelude.{
  ℕ, ◌+◌, ◌%◌, ◌^◌, bit_or, Bool, true, false, not, ◌||◌, Option, none, some, List, [], ◌∷◌, ◌++◌,
  if◌then◌else◌, ◌==◌, byte, take,
}
use Prim.Native.Nat.{bit_and}
use comrade.Paths.Ep.{Os}
use comrade.ProbePlane.{bind}
use comrade.CtlProto.{txsel_encode, rdv_encode, put_u64, reach_plen}
use comrade.CtlPlane.{
  Ctl, Node, Sinks, Effect, send, ctlm_ping, ctlm_rdv, ctlm_cand, ctlm_reach, ctlm_rdvask, ctlm_key,
  ctlm_keyok, ctlm_txsel, ctlm_txack,
}

module _ (os : Os) where
  unfoldable pub key_bind : Ctl → List Effect × Ctl
  key_bind c =
      if c.pp.pair_ready || (not c.half_sent || not c.half_seen)
      then ([], c)
      else (send ctlm_keyok [] ∷ [], record c { pp = bind os c.pp c.half_out c.half_in })

  -- `random` is the half that is drawn.
  unfoldable pub offer_key : Ctl → (random : Option (List ℕ)) → Bool × List Effect × Ctl
  offer_key c none = (false, [], c)
  offer_key c (some half) =
      let bound = key_bind (record c { half_out = half; half_sent = true }) in
      if c.half_sent then (false, [], c) else (true, send ctlm_key half ∷ bound.0, bound.1)

unfoldable pub tell_rdv : (family port : ℕ) (addr : List ℕ) (status : ℕ) → List Effect
tell_rdv family port addr status =
    send ctlm_rdv (rdv_encode family port addr ++ (byte status ∷ [])) ∷ []

unfoldable pub tell_cand : (family port : ℕ) (addr : List ℕ) → List Effect
tell_cand family port addr = send ctlm_cand (rdv_encode family port addr) ∷ []

-- `k->ready` where there is one.
abbrev pub is_ready : Sinks → Bool
is_ready k = elim k.ready [ none ↦ true | some r ↦ r ]

unfoldable pub tell_txsel : Ctl → Sinks → (id : List ℕ) (flags : ℕ) → ℕ × List Effect × Ctl
tell_txsel c k id flags =
    let seq = (c.txsel_seq_out + 1) % 2 ^ 32 in
    if is_ready k
    then (
      seq,
      send ctlm_txsel (txsel_encode seq id flags) ∷ [],
      record c { txsel_seq_out = seq; txsel_wait = seq; txack_in_pending = false },
    )
    else (0, [], c)

unfoldable pub tell_txack : Sinks → (seq : ℕ) (id : List ℕ) (flags : ℕ) → List Effect
tell_txack k seq id flags =
    if is_ready k then send ctlm_txack (txsel_encode seq id flags) ∷ [] else []

-- The number, the id and the flags; `none` is the result 0.
unfoldable pub take_txsel : Ctl → Option (ℕ × List ℕ × ℕ) × Ctl
take_txsel c =
    if c.txsel_in_pending
    then (
      some (c.txsel_seq_in, c.txsel_in_id, c.txsel_in_flags),
      record c { txsel_in_pending = false },
    )
    else (none, c)

unfoldable pub take_txack : Ctl → Option (ℕ × List ℕ × ℕ) × Ctl
take_txack c =
    if c.txack_in_pending
    then (
      some (c.txsel_wait, c.txack_in_id, c.txack_in_flags),
      record c { txack_in_pending = false; txsel_wait = 0 },
    )
    else (none, c)

unfoldable pub tell_reach : List ℕ → List Effect
tell_reach pl = send ctlm_reach (take reach_plen pl) ∷ []

unfoldable pub ctl_ping : (now : ℕ) → List Effect
ctl_ping now = send ctlm_ping (put_u64 now) ∷ []

unfoldable pub ask_rdv : Ctl → (family : ℕ) → Ctl
ask_rdv c family = record c { rdvask_out = bit_or c.rdvask_out (if family == 6 then 2 else 1) }

unfoldable pub tell_asks : Ctl → List Effect × Ctl
tell_asks c =
    let ask = c.rdvask_out in
    (
      (if bit_and ask 1 == 0 then [] else send ctlm_rdvask (4 ∷ []) ∷ [])
          ++ (if bit_and ask 2 == 0 then [] else send ctlm_rdvask (6 ∷ []) ∷ []),
      record c { rdvask_out = 0 },
    )

unfoldable pub take_nodes : Ctl → Option (Node × Node) × Ctl
take_nodes c =
    if c.rdv_in_dirty
    then (some (c.rdv_in4, c.rdv_in6), record c { rdv_in_dirty = false })
    else (none, c)

unfoldable pub take_asks : Ctl → ℕ × Ctl
take_asks c = (c.rdvask_in, record c { rdvask_in = 0 })

unfoldable pub take_reach : Ctl → Option (List ℕ) × Ctl
take_reach c =
    if c.reach_in_dirty then (some c.reach_in, record c { reach_in_dirty = false }) else (none, c)

unfoldable pub peer_reach : Ctl → Option (List ℕ)
peer_reach c = if c.reach_in_seen then some c.reach_in else none
