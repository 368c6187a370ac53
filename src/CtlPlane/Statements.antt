-- ===== src/CtlPlane/Statements.antt =====
-- The statements of which path carries that an end takes (src/ctlplane.c).
use comrade.Prelude.{
  ℕ, ◌≤◌, ◌<◌, true, false, Option, none, some, List, [], ◌∷◌, ◌++◌, ◌≡◌, ◌⊎◌, inl, inr, refl,
  arith, subst, sym, Bool-cases,
}
use comrade.Paths.Ep.{Os}
use comrade.ProbePlane.{Plane}
use comrade.CtlProto.{txsel_decode}
use comrade.CtlPlane.{Ctl, Sinks, init, ctl_reset}
use comrade.CtlPlane.Say.{tell_txsel, take_txsel, take_txack}
use comrade.CtlPlane.Hear.{on_txsel, on_txack, hold_txsel, hold_txack}
use comrade.CtlPlane.Ops.{
  Op, op_hear, op_reset, op_offer_key, op_tell_txsel, op_take_txsel, op_take_txack, op_tell_asks,
  op_take_nodes, op_take_asks, op_take_reach, op_ask_rdv, op_live_reset, op_heard, op_judge, step,
}
use comrade.CtlPlane.Numbering.{SameTx, Resets, step-keeps}

-- What the numbers show of a call: the number of the statement that it takes, if it takes one, or
-- that the numbering starts anew.
pub data Shown : Type 0 where
  number : ℕ → Shown
  anew : Shown

unfoldable pub taken_by : Ctl → Op → List Shown
taken_by c op_take_txsel = elim (take_txsel c).0 [ none ↦ [] | some t ↦ number t.0 ∷ [] ]
taken_by c op_reset = anew ∷ []
taken_by c _ = []

-- The numbers of the statements that are taken in the course of the calls, and the resets.
unfoldable pub statements : Os → Ctl → List Op → List Shown
statements os c [] = []
statements os c (op ∷ ops) = taken_by c op ++ statements os (step os c op) ops

-- Up to the next reset each is greater than the one before it, and the first greater than `n`; after
-- a reset they are greater than 0.
abbrev pub Ascending : ℕ → List Shown → Type 0
Ascending n [] = Unit
Ascending n (number x ∷ xs) = (n < x) × Ascending x xs
Ascending n (anew ∷ xs) = Ascending 0 xs

-- What is held lies above the number taken last, and strictly while it waits to be taken.
record Held (n : ℕ) (c : Ctl) : Type 0 where
  above : n ≤ c.txsel_seq_in
  waits : c.txsel_in_pending ≡ true → n < c.txsel_seq_in

module _ (n : ℕ) where
  Held-resp : (c d : Ctl) → SameTx c d → Held n c → Held n d
  Held-resp c d s h = ground (arith, s, h.above, h.waits)

  hold_txsel-Held : (c : Ctl) (t : Option (ℕ × List ℕ × ℕ)) → Held n c → Held n (hold_txsel c t)
  unfolding hold_txsel
  hold_txsel-Held c none h = h
  hold_txsel-Held c (some (seq, id, flags)) h = ground (arith, h.above, h.waits)

  hold_txack-Held : (c : Ctl) (t : Option (ℕ × List ℕ × ℕ)) → Held n c → Held n (hold_txack c t)
  unfolding hold_txack
  hold_txack-Held c none h = h
  hold_txack-Held c (some (seq, id, flags)) h = ground (arith, h.above, h.waits)

  tell-Held :
      (c : Ctl) (k : Sinks) (id : List ℕ) (flags : ℕ)
      → Held n c
      → Held n (tell_txsel c k id flags).2
  unfolding tell_txsel
  tell-Held c k id flags h = ground (arith, h.above, h.waits)

  take-Held : (c : Ctl) → Held n c → Held n (take_txsel c).1
  unfolding take_txsel
  take-Held c h = ground (arith, h.above, h.waits)

  take_ack-Held : (c : Ctl) → Held n c → Held n (take_txack c).1
  unfolding take_txack
  take_ack-Held c h = ground (arith, h.above, h.waits)

  step-Held : (os : Os) (c : Ctl) (op : Op) → (Resets op → ⊥) → Held n c → Held n (step os c op)
  unfolding on_txsel on_txack
  step-Held os c op keeps h =
      step-keeps os op (Held n) Held-resp (λ c pl. hold_txsel-Held c (txsel_decode pl))
        (λ c pl is. hold_txack-Held c (txsel_decode pl)) (λ c is. absurd (keeps is)) tell-Held
        take-Held take_ack-Held c h

  take-Held_above : (c : Ctl) → c.txsel_in_pending ≡ true → Held c.txsel_seq_in (take_txsel c).1
  unfolding take_txsel
  take-Held_above c e = ground arith

reset-Held : (c : Ctl) → Held 0 (ctl_reset c)
unfolding ctl_reset
reset-Held c = record { above = omega arith; waits = λ no. absurd cc }

take_txsel-waits :
    (c : Ctl) → c.txsel_in_pending ≡ true → taken_by c op_take_txsel ≡ number c.txsel_seq_in ∷ []
unfolding taken_by take_txsel
take_txsel-waits c e = ground arith

take_txsel-idle : (c : Ctl) → c.txsel_in_pending ≡ false → taken_by c op_take_txsel ≡ []
unfolding taken_by take_txsel
take_txsel-idle c e = ground arith

-- What one call takes: nothing, or a number above `n`, above which whatever is held then waits; or it
-- starts the numbers anew.
Takes : (n : ℕ) (shown : List Shown) → Ctl → Type 0
Takes n shown c =
    ((shown ≡ []) × Held n c)
    ⊎ ((m : ℕ) × (shown ≡ number m ∷ []) × (n < m) × Held m c)
    ⊎ ((shown ≡ anew ∷ []) × Held 0 c)

taken_by-Takes :
    (os : Os) (n : ℕ) (c : Ctl) (op : Op) → Held n c → Takes n (taken_by c op) (step os c op)
unfolding Takes taken_by
taken_by-Takes os n c op_take_txsel h = elim (Bool-cases c.txsel_in_pending) [
  | inr idle ↦ inl (take_txsel-idle c idle, take-Held n c h)
  | inl waits ↦
      inr (inl (c.txsel_seq_in, take_txsel-waits c waits, h.waits waits, take-Held_above n c waits))
]
taken_by-Takes os n c (op_hear k type pl netgen now) h =
    inl (refl, step-Held n os c (op_hear k type pl netgen now) (λ no. no) h)
taken_by-Takes os n c (op_offer_key random) h =
    inl (refl, step-Held n os c (op_offer_key random) (λ no. no) h)
taken_by-Takes os n c (op_tell_txsel k id flags) h =
    inl (refl, step-Held n os c (op_tell_txsel k id flags) (λ no. no) h)
taken_by-Takes os n c op_take_txack h = inl (refl, step-Held n os c op_take_txack (λ no. no) h)
taken_by-Takes os n c op_tell_asks h = inl (refl, step-Held n os c op_tell_asks (λ no. no) h)
taken_by-Takes os n c op_take_nodes h = inl (refl, step-Held n os c op_take_nodes (λ no. no) h)
taken_by-Takes os n c op_take_asks h = inl (refl, step-Held n os c op_take_asks (λ no. no) h)
taken_by-Takes os n c op_take_reach h = inl (refl, step-Held n os c op_take_reach (λ no. no) h)
taken_by-Takes os n c (op_ask_rdv family) h =
    inl (refl, step-Held n os c (op_ask_rdv family) (λ no. no) h)
taken_by-Takes os n c (op_live_reset now) h =
    inl (refl, step-Held n os c (op_live_reset now) (λ no. no) h)
taken_by-Takes os n c (op_heard now) h = inl (refl, step-Held n os c (op_heard now) (λ no. no) h)
taken_by-Takes os n c (op_judge now) h = inl (refl, step-Held n os c (op_judge now) (λ no. no) h)
taken_by-Takes os n c op_reset h = inr (inr (refl, reset-Held c))

statements-above :
    (os : Os) (ops : List Op) (n : ℕ) (c : Ctl) → Held n c → Ascending n (statements os c ops)
unfolding statements Takes
statements-above os [] n c h = tt
statements-above os (op ∷ ops) n c h = elim (taken_by-Takes os n c op h) [
  | inl (none_taken, k) ↦
      subst (λ l. Ascending n (l ++ statements os (step os c op) ops)) (sym none_taken)
        (statements-above os ops n (step os c op) k)
  | inr (inl (m, taken, up, k)) ↦
      subst (λ l. Ascending n (l ++ statements os (step os c op) ops)) (sym taken)
        (up, statements-above os ops m (step os c op) k)
  | inr (inr (reset, k)) ↦
      subst (λ l. Ascending n (l ++ statements os (step os c op) ops)) (sym reset)
        (statements-above os ops 0 (step os c op) k)
]

-- From a new plane, through any calls in any order, resets among them, and whatever the peer sends:
-- up to the next reset the numbers of the statements that `ctlplane_take_txsel` hands out rise
-- strictly, so none is handed out twice or after a later one; after a reset they rise from 1 or more
-- again.
pub statements-Ascending :
    (os : Os) (pp : Plane) (ops : List Op) → Ascending 0 (statements os (init pp) ops)
unfolding init
statements-Ascending os pp ops =
    statements-above os ops 0 (init pp) (record { above = omega arith; waits = λ e. cc })
