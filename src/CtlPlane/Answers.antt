-- ===== src/CtlPlane/Answers.antt =====
-- An answer is to one numbered statement (src/ctlplane.c).
use comrade.Prelude.{ℕ, true, Option, some, List, [], ◌∷◌, ◌≡◌, ◌≢◌, ◌⊎◌}
use comrade.CtlProto.{txsel_decode}
use comrade.CtlPlane.{Ctl}
use comrade.CtlPlane.Ops.{Op}
use comrade.CtlPlane.Numbering.{Acks}

-- What an answer carries: its number, the path and the flags.
abbrev pub Answer : Type 0
Answer = ℕ × List ℕ × ℕ

-- The call is an answer that arrives and reads so.
abbrev pub Tells : Op → Answer → Type 0
Tells op t = (pl : List ℕ) × Acks op pl × (txsel_decode pl ≡ some t)

-- An answer that reads so is among those that arrived in the course of the calls.
abbrev pub Arrived : List Op → Answer → Type 0
Arrived [] t = ⊥
Arrived (op ∷ ops) t = Tells op t ⊎ Arrived ops t

-- The answer that is held.
abbrev held_answer : Ctl → Answer
held_answer c = (c.txsel_wait, c.txack_in_id, c.txack_in_flags)

-- The awaited number is that of the last statement, and what is held is an answer to it that came.
record Awaits (came : Answer → Type 0) (c : Ctl) : Type 0 where
  last : (c.txsel_wait ≡ 0) ⊎ (c.txsel_wait ≡ c.txsel_seq_out)
  asked : c.txack_in_pending ≡ true → c.txsel_wait ≢ 0
  held : c.txack_in_pending ≡ true → came (held_answer c)

abbrev tuple : ℕ → List ℕ → ℕ → Answer
tuple seq id flags = (seq, id, flags)

-- What came before, and what a call brings.
abbrev Then : (Answer → Type 0) → Op → Answer → Type 0
Then came op t = came t ⊎ Tells op t
