-- ===== src/Replay/Defs.antt =====
-- src/replay.c and src/replay.h: the sliding window that lets a datagram be acted on once.
-- A uint64_t is a number; `<<` drops what leaves 64 bits.
use comrade.Prelude.{
  ℕ, ◌-◌, ◌*◌, ◌%◌, ◌^◌, bit_and, bit_or, Bool, true, false, List, [], ◌∷◌, ltb, leb, ◌==◌,
  if◌then◌else◌,
}

-- REPLAY_WINDOW
abbrev pub replay_window : ℕ
replay_window = 64

-- `struct replay_win`
pub record ReplayWin : Type 0 where
  pub hi : ℕ
  pub seen : ℕ

-- `x << k` on a uint64_t
abbrev pub shl64 : ℕ → ℕ → ℕ
shl64 x k = (x * 2 ^ k) % 2 ^ 64

-- The window moved up to a new highest sequence.
unfoldable pub advance : ReplayWin → ℕ → ReplayWin
advance w seq =
    let step = seq - w.hi in
    record {
      hi = seq;
      seen =
          if leb replay_window step
          then 0
          else bit_or (shl64 w.seen step) (if w.hi == 0 then 0 else shl64 1 (step - 1));
    }

-- `replay_ok`: the verdict, and the window after the call.
unfoldable pub replay_ok : ReplayWin → ℕ → Bool × ReplayWin
replay_ok w seq =
    let back = w.hi - seq in
    if seq == 0
    then (false, w)
    else if ltb w.hi seq
    then (true, advance w seq)
    else if leb replay_window back
    then (false, w)
    else if back == 0
    then (false, w)
    else if bit_and w.seen (shl64 1 (back - 1)) == 0
    then (true, record w { seen = bit_or w.seen (shl64 1 (back - 1)) })
    else (false, w)

-- The verdicts on frames in the order that they arrive.
unfoldable pub verdicts : ReplayWin → List ℕ → List Bool
verdicts w [] = []
verdicts w (seq ∷ rest) = let (ok, w') = replay_ok w seq in ok ∷ verdicts w' rest

-- A zeroed window, as the owners of one start with.
abbrev pub zeroed : ReplayWin
zeroed = record { hi = 0; seen = 0 }
