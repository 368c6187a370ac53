-- ===== src/CtlProto/Tests.antt =====
-- Frames cut across chunks, and payloads, on concrete bytes (src/ctlproto.c).
use comrade.Prelude.{ℕ, ◌≡◌, refl, List, [], ◌∷◌, arith}
use comrade.CtlProto.{frame, feed, drain}
use comrade.CtlProto.Reframe.{stream, feed_all, feed_all-stream}

-- A ping with a timestamp and a goodbye, in three chunks.
abbrev sent : List (ℕ × List ℕ)
sent = (0, 0 ∷ 0 ∷ 0 ∷ 0 ∷ 0 ∷ 0 ∷ 3 ∷ 9 ∷ []) ∷ (8, []) ∷ []

abbrev chunks : List (List ℕ)
chunks = (0 ∷ []) ∷ (8 ∷ 0 ∷ 0 ∷ 0 ∷ 0 ∷ 0 ∷ 0 ∷ 3 ∷ []) ∷ (9 ∷ 8 ∷ 0 ∷ []) ∷ []

feed_all-stream_example : feed_all [] chunks ≡ (sent, [])
unfolding stream frame
feed_all-stream_example =
    feed_all-stream chunks sent ((omega arith, omega arith), ((omega arith, omega arith), tt))
      (omega arith, (omega arith, (omega arith, tt))) refl

-- A payload beyond the protocol's maximum drops what is held.
resync : feed [] (0 ∷ 200 ∷ 1 ∷ 2 ∷ []) ≡ ([], [])
unfolding feed drain
resync = refl

abbrev addr4 : List ℕ
addr4 = 192 ∷ 0 ∷ 2 ∷ 1 ∷ []

abbrev path_id : List ℕ
path_id = 1 ∷ 2 ∷ 3 ∷ 4 ∷ 5 ∷ 6 ∷ 7 ∷ 8 ∷ []
