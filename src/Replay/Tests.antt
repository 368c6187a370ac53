-- ===== src/Replay/Tests.antt =====
-- The window of src/replay.c on streams of frames.
use comrade.Prelude.{ℕ, ◌≡◌, refl, true, false, List, [], ◌∷◌}
use comrade.Replay.Defs.{zeroed, replay_ok, advance, verdicts}
use comrade.Replay.History.{spec_verdicts}
use comrade.Replay.Window.{after, replay-refines, replay_once}

abbrev stream : List ℕ
stream = 5 ∷ 3 ∷ 5 ∷ 70 ∷ 6 ∷ 7 ∷ 3 ∷ 0 ∷ 7 ∷ []

stream_run :
    verdicts zeroed stream ≡ true ∷ true ∷ false ∷ true ∷ false ∷ true ∷ false ∷ false ∷ false ∷ []
unfolding verdicts replay_ok advance
stream_run = refl

replay-refines_example : verdicts zeroed stream ≡ spec_verdicts [] stream
replay-refines_example = replay-refines stream

replay_once_example :
    (replay_ok (after (replay_ok (after zeroed (5 ∷ 3 ∷ [])) 4).1 (60 ∷ 9 ∷ [])) 4).0 ≡ false
unfolding after replay_ok advance
replay_once_example = replay_once (5 ∷ 3 ∷ []) (60 ∷ 9 ∷ []) 4 refl
