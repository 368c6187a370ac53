-- ===== src/Paths/Tests/Measures.antt =====
-- Round trips, losses, warmth and cost of single paths (src/path.c).
use comrade.Prelude.{
  ◌*◌, ◌/◌, ◌≡◌, refl, Bool, true, false, ◌==◌, List, [], ◌∷◌, arith, if◌then◌else◌, length, take,
}
use comrade.Paths.Types.{NetPath, zero_path, warm}
use comrade.Paths.Measure.{loss_ppt, probe_pong, probe_expire, warmth_of, loss_record, lost_below}
use comrade.Paths.Measure.Loss.{record_all, losses, reverse_onto, loss_ppt-window}
use comrade.Paths.Measure.Pong.{probe_pong-settles}
use comrade.Paths.Tests.{lively}

abbrev outcomes : List Bool
outcomes = true ∷ false ∷ false ∷ true ∷ []

half_lost : loss_ppt (record_all zero_path outcomes) ≡ 500
unfolding record_all loss_record loss_ppt lost_below
half_lost = refl

loss_ppt-window_example : loss_ppt (record_all zero_path outcomes) ≡ (
    if length (take 16 (reverse_onto [] outcomes)) == 0
    then 0
    else (losses (take 16 (reverse_onto [] outcomes)) * 1000)
      / length (take 16 (reverse_onto [] outcomes)))
loss_ppt-window_example = loss_ppt-window outcomes

-- A probe with the nonce 77 is out since 9500 ms.
abbrev waiting : NetPath
waiting = record lively { outstanding = true; nonce = 77; sent_ms = 9500 }

probe_pong-settles_example :
    (probe_pong (probe_pong waiting 77 9600).1 77 9700 ≡ (false, (probe_pong waiting 77 9600).1))
    × (probe_expire (probe_pong waiting 77 9600).1 9700 ≡ (probe_pong waiting 77 9600).1)
    × (warmth_of (probe_pong waiting 77 9600).1 9700 ≡ warm)
unfolding probe_pong
probe_pong-settles_example = probe_pong-settles waiting 77 9600 77 9700 refl (omega arith)

-- The two ends of one path.
abbrev ours : NetPath
ours = record lively { peer_srtt_ms = 55 }

abbrev theirs : NetPath
theirs = record lively { srtt8 = 440; peer_srtt_ms = 40 }
