-- ===== src/CtlPlane/Live.antt =====
-- The link's liveness and its verdict (`ctlplane_live_reset` to `ctlplane_lost` of src/ctlplane.c).
pub mod Verdict
use comrade.Prelude.{ℕ, Bool, true, false, not, if◌then◌else◌, ltb, ◌==◌}
use comrade.Claims.{since, hb_lost_ms}
use comrade.CtlPlane.{Ctl, LiveState}

unfoldable pub live_reset : Ctl → (now : ℕ) → Ctl
live_reset c now = record c {
  live = record c.live {
    last_pong_ms = now;
    last_heard_ms = now;
    pong_seen = false;
    lost_since_ms = 0;
  };
}

unfoldable pub heard : Ctl → (now : ℕ) → Ctl
heard c now =
    if ltb (since now c.live.last_heard_ms) 100
    then c
    else record c { live = record c.live { last_heard_ms = now } }

unfoldable pub last_sign : LiveState → ℕ
last_sign l = if ltb l.last_pong_ms l.last_heard_ms then l.last_heard_ms else l.last_pong_ms

-- The latch of `ctlplane_judge`.
unfoldable pub latch : LiveState → (now : ℕ) → ℕ
latch l now =
    if not l.pong_seen
    then l.lost_since_ms
    else if ltb (hb_lost_ms l.rtt_ms) (since now (last_sign l))
    then (if l.lost_since_ms == 0 then now else l.lost_since_ms)
    else 0

-- The verdict, `*quiet_since`, and the plane.
unfoldable pub judge : Ctl → (now : ℕ) → Bool × ℕ × Ctl
judge c now =
    let lost_since = latch c.live now in
    (
      not (lost_since == 0),
      last_sign c.live,
      record c { live = record c.live { lost_since_ms = lost_since } },
    )

unfoldable pub lost : Ctl → Bool
lost c = not (c.live.lost_since_ms == 0)
