-- ===== src/Paths/Measure/Silence.antt =====
-- When a path is warm, cold, unqualified or dead (`path_warmth_of` of src/path.c).
use comrade.Prelude.{◌≢◌, ℕ, ◌+◌, ◌≤◌, ◌<◌, ◌≡◌, ◌↔◌, true, arith}
use comrade.Paths.Types.{NetPath, warm, unqualified, dead, warmth_rank, path_warm_ms, path_dead_ms}
use comrade.Paths.Measure.{warmth_of}

-- Of a path that has answered: it is warm up to PATH_WARM_MS after its last answer, dead past
-- PATH_DEAD_MS, cold in between, and never unqualified again.
pub warmth_of-qualified :
    (p : NetPath) (now : ℕ)
    → p.qualified ≡ true
    → ((warmth_of p now ≡ warm) ↔ (now ≤ p.last_pong_ms + path_warm_ms))
      × ((warmth_of p now ≡ dead) ↔ (p.last_pong_ms + path_dead_ms < now))
      × (warmth_of p now ≢ unqualified)
unfolding warmth_of
warmth_of-qualified p now q = (
  (λ e. ground arith, λ h. ground arith),
  (λ e. ground arith, λ h. ground arith),
  λ e. ground arith,
)

-- Silence only ever makes a path worse: with no answer in between, its warmth does not improve
-- as time passes.
pub warmth_of_mono :
    (p : NetPath) (now later : ℕ)
    → now ≤ later
    → warmth_rank (warmth_of p now) ≤ warmth_rank (warmth_of p later)
unfolding warmth_of
warmth_of_mono p now later h = ground arith
