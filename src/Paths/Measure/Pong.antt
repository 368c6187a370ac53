-- ===== src/Paths/Measure/Pong.antt =====
-- The life of one probe in src/path.c: it is answered, or scored as lost, and never both.
use comrade.Prelude.{
  ℕ, ◌+◌, ◌*◌, ◌≤◌, ◌<◌, max, ◌≡◌, refl, true, false, not, arith, ◌==◌, ◌&&◌, leb, Bool-cases, inl,
  inr, ◌∙◌, ◌||◌,
}
use comrade.Paths.Measure.Loss.{bit-newest}
use comrade.Prelude.Bits.{bit}
use comrade.Paths.Types.{NetPath, warm, path_warm_ms}
use comrade.Paths.Measure.{warmth_of, srtt_ms, srtt_update, loss_deadline, probe_pong, probe_expire}

-- With nothing outstanding, no answer and no deadline has an effect.
idle-pong :
    (p : NetPath) (nonce now : ℕ) → p.outstanding ≡ false → probe_pong p nonce now ≡ (false, p)
unfolding probe_pong
idle-pong p nonce now h = rw (h, probe_pong)

idle-expire : (p : NetPath) (now : ℕ) → p.outstanding ≡ false → probe_expire p now ≡ p
unfolding probe_expire
idle-expire p now h = rw (h, probe_expire)

record Settled (now : ℕ) (q : NetPath) : Type 0 where
  idle : q.outstanding ≡ false
  proven : q.qualified ≡ true
  answered : q.last_pong_ms ≡ now

pong-Settled :
    (p : NetPath) (nonce now : ℕ)
    → (probe_pong p nonce now).0 ≡ true
    → Settled now (probe_pong p nonce now).1
unfolding probe_pong
pong-Settled p nonce now hit = elim (Bool-cases (not p.outstanding || not (nonce == p.nonce))) [
  | inl miss ↦ let never : false ≡ true = rw (miss, probe_pong) at hit in cc
  | inr got ↦ rw (got, probe_pong) (record { idle = refl; proven = refl; answered = refl })
]

Settled-warm :
    (q : NetPath) (now later : ℕ)
    → Settled now q
    → later ≤ now + path_warm_ms
    → warmth_of q later ≡ warm
unfolding warmth_of
Settled-warm q now later s h = ground (arith, s.proven, s.answered)

-- A probe is answered by the nonce it carries, while it is outstanding, and by nothing else.
pub probe_pong-verdict :
    (p : NetPath) (nonce now : ℕ)
    → (probe_pong p nonce now).0 ≡ (p.outstanding && (nonce == p.nonce))
unfolding probe_pong
probe_pong-verdict p nonce now = elim (Bool-cases p.outstanding) [
  | inl out ↦ elim (Bool-cases (nonce == p.nonce)) [
    | inl same ↦ rw (out, same, probe_pong)
    | inr other ↦ rw (out, other, probe_pong)
  ]
  | inr idle ↦ rw (idle, probe_pong)
]

-- An answered probe is settled: up to PATH_WARM_MS after the answer, no later answer, whatever
-- its nonce, and no deadline counts it again, and the path is warm.
pub probe_pong-settles :
    (p : NetPath) (nonce now other later : ℕ)
    → (probe_pong p nonce now).0 ≡ true
    → later ≤ now + path_warm_ms
    → let q = (probe_pong p nonce now).1 in
      (probe_pong q other later ≡ (false, q))
      × (probe_expire q later ≡ q)
      × (warmth_of q later ≡ warm)
probe_pong-settles p nonce now other later hit soon =
    let s : Settled now (probe_pong p nonce now).1 = pong-Settled p nonce now hit in
    (idle-pong _ other later s.idle, idle-expire _ later s.idle, Settled-warm _ now later s soon)

deadline-max : (p : NetPath) → loss_deadline p ≡ max (srtt_ms p * 3) 1000
unfolding loss_deadline srtt_ms
deadline-max p = ground arith

-- `path_probe_expire` leaves an outstanding probe outstanding exactly up to its deadline, which
-- is the larger of a second and three smoothed round trips after it was sent.
pub probe_expire-deadline :
    (p : NetPath) (now : ℕ)
    → p.outstanding ≡ true
    → (probe_expire p now).outstanding ≡ leb now (p.sent_ms + max (srtt_ms p * 3) 1000)
unfolding probe_expire
probe_expire-deadline p now out = ground (arith, deadline-max p)

-- Past the deadline of an outstanding probe (the larger of a second and three smoothed round
-- trips), `path_probe_expire` leaves a path that takes no answer to it, and whose loss register
-- has the loss in its newest bit.
pub probe_expire-late :
    (p : NetPath) (now nonce later : ℕ)
    → p.outstanding ≡ true
    → p.sent_ms + max (srtt_ms p * 3) 1000 < now
    → (probe_pong (probe_expire p now) nonce later ≡ (false, probe_expire p now))
      × (bit (probe_expire p now).loss_reg 0 ≡ 1)
unfolding probe_expire
probe_expire-late p now nonce later out late = (
  idle-pong _ nonce later (probe_expire-deadline p now out ∙ ground arith),
  ground (arith, deadline-max p, bit-newest p.loss_reg true),
)

-- No smoothed round trip exceeds the largest one measured, so with round trips up to `bound` the
-- fixed-point value stays within eight times that, and an `int` holds it while that is below
-- 2 ^ 31.
pub srtt_update-le :
    (p : NetPath) (rtt bound : ℕ)
    → rtt ≤ bound
    → p.srtt8 ≤ 8 * bound
    → srtt_update p rtt ≤ 8 * bound
unfolding srtt_update
srtt_update-le p rtt bound h k = ground arith
