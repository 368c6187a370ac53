-- ===== src/CtlPlane/Live/Verdict.antt =====
-- When the link counts as lost, and when that ends (`ctlplane_judge` of src/ctlplane.c).
use comrade.Prelude.{
  ℕ, ◌-◌, ◌^◌, ◌≤◌, ◌<◌, true, false, List, [], ◌∷◌, ◌≡◌, ◌≢◌, refl, ap, ◌∙◌, ◌+◌, arith, All,
  if◌then◌else◌, ltb,
}
use comrade.Claims.{hb_lost_ms}
use comrade.Claims.Reap.{since_sub}
use comrade.CtlPlane.{Ctl}
use comrade.CtlPlane.Live.{heard, last_sign, latch, judge, lost}

-- The verdicts at these times, with nothing heard in between.
unfoldable pub judge_all : Ctl → List ℕ → Ctl
judge_all c [] = c
judge_all c (now ∷ times) = judge_all (judge c now).2 times

-- With a clock that has not run back behind the last sign of the peer: the verdict is lost exactly
-- if the link had answered before and has now been silent for longer than `hb_lost_ms` allows, or
-- never answered and was latched lost already; the verdict is what `ctlplane_lost` says next.
pub judge-lost :
    (c : Ctl) (now : ℕ)
    → last_sign c.live ≤ now
    → 0 < now
    → now < 2 ^ 64
    → ((judge c now).0 ≡ (
        if c.live.pong_seen
        then ltb (hb_lost_ms c.live.rtt_ms) (now - last_sign c.live)
        else lost c))
      × (lost (judge c now).2 ≡ (judge c now).0)
unfolding judge latch lost
judge-lost c now le pos small = ground (arith, since_sub now (last_sign c.live) le small)

-- Lost since a time, with an answer once and nothing heard that would say otherwise at `now`.
record LostSince (t now : ℕ) (c : Ctl) : Type 0 where
  answered : c.live.pong_seen ≡ true
  since_t : c.live.lost_since_ms ≡ t
  latched : t ≢ 0
  clock : last_sign c.live ≤ now
  quiet : hb_lost_ms c.live.rtt_ms < now - last_sign c.live

judge-LostSince :
    (t now later : ℕ) (c : Ctl)
    → now ≤ later
    → later < 2 ^ 64
    → LostSince t now c
    → LostSince t now (judge c later).2
unfolding judge latch last_sign
judge-LostSince t now later c le small h =
    ground (
      arith,
      since_sub later (last_sign c.live),
      h.answered,
      h.since_t,
      h.latched,
      h.clock,
      h.quiet,
    )

judge_all-LostSince :
    (t now : ℕ) (times : List ℕ) (c : Ctl)
    → All (λ later. (now ≤ later) × (later < 2 ^ 64)) times
    → LostSince t now c
    → LostSince t now (judge_all c times)
unfolding judge_all
judge_all-LostSince t now [] c h k = k
judge_all-LostSince t now (later ∷ times) c h k =
    judge_all-LostSince t now times (judge c later).2 h.1
      (judge-LostSince t now later c h.0.0 h.0.1 k)

first-LostSince :
    (now : ℕ) (c : Ctl)
    → c.live.pong_seen ≡ true
    → c.live.lost_since_ms ≡ 0
    → last_sign c.live ≤ now
    → 0 < now
    → now < 2 ^ 64
    → (judge c now).0 ≡ true
    → LostSince now now (judge c now).2
unfolding judge latch last_sign
first-LostSince now c seen live le pos small e =
    ground (arith, since_sub now (last_sign c.live) le small)

judge-rtt : (c : Ctl) (now : ℕ) → (judge c now).2.live.rtt_ms ≡ c.live.rtt_ms
unfolding judge
judge-rtt c now = refl

judge_all-rtt : (times : List ℕ) (c : Ctl) → (judge_all c times).live.rtt_ms ≡ c.live.rtt_ms
unfolding judge_all
judge_all-rtt [] c = refl
judge_all-rtt (now ∷ times) c = judge_all-rtt times (judge c now).2 ∙ judge-rtt c now

-- The last sign lies less than 100 ms back, since a sign so close to the one before is not noted.
heard-sign :
    (c : Ctl) (now : ℕ)
    → last_sign c.live ≤ now
    → now < 2 ^ 64
    → (now < last_sign (heard c now).live + 100)
      × (last_sign (heard c now).live ≤ now)
      × ((heard c now).live.rtt_ms ≡ c.live.rtt_ms)
      × ((heard c now).live.pong_seen ≡ c.live.pong_seen)
unfolding last_sign heard
heard-sign c now le small =
    let gap = since_sub now c.live.last_heard_ms in
    (ground (arith, gap), ground (arith, gap), ground (arith, gap), ground (arith, gap))

sign-live :
    (c : Ctl) (later : ℕ)
    → c.live.pong_seen ≡ true
    → last_sign c.live ≤ later
    → later < 2 ^ 64
    → later ≤ last_sign c.live + hb_lost_ms c.live.rtt_ms
    → (judge c later).0 ≡ false
unfolding judge latch
sign-live c later seen le small soon = ground (arith, since_sub later (last_sign c.live) le small)

heard-live :
    (c : Ctl) (now later : ℕ)
    → c.live.pong_seen ≡ true
    → last_sign c.live ≤ now
    → now ≤ later
    → later < 2 ^ 64
    → later + 99 ≤ now + hb_lost_ms c.live.rtt_ms
    → (judge (heard c now) later).0 ≡ false
heard-live c now later seen le in_order small soon =
    let (near, past, rtt, pong) = heard-sign c now le (omega arith) in
    sign-live (heard c now) later (pong ∙ seen) (omega arith) small
      (omega (arith, near, ap hb_lost_ms rtt))

-- A live link that is judged lost at a time stays lost since that very time through any number of
-- later verdicts while nothing is heard; and once anything authenticated is heard, a verdict is that
-- it lives up to 99 ms less than `hb_lost_ms` after that (clocks of 64 bits that do not go back).
pub judge-outage :
    (c : Ctl) (now : ℕ) (times : List ℕ) (again later : ℕ)
    → c.live.pong_seen ≡ true
    → c.live.lost_since_ms ≡ 0
    → last_sign c.live ≤ now
    → 0 < now
    → now < 2 ^ 64
    → All (λ at. (now ≤ at) × (at < 2 ^ 64)) times
    → now ≤ again
    → again ≤ later
    → later < 2 ^ 64
    → later + 99 ≤ again + hb_lost_ms c.live.rtt_ms
    → (judge c now).0 ≡ true
    → ((judge_all (judge c now).2 times).live.lost_since_ms ≡ now)
      × ((judge (heard (judge_all (judge c now).2 times) again) later).0 ≡ false)
judge-outage c now times again later seen live le pos small in_times in_order after_that small' soon
      e =
    let lost_at = (judge c now).2 in
    let held =
      judge_all-LostSince now now times lost_at in_times
        (first-LostSince now c seen live le pos small e) in
    let rtt : (judge_all lost_at times).live.rtt_ms ≡ c.live.rtt_ms =
      judge_all-rtt times lost_at ∙ judge-rtt c now in
    (
      held.since_t,
      heard-live (judge_all lost_at times) again later held.answered (omega (arith, held.clock))
          after_that small' (omega (arith, soon, ap hb_lost_ms rtt)),
    )
