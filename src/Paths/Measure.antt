-- ===== src/Paths/Measure.antt =====
-- What src/path.c makes of probes on one path: warmth, the loss register, round trips, and the
-- probe's life from `path_probe_sent` to its answer or its loss. Every entry point takes the time.
pub mod Silence
pub mod Loss
pub mod Pong
use comrade.Prelude.{
  ℕ, zero, suc, ◌+◌, ◌-◌, ◌*◌, ◌/◌, ◌%◌, ◌^◌, bit_and, bit_or, Bool, true, false, not, ◌&&◌, ◌||◌,
  ltb, leb, ◌==◌, if◌then◌else◌, set,
}
use comrade.Paths.Types.{
  NetPath, Warmth, warm, cold, unqualified, dead, probe_every_ms, path_keep_ms, path_warm_ms,
  path_dead_ms, path_loss_wait_ms, path_loss_window,
}

unfoldable pub silent_ms : NetPath → ℕ → ℕ
silent_ms p now = if ltb p.last_pong_ms now then now - p.last_pong_ms else 0

unfoldable pub warmth_of : NetPath → ℕ → Warmth
unfolding silent_ms
warmth_of p now =
    if not p.qualified
    then (if ltb p.trying_since_ms now && ltb path_dead_ms (now - p.trying_since_ms)
        then dead
        else unqualified)
    else if ltb path_dead_ms (silent_ms p now)
    then dead
    else if ltb path_warm_ms (silent_ms p now)
    then cold
    else warm

unfoldable pub srtt_ms : NetPath → ℕ
srtt_ms p = p.srtt8 / 8

-- The loop of `path_loss_ppt`: outcomes below `n` whose bit is set.
unfoldable pub lost_below : ℕ → ℕ → ℕ
lost_below reg zero = 0
lost_below reg (suc i) = lost_below reg i + (if bit_and reg ((2 ^ i) % 2 ^ 16) == 0 then 0 else 1)

unfoldable pub loss_ppt : NetPath → ℕ
loss_ppt p = if p.loss_n == 0 then 0 else (lost_below p.loss_reg p.loss_n * 1000) / p.loss_n

unfoldable pub loss_record : NetPath → Bool → NetPath
loss_record p lost = record p {
  loss_reg = bit_or (p.loss_reg * 2) (if lost then 1 else 0) % 2 ^ 16;
  loss_n = if ltb p.loss_n path_loss_window then p.loss_n + 1 else p.loss_n;
}

unfoldable pub rtt_record : NetPath → ℕ → NetPath
rtt_record p rtt =
    let i = if p.rtt_n == 0 then 0 else (p.rtt_i + 1) % path_loss_window in
    record p {
      rtt = set p.rtt i (if ltb 0xffff rtt then 0xffff else rtt);
      rtt_n = if ltb p.rtt_n path_loss_window then p.rtt_n + 1 else p.rtt_n;
      rtt_i = i;
    }

unfoldable pub loss_deadline : NetPath → ℕ
unfolding srtt_ms
loss_deadline p = let d = srtt_ms p * 3 in if ltb path_loss_wait_ms d then d else path_loss_wait_ms

unfoldable pub probe_due : NetPath → ℕ → Bool
probe_due p now = p.used && (not p.outstanding && leb p.next_probe_ms now)

unfoldable pub probe_sent : NetPath → ℕ → ℕ → NetPath
probe_sent p nonce now = record p {
  nonce = nonce;
  sent_ms = now;
  outstanding = true;
  next_probe_ms = (now + (if p.qualified then path_keep_ms else probe_every_ms)) % 2 ^ 64;
}

unfoldable pub probe_expire : NetPath → ℕ → NetPath
unfolding loss_record loss_deadline
probe_expire p now =
    if not p.outstanding || (leb now p.sent_ms || leb (now - p.sent_ms) (loss_deadline p))
    then p
    else loss_record (record p { outstanding = false }) true

-- The round trip that an answer at `now` measures.
abbrev pub round_trip : NetPath → ℕ → ℕ
round_trip p now = if ltb p.sent_ms now then now - p.sent_ms else 0

-- The smoothed round trip: the first answer sets it, later ones move it by an eighth.
unfoldable pub srtt_update : NetPath → ℕ → ℕ
srtt_update p rtt = if not p.qualified then rtt * 8 else (p.srtt8 + rtt) - p.srtt8 / 8

unfoldable pub probe_pong : NetPath → ℕ → ℕ → Bool × NetPath
unfolding srtt_update rtt_record loss_record
probe_pong p nonce now =
    if not p.outstanding || not (nonce == p.nonce)
    then (false, p)
    else (let rtt = round_trip p now in
        let scored =
          loss_record (rtt_record (record p { outstanding = false; srtt8 = srtt_update p rtt }) rtt)
            false in
        (
          true,
          record scored {
            last_pong_ms = now;
            qualified = true;
            next_probe_ms =
                if not p.qualified then (now + path_keep_ms) % 2 ^ 64 else p.next_probe_ms;
          },
        ))
