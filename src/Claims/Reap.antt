-- ===== src/Claims/Reap.antt =====
-- When a host gives up on a client, over time (src/hostreap.c).
use comrade.Prelude.{
  max, not, ◌&&◌, ltb, ◌==◌, if◌then◌else◌, ℕ, ◌+◌, ◌-◌, ◌^◌, ◌≤◌, ◌<◌, ◌≡◌, arith,
}
use comrade.Claims.{
  since, HostReap, host_reap_due, host_reap_ms, host_handshake_ms, Verdict, silent, keep,
  no_handshake,
}

pub since_sub : (now start : ℕ) → start ≤ now → now < 2 ^ 64 → since now start ≡ now - start
since_sub now start le small = omega arith

-- The time at which the last thing was heard of a client that is lost: its loss, or a claim of it
-- after that.
abbrev pub last_heard_of : HostReap → ℕ
last_heard_of r = max r.lost_since_ms r.resume_last_ms

-- The verdict by times: a client that never answered has HOST_HANDSHAKE_MS from its start; one that
-- answered and is lost, with no punch in flight, has HOST_REAP_MS from the last thing heard of it.
abbrev pub reap_by_times : HostReap → ℕ → Verdict
reap_by_times r now =
    if not r.pong_seen
    then (if ltb (r.conn_start_ms + host_handshake_ms) now then no_handshake else keep)
    else if not (r.lost_since_ms == 0)
        && (not r.resume_pending && ltb (last_heard_of r + host_reap_ms) now)
    then silent
    else keep

-- With clocks of 64 bits that have not gone back behind the recorded times, `host_reap_due` is the
-- verdict by times: a claim that came after the loss starts the span of a lost client anew,
-- and one before it changes nothing.
pub host_reap_due-times :
    (r : HostReap) (now : ℕ)
    → r.conn_start_ms ≤ now
    → r.lost_since_ms ≤ now
    → r.resume_last_ms ≤ now
    → now < 2 ^ 64
    → host_reap_due r now ≡ reap_by_times r now
unfolding host_reap_due
host_reap_due-times r now a b c d =
    let k = since_sub now r.conn_start_ms a d in
    let l = since_sub now r.lost_since_ms b d in
    let m = since_sub now r.resume_last_ms c d in ground (arith, k, l, m)
