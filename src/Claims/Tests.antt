-- ===== src/Claims/Tests.antt =====
-- A served claim and a lost client (src/claimlog.c, src/hostreap.c).
use comrade.Prelude.{ℕ, ◌≡◌, refl, true, false, some, List, [], ◌∷◌, arith}
use comrade.Prelude.Int.{pos, negsuc}
use comrade.Claims.{
  zero_served, claim_made, served_has, served_made, served_note, HostReap, host_reap_due, silent,
  keep, hb_lost_ms,
}
use comrade.Claims.Log.{served_made-note}
use comrade.Claims.Reap.{reap_by_times, host_reap_due-times}

abbrev word : List ℕ
word = 115 ∷ 51 ∷ []

served_made-note_example :
    (served_has (served_note zero_served (some (97 ∷ 98 ∷ [])) (some word)) (some (97 ∷ 98 ∷ []))
      ≡ true)
    × (served_made
          (served_note zero_served (some (97 ∷ 98 ∷ [])) (some word))
          (some (97 ∷ 98 ∷ []))
          (some word)
        ≡ claim_made (some word) (some word))
served_made-note_example =
    served_made-note zero_served 97 (98 ∷ []) word (some word) refl (omega arith) (omega arith)
      (omega arith)

abbrev lost : HostReap
lost = record {
  conn_start_ms = 10;
  lost_since_ms = 5000;
  resume_last_ms = 0;
  resume_pending = false;
  pong_seen = true;
}

host_reap_due-times_example : host_reap_due lost 24000 ≡ reap_by_times lost 24000
host_reap_due-times_example =
    host_reap_due-times lost 24000 (omega arith) (omega arith) (omega arith) (omega arith)

-- A claim after the loss starts the span anew.
host_reap_runs :
    (host_reap_due lost 24000 ≡ silent)
    × (host_reap_due (record lost { resume_last_ms = 9000 }) 24000 ≡ keep)
unfolding host_reap_due
host_reap_runs = (refl, refl)

-- A link without a round trip yet, and one of four seconds.
heartbeat : (hb_lost_ms (negsuc 0) ≡ 2100) × (hb_lost_ms (pos 4000) ≡ 3100)
unfolding hb_lost_ms
heartbeat = (refl, refl)
