-- ===== src/Claims.antt =====
-- The claims that a host has served, and when it gives up on a client (src/claimlog.c,
-- src/hostreap.c, src/hbeat.c). A C string is the list of its characters; NULL is `none`.
pub mod Log
pub mod Reap
mod Tests
use comrade.Prelude.{
  ℕ, zero, suc, ◌+◌, ◌-◌, ◌*◌, ◌%◌, ◌^◌, Bool, true, false, not, ◌&&◌, ◌||◌, Option, none, some,
  List, [], ◌∷◌, ltb, leb, ◌==◌, if◌then◌else◌, bytes_eq, get_or, set, take, replicate,
}
use comrade.Prelude.Int.{ℤ, pos, clamp_zero}

-- CLAIM_SERVED_MAX, CLAIM_UFRAG_LEN, CLAIM_PWD_LEN
abbrev pub served_max : ℕ
served_max = 8

abbrev pub ufrag_len : ℕ
ufrag_len = 40

abbrev pub pwd_len : ℕ
pwd_len = 40

-- A row of the two arrays of `struct claim_served`.
pub record Row : Type 0 where
  pub ufrag : List ℕ
  pub pwd : List ℕ

abbrev pub zero_row : Row
zero_row = record { ufrag = []; pwd = [] }

-- `struct claim_served`
pub record Served : Type 0 where
  pub rows : List Row
  pub next : ℕ

abbrev pub zero_served : Served
zero_served = record { rows = replicate served_max zero_row; next = 0 }

-- What `strncpy` leaves of a string in a zeroed array of n characters.
abbrev pub stored : ℕ → Option (List ℕ) → List ℕ
stored n none = []
stored n (some s) = take (n - 1) s

unfoldable pub claim_made : Option (List ℕ) → Option (List ℕ) → Bool
claim_made none claim = false
claim_made (some conn) none = false
claim_made (some []) (some claim) = false
claim_made (some (c ∷ cs)) (some []) = false
claim_made (some (c ∷ cs)) (some (d ∷ ds)) = bytes_eq (c ∷ cs) (d ∷ ds)

-- An index into the rest of the rows.
abbrev pub later : Option ℕ → Option ℕ
later none = none
later (some i) = some (suc i)

-- The loop of `served_find`.
unfoldable pub find_row : List Row → List ℕ → Option ℕ
find_row [] u = none
find_row (r ∷ rs) u =
    let rest = later (find_row rs u) in if bytes_eq r.ufrag u then some zero else rest

unfoldable pub served_find : Served → Option (List ℕ) → Option ℕ
unfolding find_row
served_find l none = none
served_find l (some []) = none
served_find l (some (c ∷ cs)) = find_row l.rows (c ∷ cs)

-- `claim_served_note` for a string that is not empty.
unfoldable pub note_row : Served → List ℕ → Option (List ℕ) → Served
unfolding find_row
note_row l u pwd = elim (find_row l.rows u) [
  | none ↦ record {
    rows =
        set l.rows l.next (record { ufrag = stored ufrag_len (some u); pwd = stored pwd_len pwd });
    next = (l.next + 1) % served_max;
  }
  | some i ↦ record l {
    rows =
        set l.rows i
          (record { ufrag = (get_or l.rows i zero_row).ufrag; pwd = stored pwd_len pwd });
  }
]

unfoldable pub served_note : Served → Option (List ℕ) → Option (List ℕ) → Served
unfolding note_row
served_note l none pwd = l
served_note l (some []) pwd = l
served_note l (some (c ∷ cs)) pwd = note_row l (c ∷ cs) pwd

abbrev pub is_some : Option ℕ → Bool
is_some none = false
is_some (some i) = true

unfoldable pub served_has : Served → Option (List ℕ) → Bool
unfolding served_find
served_has l u = is_some (served_find l u)

unfoldable pub served_made : Served → Option (List ℕ) → Option (List ℕ) → Bool
unfolding served_find claim_made
served_made l u pwd = elim (served_find l u) [
  | none ↦ false
  | some i ↦ claim_made (some (get_or l.rows i zero_row).pwd) pwd
]

-- HOST_REAP_MS and HOST_HANDSHAKE_MS
abbrev pub host_reap_ms : ℕ
host_reap_ms = 18000

abbrev pub host_handshake_ms : ℕ
host_handshake_ms = 30000

-- `struct host_reap`
pub record HostReap : Type 0 where
  pub conn_start_ms : ℕ
  pub lost_since_ms : ℕ
  pub resume_last_ms : ℕ
  pub resume_pending : Bool
  pub pong_seen : Bool

-- `enum host_reap_verdict`
pub data Verdict : Type 0 where
  keep silent no_handshake : Verdict

-- `now - then` on a uint64_t
abbrev pub since : ℕ → ℕ → ℕ
since now start = (now + 2 ^ 64 - start) % 2 ^ 64

unfoldable pub host_reap_due : HostReap → ℕ → Verdict
host_reap_due r now =
    if not r.pong_seen
    then (if ltb host_handshake_ms (since now r.conn_start_ms) then no_handshake else keep)
    else if r.lost_since_ms == 0
    then keep
    else if r.resume_pending
    then keep
    else if leb (since now r.lost_since_ms) host_reap_ms
    then keep
    else if not (r.resume_last_ms == 0) && leb (since now r.resume_last_ms) host_reap_ms
    then keep
    else silent

-- HB_INTERVAL_MS, HB_SILENT_TRIES, HB_RTT_CAP_MS
abbrev pub hb_interval_ms : ℕ
hb_interval_ms = 700

abbrev pub hb_silent_tries : ℕ
hb_silent_tries = 3

abbrev pub hb_rtt_cap_ms : ℕ
hb_rtt_cap_ms = 1000

unfoldable pub hb_lost_ms : ℤ → ℕ
hb_lost_ms rtt =
    let n = clamp_zero rtt in
    hb_silent_tries * hb_interval_ms + (if ltb hb_rtt_cap_ms n then hb_rtt_cap_ms else n)
