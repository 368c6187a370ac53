-- ===== src/Paths/Adopt.antt =====
-- The budget of src/path.c for opening probes from a source that no path holds
-- (`struct path_adopt`, `path_adopt_allow`). Tokens are counted in thousandths.
pub mod Budget
use comrade.Prelude.{
  ℕ, suc, ◌+◌, ◌-◌, ◌*◌, ◌%◌, ◌^◌, Bool, true, false, not, ◌&&◌, ◌||◌, List, [], ◌∷◌, ltb, leb,
  ◌==◌, if◌then◌else◌, get_or, set, replicate, bytes_eq,
}
use comrade.Paths.Ep.{Ep, zero_addr}

-- PATH_ADOPT_RATE, a second, and PATH_ADOPT_DEPTH
abbrev pub adopt_rate : ℕ
adopt_rate = 8

abbrev pub adopt_depth : ℕ
adopt_depth = 8

-- PATH_ADOPT_SRC_MAX
abbrev pub adopt_src_max : ℕ
adopt_src_max = 8

-- `struct path_adopt_src`
pub record AdoptSrc : Type 0 where
  pub addr : List ℕ
  pub port : ℕ
  pub used : Bool
  pub tokens : ℕ
  pub ms : ℕ
  pub seen_ms : ℕ

-- `struct path_adopt`
pub record Adopt : Type 0 where
  pub tokens : ℕ
  pub ms : ℕ
  pub src : List AdoptSrc

abbrev pub zero_src : AdoptSrc
zero_src = record { addr = zero_addr; port = 0; used = false; tokens = 0; ms = 0; seen_ms = 0 }

abbrev pub zero_adopt : Adopt
zero_adopt = record { tokens = 0; ms = 0; src = replicate adopt_src_max zero_src }

-- What a bucket holds once refilled. The time that has passed and the gain wrap at 64 bits.
unfoldable pub refill : ℕ → ℕ → ℕ → ℕ
refill tokens ms now =
    let cap = adopt_depth * 1000 in
    let gained = ((now + 2 ^ 64 - ms) % 2 ^ 64 * adopt_rate) % 2 ^ 64 in
    if leb cap gained || leb cap (tokens + gained) then cap else tokens + gained

-- `bucket_take`: whether it pays, and the tokens left; its `ms` becomes `now`.
unfoldable pub bucket_take : ℕ → ℕ → ℕ → Bool × ℕ
bucket_take tokens ms now =
    let held = refill tokens ms now in if ltb held 1000 then (false, held) else (true, held - 1000)

unfoldable pub is_source : Ep → AdoptSrc → Bool
is_source e s = s.port == e.port && bytes_eq s.addr e.addr

-- The loop that looks for the slot of a source, from index `i` on: its own, else the first that is
-- free, else the one least recently used among those seen, `oldest`.
unfoldable pub slot_from : Ep → ℕ → List AdoptSrc → ℕ → ℕ → ℕ
slot_from e i [] oldest seen = oldest
slot_from e i (s ∷ ss) oldest seen =
    let rest =
      slot_from e (suc i) ss (if ltb s.seen_ms seen then i else oldest)
        (if ltb s.seen_ms seen then s.seen_ms else seen) in
    if s.used && is_source e s then i else if not s.used then i else rest

unfoldable pub source_slot : Adopt → Ep → ℕ
unfolding slot_from
source_slot a e = slot_from e 0 a.src 0 (get_or a.src 0 zero_src).seen_ms

-- The source's record before it pays: its own, or a fresh one with a full bucket.
unfoldable pub source_record : AdoptSrc → Ep → ℕ → AdoptSrc
source_record s e now =
    if not s.used || not (is_source e s)
    then record {
      addr = e.addr;
      port = e.port;
      used = true;
      tokens = adopt_depth * 1000;
      ms = now;
      seen_ms = now;
    }
    else record s { seen_ms = now }

unfoldable pub charge_source : Adopt → ℕ → AdoptSrc → ℕ → Bool × Adopt
charge_source a i s now =
    let (pays, left) = bucket_take s.tokens s.ms now in
    (pays, record a { src = set a.src i (record s { tokens = left; ms = now }) })

unfoldable pub charge_shared : Adopt → ℕ → Bool × Adopt
charge_shared a now =
    let (pays, left) = bucket_take a.tokens a.ms now in (pays, record a { tokens = left; ms = now })

-- Both charges, the source's own first; the shared one is charged only if that paid.
unfoldable pub charge : Adopt → ℕ → AdoptSrc → ℕ → Bool × Adopt
unfolding charge_source charge_shared
charge a i s now =
    let (pays, a') = charge_source a i s now in
    if not pays then (false, a') else charge_shared a' now

-- `path_adopt_allow`
unfoldable pub allow : Adopt → Ep → ℕ → Bool × Adopt
unfolding source_slot source_record charge
allow a e now =
    let i = source_slot a e in charge a i (source_record (get_or a.src i zero_src) e now) now
