-- ===== src/Paths/Adopt/Budget.antt =====
-- How many probes from unknown sources `path_adopt_allow` of src/path.c lets through in a time.
use comrade.Prelude.{
  ℕ, ◌+◌, ◌-◌, ◌*◌, ◌^◌, ◌≤◌, ◌<◌, min, Bool, List, [], ◌∷◌, arith, if◌then◌else◌, Bool-cases, inl,
  inr,
}
use comrade.Paths.Ep.{Ep}
use comrade.Paths.Adopt.{
  Adopt, AdoptSrc, adopt_rate, adopt_depth, refill, bucket_take, charge_source, charge_shared,
  charge, allow,
}

-- What the shared bucket would hold at `t`.
abbrev level : Adopt → ℕ → ℕ
level a t = min 8000 (a.tokens + 8 * (t - a.ms))

abbrev paid : Bool → ℕ
paid ok = if ok then 1000 else 0

refill-le :
    (tokens ms now : ℕ)
    → ms ≤ now
    → now < 2 ^ 64
    → refill tokens ms now ≤ min 8000 (tokens + 8 * (now - ms))
unfolding refill
refill-le tokens ms now h k = ground arith

bucket_take-le :
    (tokens ms now : ℕ)
    → ms ≤ now
    → now < 2 ^ 64
    → paid (bucket_take tokens ms now).0 + (bucket_take tokens ms now).1
      ≤ min 8000 (tokens + 8 * (now - ms))
unfolding bucket_take
bucket_take-le tokens ms now h k = ground (arith, refill-le tokens ms now)

record Paid (a : Adopt) (now : ℕ) (r : Bool × Adopt) : Type 0 where
  clock : r.1.ms ≤ now
  spent : paid r.0 + level r.1 now ≤ level a now

charge_shared-Paid :
    (a : Adopt) (now : ℕ) → a.ms ≤ now → now < 2 ^ 64 → Paid a now (charge_shared a now)
unfolding charge_shared
charge_shared-Paid a now h k = record {
  clock = omega arith;
  spent = omega (arith, bucket_take-le a.tokens a.ms now h k);
}

charge-Paid :
    (a : Adopt) (i : ℕ) (s : AdoptSrc) (now : ℕ)
    → a.ms ≤ now
    → now < 2 ^ 64
    → Paid a now (charge a i s now)
unfolding charge
charge-Paid a i s now h k = elim (Bool-cases (bucket_take s.tokens s.ms now).0) [
  | inl pays ↦ rw (pays, charge) (shared (charge_source a i s now).1)
  | inr short ↦ rw (short, charge) (record { clock = h; spent = omega arith })
]
  where
    shared :
        (b : Adopt) → Paid a now (charge_shared (record b { tokens = a.tokens; ms = a.ms }) now)
    shared b =
        let p : Paid (record b { tokens = a.tokens; ms = a.ms }) now
            (charge_shared (record b { tokens = a.tokens; ms = a.ms }) now) =
          charge_shared-Paid (record b { tokens = a.tokens; ms = a.ms }) now h k in
        record { clock = p.clock; spent = p.spent }

allow-Paid : (a : Adopt) (e : Ep) (now : ℕ) → a.ms ≤ now → now < 2 ^ 64 → Paid a now (allow a e now)
unfolding allow
allow-Paid a e now h k = charge-Paid a _ _ now h k

-- Probes as they arrive, each with its time.
unfoldable pub admitted : Adopt → List (Ep × ℕ) → ℕ
admitted a [] = 0
admitted a ((e, now) ∷ rest) =
    let (ok, a') = allow a e now in (if ok then 1 else 0) + admitted a' rest

-- The times do not go back, from `t` on, and fit 64 bits.
abbrev pub Ordered : ℕ → List (Ep × ℕ) → Type 0
Ordered t [] = Unit {0}
Ordered t ((e, now) ∷ rest) = (t ≤ now) × (now < 2 ^ 64) × Ordered now rest

abbrev pub last_time : ℕ → List (Ep × ℕ) → ℕ
last_time t [] = t
last_time t ((e, now) ∷ rest) = last_time now rest

last_time-le : (t : ℕ) (calls : List (Ep × ℕ)) → Ordered t calls → t ≤ last_time t calls
last_time-le t [] o = omega arith
last_time-le t ((e, now) ∷ rest) o = omega (arith, last_time-le now rest o.2)

admitted-level :
    (calls : List (Ep × ℕ)) (a : Adopt) (t : ℕ)
    → a.ms ≤ t
    → Ordered t calls
    → 1000 * admitted a calls ≤ level a t + 8 * (last_time t calls - t)
unfolding admitted
admitted-level [] a t h o = omega arith
admitted-level ((e, now) ∷ rest) a t h o =
    let p : Paid a now (allow a e now) = allow-Paid a e now (omega arith) o.1 in
    ground (
      arith,
      p.clock,
      p.spent,
      admitted-level rest (allow a e now).1 now p.clock o.2,
      last_time-le now rest o.2,
    )

-- Whatever sources the probes come from, and whatever tokens the budget holds, the number let
-- through from a time `t`, not before the budget was last charged, to the last one is at most
-- PATH_ADOPT_DEPTH and PATH_ADOPT_RATE for each second that passes (counted here in thousandths),
-- while a clock of 64 bits does not go back.
pub admitted-le :
    (calls : List (Ep × ℕ)) (a : Adopt) (t : ℕ)
    → a.ms ≤ t
    → Ordered t calls
    → 1000 * admitted a calls ≤ 1000 * adopt_depth + adopt_rate * (last_time t calls - t)
admitted-le calls a t h o = omega (arith, admitted-level calls a t h o)
