-- ===== src/Paths/Rank/Select.antt =====
-- `path_select` and `path_challenger` of src/path.c: when the choice moves, and when it stays.
use comrade.Prelude.{
  ℕ, zero, suc, ◌≤◌, ◌<◌, ◌≡◌, ◌≢◌, ◌⊎◌, refl, sym, ap, ◌∙◌, true, false, none, some, List, [], ◌∷◌,
  arith, get_elem?, get_or, Option-cases, Bool-cases, inl, inr, subst,
}
use comrade.Prelude.Pick.{pick, pick-best, pick-found}
use comrade.Paths.Types.{NetPath, zero_path, warmth_rank}
use comrade.Paths.Measure.{warmth_of}
use comrade.Paths.Cost.{bucket, base_bucket, base_srtt_ms}
use comrade.Paths.Table.{Table, slot}
use comrade.Paths.Rank.{
  cmp, ahead, can_carry, best, moves, choose, select, expire_all, challenger, contends,
}
use comrade.Paths.Rank.Order.{ahead-IsPreference}
use comrade.Paths.Rank.Best.{At, best-some, best-none, slot-At, index_of-some}

abbrev pub tier : ℕ → NetPath → ℕ
tier now p = warmth_rank (warmth_of p now)

tier-le_of_not_ahead : (now : ℕ) (q p : NetPath) → ahead now q p ≡ false → tier now p ≤ tier now q
unfolding cmp
tier-le_of_not_ahead now q p h = ground arith

get_or-used :
    (ps : List NetPath) (i : ℕ)
    → (get_or ps i zero_path).used ≡ true
    → get_elem? ps i ≡ some (get_or ps i zero_path)
get_or-used [] i h = cc
get_or-used (p ∷ ps) zero h = refl
get_or-used (p ∷ ps) (suc i) h = get_or-used ps i h

-- What a choice of slot `i` promises: a path that is in use and can send, in a tier that no path
-- able to carry the session beats.
pub record Carries (t : Table) (now i : ℕ) : Type 0 where
  pub used : (slot t i).used ≡ true
  pub usable : (slot t i).usable ≡ true
  pub best_tier :
      (j : ℕ) (q : NetPath) → At t j q → can_carry q ≡ true → tier now (slot t i) ≤ tier now q

best-Carries : (t : Table) (now b : ℕ) → best t now ≡ some b → Carries t now b
best-Carries t now b e =
    let (p, at, can, least) = best-some t now b e in
    let here : slot t b ≡ p = slot-At t b p at in
    record {
      used = ground (arith, here, can);
      usable = ground (arith, here, can);
      best_tier = λ j q at_q can_q.
          subst (λ r. tier now r ≤ tier now q) (sym here)
            (tier-le_of_not_ahead now q p (least j q at_q can_q));
    }

-- An incumbent that does not move is used, usable, and no worse in tier than the best.
stays-parts :
    (t : Table) (now b s : ℕ)
    → t.sel ≡ some s
    → moves t now b ≡ false
    → ((slot t s).used ≡ true)
      × ((slot t s).usable ≡ true)
      × (tier now (slot t s) ≤ tier now (slot t b))
unfolding moves
stays-parts t now b s sel e = ground arith

stays-Carries :
    (t : Table) (now b s : ℕ)
    → best t now ≡ some b
    → t.sel ≡ some s
    → moves t now b ≡ false
    → Carries t now s
stays-Carries t now b s be sel e =
    let (used, usable, no_worse) = stays-parts t now b s sel e in
    record {
      used = used;
      usable = usable;
      best_tier =
          λ j q at can. omega (arith, (best-Carries t now b be).best_tier j q at can, no_worse);
    }

pub p-choose : (t : Table) (now : ℕ) → (choose t now).p ≡ t.p
unfolding choose
p-choose t now = ground arith

-- The choice that is left: none when no path can carry the session, else the best path where the
-- incumbent has to go, else the incumbent.
choose-sel :
    (t : Table) (now : ℕ)
    → ((best t now ≡ none) × ((choose t now).sel ≡ none))
      ⊎ ((b : ℕ) × (best t now ≡ some b)
          × (((moves t now b ≡ true) × ((choose t now).sel ≡ some b))
              ⊎ ((moves t now b ≡ false) × ((choose t now).sel ≡ t.sel))))
unfolding choose
choose-sel t now = elim (Option-cases (best t now)) [
  | inl none_can ↦ inl (none_can, rw (none_can, choose))
  | inr (b, be) ↦ elim (Bool-cases (moves t now b)) [
    | inl m ↦ inr (b, be, inl (m, rw (be, choose, m)))
    | inr m ↦ inr (b, be, inr (m, rw (be, choose, m)))
  ]
]

pub choose-Carries : (t : Table) (now i : ℕ) → (choose t now).sel ≡ some i → Carries t now i
choose-Carries t now i e = elim (choose-sel t now) [
  | inl (none_can, sel) ↦ cc
  | inr (b, be, inl (m, sel)) ↦ ground (arith, best-Carries t now b be)
  | inr (b, be, inr (m, sel)) ↦ stays-Carries t now b i be (sym sel ∙ e) m
]

-- A slot whose path can carry holds a path of the table.
carrier-At : (t : Table) (j : ℕ) → can_carry (slot t j) ≡ true → At t j (slot t j)
carrier-At t j can = get_or-used t.p j (ground (arith, can))

-- `path_select` first scores the probes that are past their deadline. Whatever path it then chooses
-- is in use and can send, and each slot either holds no path that can carry the session or one in no
-- better warmth tier.
pub select-best_tier :
    (t : Table) (now i j : ℕ)
    → (select t now).0 ≡ some i
    → ((slot (expire_all t now) i).used ≡ true)
      × ((slot (expire_all t now) i).usable ≡ true)
      × ((can_carry (slot (expire_all t now) j) ≡ false)
          ⊎ (tier now (slot (expire_all t now) i) ≤ tier now (slot (expire_all t now) j)))
unfolding select
select-best_tier t now i j e =
    let u = expire_all t now in
    let c : Carries u now i = choose-Carries u now i e in
    (
      c.used,
      c.usable,
      elim (Bool-cases (can_carry (slot u j))) [
        | inr cannot ↦ inl cannot
        | inl can ↦ inr (c.best_tier j (slot u j) (carrier-At u j can) can)
      ],
    )

choose-none : (t : Table) (now : ℕ) → (choose t now).sel ≡ none → best t now ≡ none
unfolding choose moves
choose-none t now e = ground arith

-- Where `path_select` chooses none, no path of the table, its late probes scored, can carry the
-- session: a table that holds one that can is never left without a choice.
pub select-none :
    (t : Table) (now j : ℕ) (q : NetPath)
    → (select t now).0 ≡ none
    → At (expire_all t now) j q
    → can_carry q ≡ false
unfolding select
select-none t now j q e at =
    best-none (expire_all t now) now j q (choose-none (expire_all t now) now e) at

no_move :
    (t : Table) (now b s : ℕ)
    → t.sel ≡ some s
    → can_carry (slot t s) ≡ true
    → moves t now b ≡ true
    → tier now (slot t s) ≤ tier now (slot t b)
    → ⊥
unfolding moves
no_move t now b s sel can m le = ground arith

-- A chosen path that can go on carrying the session once late probes are scored, and that no path
-- able to carry it beats in its warmth tier, stays the choice of `path_select`.
pub select-keeps :
    (t : Table) (now s : ℕ)
    → t.sel ≡ some s
    → can_carry (slot (expire_all t now) s) ≡ true
    → ((j : ℕ) (q : NetPath)
        → At (expire_all t now) j q
        → can_carry q ≡ true
        → tier now (slot (expire_all t now) s) ≤ tier now q)
    → (select t now).0 ≡ some s
unfolding select
select-keeps t now s sel can least = elim (choose-sel (expire_all t now) now) [
  | inl (none_can, gone) ↦
      let cannot : can_carry (slot u s) ≡ false = best-none u now s (slot u s) none_can here in cc
  | inr (b, be, inl (m, to_b)) ↦
      let (p, at, can_p, _) = best-some u now b be in
      absurd (
        stuck b m (
          subst (λ r. tier now (slot u s) ≤ tier now r) (sym (slot-At u b p at))
            (least b p at can_p)))
  | inr (b, be, inr (m, stays)) ↦ stays ∙ sel-expire_all
]
  where
    u : Table
    u = expire_all t now

    sel-expire_all : u.sel ≡ some s
    sel-expire_all = sel

    here : At u s (slot u s)
    here = get_or-used u.p s (ground arith)

    stuck : (b : ℕ) → moves u now b ≡ true → tier now (slot u s) ≤ tier now (slot u b) → ⊥
    stuck b m le = no_move u now b s sel-expire_all can m le

contends-parts :
    (t : Table) (s now i : ℕ) (p : NetPath)
    → contends t s now i p ≡ true
    → (i ≢ s)
      × (can_carry p ≡ true)
      × (tier now p ≡ tier now (slot t s))
      × (base_bucket p < base_bucket (slot t s))
      × (bucket p < bucket (slot t s))
      × (0 < base_srtt_ms p)
unfolding contends
contends-parts t s now i p h =
    (λ e. ground arith, ground arith, ground arith, ground arith, ground arith, ground arith)

challenger-found :
    (t : Table) (now s i : ℕ)
    → t.sel ≡ some s
    → challenger t now ≡ some i
    → (p : NetPath) × (pick (contends t s now) (ahead now) 0 t.p none ≡ some (i, p))
unfolding challenger
challenger-found t now s i sel e = index_of-some _ i (ground arith)

contender-At : (t : Table) (s now j : ℕ) → contends t s now j (slot t j) ≡ true → At t j (slot t j)
contender-At t s now j con = carrier-At t j (contends-parts t s now j (slot t j) con).1

-- With a choice, a challenger is another slot than the choice, able to carry the session, in the
-- tier of the choice, with a base that has been measured, and it beats the choice on the unloaded
-- and on the loaded bucket, whether or not any other path does; and each slot either holds none
-- that contends so or one that does not rank ahead of it.
pub challenger-beats :
    (t : Table) (now s i j : ℕ)
    → t.sel ≡ some s
    → challenger t now ≡ some i
    → (i ≢ s)
      × (can_carry (slot t i) ≡ true)
      × (tier now (slot t i) ≡ tier now (slot t s))
      × (base_bucket (slot t i) < base_bucket (slot t s))
      × (bucket (slot t i) < bucket (slot t s))
      × (0 < base_srtt_ms (slot t i))
      × ((contends t s now j (slot t j) ≡ false) ⊎ (ahead now (slot t j) (slot t i) ≡ false))
challenger-beats t now s i j sel e =
    let (p, found) = challenger-found t now s i sel e in
    let (at_i, con_i) = pick-found (contends t s now) (ahead now) t.p i p found in
    let here : slot t i ≡ p = slot-At t i p at_i in
    let (ne, can, same, base, loaded, known) =
      contends-parts t s now i (slot t i) (ap (contends t s now i) here ∙ con_i) in
    (
      ne,
      can,
      same,
      base,
      loaded,
      known,
      elim (Bool-cases (contends t s now j (slot t j))) [
        | inr aside ↦ inl aside
        | inl con ↦ inr (
            ap (ahead now (slot t j)) here
            ∙ pick-best (contends t s now) (ahead now) (ahead-IsPreference now) t.p 0 none i p found
                j j (slot t j) (omega arith) (contender-At t s now j con) con)
      ],
    )
