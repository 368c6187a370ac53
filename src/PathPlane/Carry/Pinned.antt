-- ===== src/PathPlane/Carry/Pinned.antt =====
-- A pin holds while its path can carry in its tier (`pin_check` of src/pathplane.c).
use comrade.Prelude.{
  ℕ, ◌≡◌, ◌⊎◌, inl, inr, refl, sym, subst, true, false, ◌&&◌, Option, none, some, List, leb, map,
  arith, bytes_eq, Bool-cases,
}
use comrade.Paths.Types.{Warmth, warmth_rank}
use comrade.Paths.Measure.{warmth_of}
use comrade.Paths.Table.{Table, slot}
use comrade.Paths.Admit.Evict.{first-found}
use comrade.Paths.Rank.{select}
use comrade.PathPlane.{PathPlane, Sinks, now_usable}
use comrade.PathPlane.Carry.{named, carries_pin, pin_at, pin_check, choose_anew, decide}

named-found :
    (id : List ℕ) (t : Table) (i : ℕ)
    → named id t ≡ some i
    → ((slot t i).used ≡ true) × (bytes_eq (slot t i).id id ≡ true)
unfolding named
named-found id t i e =
    let (j, at, hit) = first-found (λ p. p.used && bytes_eq p.id id) 0 t.p i e in
    let same : j ≡ i = omega arith in
    subst (λ n. ((slot t n).used ≡ true) × (bytes_eq (slot t n).id id ≡ true)) same
      (ground (arith, hit))

-- The pin stands, on a path of its id that can send and is in the pinned tier or better.
pub record Stands (id : List ℕ) (worst : Warmth) (now : ℕ) (pl' : PathPlane) : Type 0 where
  pub at : ℕ
  pub pinned : pl'.pinned ≡ true
  pub carries : pl'.t.sel ≡ some at
  pub used : (slot pl'.t at).used ≡ true
  pub named : bytes_eq (slot pl'.t at).id id ≡ true
  pub usable : (slot pl'.t at).usable ≡ true
  pub tier : leb (warmth_rank (warmth_of (slot pl'.t at) now)) (warmth_rank worst) ≡ true

pin_at-Stands :
    (pl : PathPlane) (now : ℕ) (at : Option ℕ)
    → named pl.pin_id pl.t ≡ at
    → pl.pinned ≡ true
    → Stands pl.pin_id pl.pin_warmth now (pin_at pl now at)
      ⊎ (((pin_at pl now at).pinned ≡ false) × ((pin_at pl now at).t ≡ pl.t))
unfolding pin_at
pin_at-Stands pl now none found pinned = inr (refl, refl)
pin_at-Stands pl now (some i) found pinned = elim (Bool-cases (carries_pin pl now (slot pl.t i))) [
  | inr cannot ↦ inr (simp cannot (refl, refl))
  | inl can ↦
      let (used, same) = named-found pl.pin_id pl.t i found in
      inl (
        simp can (record {
          at = i;
          pinned = pinned;
          carries = refl;
          used = used;
          named = same;
          usable = ground (arith, can);
          tier = ground (arith, can);
        }))
]

pin_check-pinned :
    (pl : PathPlane) (now : ℕ)
    → pl.pinned ≡ true
    → pin_check pl now ≡ pin_at pl now (named pl.pin_id pl.t)
unfolding pin_check
pin_check-pinned pl now e = ground (arith, e)

-- After `pathplane_decide` with a pin: either the pin stands, and the session is carried by the path
-- that it names, in use, able to send now and in the tier that it was pinned in or a better one; or
-- the pin is gone, and the table and its choice are what `path_select` makes of them.
pub decide-pinned :
    (pl : PathPlane) (k : Sinks) (now : ℕ)
    → pl.pinned ≡ true
    → Stands pl.pin_id pl.pin_warmth now (decide pl k now).1
      ⊎ (((decide pl k now).1.pinned ≡ false)
          × ((decide pl k now).1.t
              ≡ (select (record pl.t { p = map (now_usable k) pl.t.p }) now).1))
unfolding decide choose_anew
decide-pinned pl k now pinned =
    let chosen = choose_anew pl k now in
    subst (λ q. Stands pl.pin_id pl.pin_warmth now q ⊎ ((q.pinned ≡ false) × (q.t ≡ chosen.t)))
      (sym (pin_check-pinned chosen now pinned))
      (pin_at-Stands chosen now (named pl.pin_id chosen.t) refl pinned)
