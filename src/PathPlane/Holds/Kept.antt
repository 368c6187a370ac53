-- ===== src/PathPlane/Holds/Kept.antt =====
-- Which carriers the reaper lets go (`pathplane_holds_reap` of src/pathplane.c).
use comrade.Prelude.{
  ℕ, zero, suc, ◌+◌, ◌≤◌, ◌<◌, ◌≡◌, ◌≢◌, inl, inr, refl, ap, ◌∙◌, Bool, not, ◌&&◌, ◌||◌, Option,
  List, [], ◌∷◌, leb, if◌then◌else◌, arith, set, get_or, get_or-set_ne, Bool-cases, subst,
}
use native.Mathlib.Decide.{ℕ_discrete}
use comrade.Paths.Table.{is_sel, is_none}
use comrade.PathPlane.{PathPlane, Sinks, Hold, no_hold, Effect, hold_max, plane_drop_agent}
use comrade.PathPlane.Holds.{
  hold_at, hold_clear, free_agent, clear_where, holds_reap, hold_carrying, has_failed,
}

holds-hold_clear :
    (pl : PathPlane) (k : Sinks) (i : ℕ) → (hold_clear pl k i).1.holds ≡ set pl.holds i no_hold
unfolding hold_clear free_agent plane_drop_agent
holds-hold_clear pl k i = refl

-- A slot of a list that is written with the value that stands beyond its end.
set-no_hold_at : (hs : List Hold) (i : ℕ) → get_or (set hs i no_hold) i no_hold ≡ no_hold
set-no_hold_at [] i = refl
set-no_hold_at (h ∷ hs) zero = refl
set-no_hold_at (h ∷ hs) (suc i) = set-no_hold_at hs i

cleared-at : (pl : PathPlane) (k : Sinks) (i : ℕ) → hold_at (hold_clear pl k i).1 i ≡ no_hold
cleared-at pl k i =
    ap (λ hs. get_or hs i no_hold) (holds-hold_clear pl k i) ∙ set-no_hold_at pl.holds i

cleared-other :
    (pl : PathPlane) (k : Sinks) (i j : ℕ) → i ≢ j → hold_at (hold_clear pl k i).1 j ≡ hold_at pl j
cleared-other pl k i j ne =
    ap (λ hs. get_or hs j no_hold) (holds-hold_clear pl k i)
    ∙ get_or-set_ne pl.holds i j no_hold no_hold ne

-- For a test that reads the hold under the loop and nothing else of the plane.
module _ (f : ℕ → Hold → Bool) (k : Sinks) where
  loop : PathPlane → (left i : ℕ) → List Effect × PathPlane
  loop q left i = clear_where (λ p n. f n (hold_at p n)) q k left i

  -- The loop leaves the slots before the one that it starts at.
  loop-before : (left i j : ℕ) (q : PathPlane) → j < i → hold_at (loop q left i).1 j ≡ hold_at q j
  unfolding loop clear_where
  loop-before zero i j q lt = refl
  loop-before (suc left) i j q lt = elim (Bool-cases (f i (hold_at q i))) [
    | inr keep ↦ simp keep (loop-before left (suc i) j q (omega arith))
    | inl clear ↦ simp clear (
        loop-before left (suc i) j (hold_clear q k i).1 (omega arith)
        ∙ cleared-other q k i j (λ e. omega (arith, e)))
  ]

  -- What it makes of the slots that it passes.
  abbrev Cleared : PathPlane → ℕ → Hold → Type 0
  Cleared q j h = h ≡ (if f j (hold_at q j) then no_hold else hold_at q j)

  loop-here : (left i : ℕ) (q : PathPlane) → Cleared q i (hold_at (loop q (suc left) i).1 i)
  unfolding loop clear_where
  loop-here left i q = elim (Bool-cases (f i (hold_at q i))) [
    | inr keep ↦ simp keep (loop-before left (suc i) i q (omega arith))
    | inl clear ↦
        simp clear
          (loop-before left (suc i) i (hold_clear q k i).1 (omega arith) ∙ cleared-at q k i)
  ]

  loop-at :
      (left i j : ℕ) (q : PathPlane)
      → i ≤ j
      → j < i + left
      → Cleared q j (hold_at (loop q left i).1 j)
  unfolding loop clear_where
  loop-at zero i j q le lt = absurd (omega arith)
  loop-at (suc left) i j q le lt = elim (ℕ_discrete i j) [
    | yes same ↦
        subst (λ n. Cleared q n (hold_at (loop q (suc left) i).1 n)) same (loop-here left i q)
    | no later ↦ elim (Bool-cases (f i (hold_at q i))) [
      | inr keep ↦ simp keep (loop-at left (suc i) j q (next later) (omega arith))
      | inl clear ↦ simp clear (
          loop-at left (suc i) j (hold_clear q k i).1 (next later) (omega arith)
          ∙ ap (λ h. if f j h then no_hold else h) (cleared-other q k i j later))
    ]
  ]
    where
      next : i ≢ j → suc i ≤ j
      next ne = ground (arith, ne)

-- Whether the reaper takes a hold: one that is in use, does not carry the session, and is past its
-- deadline or has failed.
abbrev pub spent : Sinks → (carrying : Option ℕ) (now i : ℕ) → Hold → Bool
spent k carrying now i h =
    not (is_none h.agent || is_sel carrying i) && (leb h.until_ms now || has_failed k h.agent)

-- Of each of the sixteen places for carriers set aside: `pathplane_holds_reap` clears it exactly if
-- its carrier does not carry the session and is past its deadline or has failed, and leaves it as it
-- was otherwise.
pub holds_reap-exact :
    (pl : PathPlane) (k : Sinks) (now i : ℕ)
    → i < hold_max
    → hold_at (holds_reap pl k now).1 i
      ≡ (if spent k (hold_carrying pl) now i (hold_at pl i) then no_hold else hold_at pl i)
unfolding holds_reap loop
holds_reap-exact pl k now i lt =
    loop-at (spent k (hold_carrying pl) now) k 16 0 i pl (omega arith) (omega arith)
