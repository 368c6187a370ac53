-- ===== src/Prelude/Pick.antt =====
-- The loop that keeps the best of the entries that pass a test:
-- `for (i..) { if (!ok) continue; if (best < 0 || better(i, best)) best = i; }`.
use Prim.Native.Nat.{ℕ, zero, suc, ◌+◌}
use mathlib.Core.Path.{◌≡◌, ◌∙◌, ap, ap₂, sym, subst}
use mathlib.Core.Logic.{◌⊎◌, ◌≢◌, inl, inr}
use mathlib.Core.Bool.{Bool, true, false, ◌&&◌}
use mathlib.Core.Option.{Option, none, some, some-injective}
use mathlib.Core.List.{List, [], ◌∷◌}
use native.Mathlib.Omega.{arith}
use comrade.Prelude.Tests.{if◌then◌else◌, Bool-cases}
use comrade.Prelude.Lists.{get_elem?}

module _ {ℓ} {A : Type ℓ} (ok : ℕ → A → Bool) (better : A → A → Bool) where
  -- One round, at index `i`.
  abbrev pub keep : ℕ → A → Option (ℕ × A) → Option (ℕ × A)
  keep i x none = if ok i x then some (i, x) else none
  keep i x (some (j, y)) = if ok i x && better x y then some (i, x) else some (j, y)

  -- The rounds from index `i` on.
  abbrev pub pick : ℕ → List A → Option (ℕ × A) → Option (ℕ × A)
  pick i [] best = best
  pick i (x ∷ xs) best = pick (suc i) xs (keep i x best)

-- `better` compares by a total preorder.
pub record IsPreference {ℓ} {A : Type ℓ} (better : A → A → Bool) : Type ℓ where
  pub irrefl : (x : A) → better x x ≡ false
  pub asym : (x y : A) → better x y ≡ true → better y x ≡ false
  pub trans : (x y z : A) → better x y ≡ false → better y z ≡ false → better x z ≡ false

module _ {ℓ} {A : Type ℓ} (ok : ℕ → A → Bool) (better : A → A → Bool)
    (pref : IsPreference better) where
  keep-better :
      (i : ℕ) (x : A) (j : ℕ) (y : A) (k : ℕ) (z : A)
      → keep ok better i x (some (j, y)) ≡ some (k, z)
      → better y z ≡ false
  keep-better i x j y k z e = ground (arith, pref.irrefl y, pref.asym x y)

  -- An earlier best is not better than the result.
  pick-seed :
      (xs : List A) (i j : ℕ) (y : A) (k : ℕ) (z : A)
      → pick ok better i xs (some (j, y)) ≡ some (k, z)
      → better y z ≡ false
  pick-seed [] i j y k z e = ground (arith, pref.irrefl y)
  pick-seed (x ∷ xs) i j y k z e = elim (Bool-cases (ok i x && better x y)) [
    | inl up ↦
        pref.trans y x z (pref.asym x y (ground arith)) (pick-seed xs (suc i) i x k z (rw up at e))
    | inr stay ↦ pick-seed xs (suc i) j y k z (rw stay at e)
  ]

  pick-head :
      (xs : List A) (i : ℕ) (x : A) (best : Option (ℕ × A)) (k : ℕ) (z : A)
      → pick ok better i (x ∷ xs) best ≡ some (k, z)
      → ok i x ≡ true
      → better x z ≡ false
  pick-head xs i x none k z e passes = pick-seed xs (suc i) i x k z (rw passes at e)
  pick-head xs i x (some (j, y)) k z e passes = elim (Bool-cases (better x y)) [
    | inl up ↦ pick-seed xs (suc i) i x k z (rw (passes, up) at e)
    | inr stay ↦ pref.trans x y z stay (pick-seed xs (suc i) j y k z (rw (passes, stay) at e))
  ]

  -- Nothing that passes the test is better than the result.
  pub pick-best :
      (xs : List A) (i : ℕ) (best : Option (ℕ × A)) (k : ℕ) (z : A)
      → pick ok better i xs best ≡ some (k, z)
      → (j m : ℕ) (y : A) → m ≡ i + j
      → get_elem? xs j ≡ some y
      → ok m y ≡ true
      → better y z ≡ false
  pick-best [] i best k z e j m y at h passes = ground arith
  pick-best (x ∷ xs) i best k z e zero m y at h passes =
      subst (λ v. better v z ≡ false) (some-injective _ _ h)
        (pick-head xs i x best k z e (ap₂ ok (omega arith) (some-injective _ _ h) ∙ passes))
  pick-best (x ∷ xs) i best k z e (suc j) m y at h passes =
      pick-best xs (suc i) (keep ok better i x best) k z e j m y (omega arith) h passes

module _ {ℓ} {A : Type ℓ} (ok : ℕ → A → Bool) (better : A → A → Bool) where
  -- A best is never lost.
  pick-some : (xs : List A) (i : ℕ) (b : ℕ × A) → pick ok better i xs (some b) ≢ none
  pick-some [] i b e = cc
  pick-some (x ∷ xs) i (j, y) e = elim (Bool-cases (ok i x && better x y)) [
    | inl up ↦ pick-some xs (suc i) (i, x) (rw up at e)
    | inr stay ↦ pick-some xs (suc i) (j, y) (rw stay at e)
  ]

  -- Where nothing is found, nothing passes the test.
  pub pick-none :
      (xs : List A) (i : ℕ)
      → pick ok better i xs none ≡ none
      → (j m : ℕ) (y : A) → m ≡ i + j
      → get_elem? xs j ≡ some y
      → ok m y ≡ false
  pick-none [] i e j m y at h = ground arith
  pick-none (x ∷ xs) i e zero m y at h = elim (Bool-cases (ok i x)) [
    | inl up ↦ absurd (pick-some xs (suc i) (i, x) (rw up at e))
    | inr skip ↦ ap₂ ok {y = i} (omega arith) (sym (some-injective _ _ h)) ∙ skip
  ]
  pick-none (x ∷ xs) i e (suc j) m y at h = elim (Bool-cases (ok i x)) [
    | inl up ↦ absurd (pick-some xs (suc i) (i, x) (rw up at e))
    | inr skip ↦ pick-none xs (suc i) (rw skip at e) j m y (omega arith) h
  ]

  pick-origin :
      (xs : List A) (i : ℕ) (best : Option (ℕ × A)) (k : ℕ) (z : A)
      → pick ok better i xs best ≡ some (k, z)
      → (best ≡ some (k, z)) ⊎ ((j : ℕ) × (k ≡ i + j) × (get_elem? xs j ≡ some z) × (ok k z ≡ true))
  pick-origin [] i best k z e = inl e
  pick-origin (x ∷ xs) i best k z e =
      elim (pick-origin xs (suc i) (keep ok better i x best) k z e) [
        | inl kept ↦ keep-origin best kept
        | inr (j, at, h, passes) ↦ inr (suc j, omega arith, h, passes)
      ]
    where
      here :
          ◌≡◌ {A = Option (ℕ × A)} (some (i, x)) (some (k, z))
          → ok i x ≡ true
          → (j : ℕ) × (k ≡ i + j) × (get_elem? (x ∷ xs) j ≡ some z) × (ok k z ≡ true)
      here same passes = (0, ground arith, ground arith, ground arith)

      keep-origin :
          (b : Option (ℕ × A))
          → keep ok better i x b ≡ some (k, z)
          → (b ≡ some (k, z))
            ⊎ ((j : ℕ) × (k ≡ i + j) × (get_elem? (x ∷ xs) j ≡ some z) × (ok k z ≡ true))
      keep-origin none kept = elim (Bool-cases (ok i x)) [
        | inl up ↦ inr (here (rw up at kept) up)
        | inr skip ↦ inl (rw skip at kept)
      ]
      keep-origin (some (b, v)) kept = elim (Bool-cases (ok i x)) [
        | inl up ↦ elim (Bool-cases (better x v)) [
          | inl won ↦ inr (here (rw (up, won) at kept) up)
          | inr lost ↦ inl (rw (up, lost) at kept)
        ]
        | inr skip ↦ inl (rw skip at kept)
      ]

  -- What is found stands in the list and passes the test.
  pub pick-found :
      (xs : List A) (k : ℕ) (z : A)
      → pick ok better 0 xs none ≡ some (k, z)
      → (get_elem? xs k ≡ some z) × (ok k z ≡ true)
  pick-found xs k z e = elim (pick-origin xs 0 none k z e) [
    | inl never ↦ cc
    | inr (j, at, h, passes) ↦ (ap (get_elem? xs) (omega arith) ∙ h, passes)
  ]
