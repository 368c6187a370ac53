-- ===== src/Paths/Rank/Best.antt =====
-- `path_best` of src/path.c finds a best path that can carry the session, if there is one.
use comrade.Prelude.{
  ℕ, zero, suc, ◌≡◌, refl, true, false, Option, none, some, List, [], ◌∷◌, arith, get_elem?, get_or,
}
use comrade.Prelude.Pick.{pick, pick-best, pick-none, pick-found}
use comrade.Paths.Types.{NetPath, zero_path}
use comrade.Paths.Table.{Table, slot, index_of}
use comrade.Paths.Rank.{ahead, can_carry, best}
use comrade.Paths.Rank.Order.{ahead-IsPreference}

-- The path in a slot of the table.
abbrev pub At : Table → ℕ → NetPath → Type 0
At t i p = get_elem? t.p i ≡ some p

-- The slot found by a loop of the table, with its path.
pub index_of-some :
    (found : Option (ℕ × NetPath)) (i : ℕ)
    → index_of found ≡ some i
    → (p : NetPath) × (found ≡ some (i, p))
index_of-some none i e = cc
index_of-some (some (k, p)) i e = (p, ground arith)

index_of-none : (found : Option (ℕ × NetPath)) → index_of found ≡ none → found ≡ none
index_of-none none e = refl
index_of-none (some (k, p)) e = cc

-- Where `path_best` names a slot, its path is used, usable and not fully lost, and no such path
-- ranks ahead of it.
pub best-some :
    (t : Table) (now i : ℕ)
    → best t now ≡ some i
    → (p : NetPath) × At t i p
      × (can_carry p ≡ true)
      × ((j : ℕ) (q : NetPath) → At t j q → can_carry q ≡ true → ahead now q p ≡ false)
unfolding best
best-some t now i e =
    let (p, found) = index_of-some (pick (λ k q. can_carry q) (ahead now) 0 t.p none) i e in
    let here = pick-found (λ k q. can_carry q) (ahead now) t.p i p found in
    (
      p,
      here.0,
      here.1,
      λ j q at q_can.
          pick-best (λ k q. can_carry q) (ahead now) (ahead-IsPreference now) t.p 0 none i p found j
            j q (omega arith) at q_can,
    )

-- Where it names none, no path of the table can carry the session.
pub best-none :
    (t : Table) (now j : ℕ) (q : NetPath) → best t now ≡ none → At t j q → can_carry q ≡ false
unfolding best
best-none t now j q e at =
    pick-none (λ k q. can_carry q) (ahead now) t.p 0 (index_of-none _ e) j j q (omega arith) at

get_or-get_elem? :
    (ps : List NetPath) (i : ℕ) (p : NetPath) → get_elem? ps i ≡ some p → get_or ps i zero_path ≡ p
get_or-get_elem? [] i p e = cc
get_or-get_elem? (q ∷ ps) zero p e = ground arith
get_or-get_elem? (q ∷ ps) (suc i) p e = get_or-get_elem? ps i p e

-- The path that `t->p[i]` reads.
pub slot-At : (t : Table) (i : ℕ) (p : NetPath) → At t i p → slot t i ≡ p
slot-At t i p at = get_or-get_elem? t.p i p at
