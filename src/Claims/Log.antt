-- ===== src/Claims/Log.antt =====
-- What the log of served claims remembers (src/claimlog.c).
use comrade.Prelude.{
  ℕ, zero, suc, ◌<◌, ◌≤◌, ◌≡◌, refl, sym, ap, ◌∙◌, true, false, Option, none, some, List, [], ◌∷◌,
  arith, memcmp_self, is_eq, bytes_eq, get_or, get_or-set_self, set, take, length, Bool-cases,
  Option-cases, inl, inr,
}
use mathlib.Core.Option.{some-injective}
use comrade.Claims.{
  later, served_max, ufrag_len, pwd_len, Row, zero_row, Served, stored, claim_made, find_row,
  served_find, note_row, served_note, served_made, served_has,
}

take_all : (n : ℕ) (xs : List ℕ) → length xs ≤ n → take n xs ≡ xs
take_all zero [] h = refl
take_all zero (x ∷ xs) h = absurd (omega (arith, h))
take_all (suc n) [] h = refl
take_all (suc n) (x ∷ xs) h = ap (◌∷◌ x) (take_all n xs (omega (arith, h)))

bytes_eq_self : (u : List ℕ) → bytes_eq u u ≡ true
bytes_eq_self u = ap is_eq (memcmp_self u)

later-none : (o : Option ℕ) → later o ≡ none → o ≡ none
later-none none e = refl
later-none (some i) e = cc

later-zero : (o : Option ℕ) → later o ≡ some 0 → ⊥
later-zero none e = cc
later-zero (some i) e = absurd (omega (arith, some-injective _ _ e))

later-suc : (o : Option ℕ) (i : ℕ) → later o ≡ some (suc i) → o ≡ some i
later-suc none i e = cc
later-suc (some j) i e =
    let h : suc j ≡ suc i = some-injective _ _ e in let same : j ≡ i = omega arith in ap some same

-- The steps of the loop.
find_row-here :
    (r : Row) (rs : List Row) (u : List ℕ)
    → bytes_eq r.ufrag u ≡ true
    → find_row (r ∷ rs) u ≡ some 0
unfolding find_row
find_row-here r rs u e = rw e

find_row-there :
    (r : Row) (rs : List Row) (u : List ℕ)
    → bytes_eq r.ufrag u ≡ false
    → find_row (r ∷ rs) u ≡ later (find_row rs u)
unfolding find_row
find_row-there r rs u e = rw e

find_row-lt : (rs : List Row) (u : List ℕ) (i : ℕ) → find_row rs u ≡ some i → i < length rs
unfolding find_row
find_row-lt [] u i e = cc
find_row-lt (r ∷ rs) u zero e = omega arith
find_row-lt (r ∷ rs) u (suc i) e = elim (Bool-cases (bytes_eq r.ufrag u)) [
  | inl hit ↦ cc (find_row-here r rs u hit)
  | inr miss ↦
      omega (arith, find_row-lt rs u i (later-suc _ i (sym (find_row-there r rs u miss) ∙ e)))
]

find_row-set_new :
    (rs : List Row) (u : List ℕ) (i : ℕ) (row : Row)
    → find_row rs u ≡ none
    → i < length rs
    → row.ufrag ≡ u
    → find_row (set rs i row) u ≡ some i
find_row-set_new [] u i row e h is = absurd (omega (arith, h))
find_row-set_new (r ∷ rs) u zero row e h is =
    find_row-here row rs u (ap (λ x. bytes_eq x u) is ∙ bytes_eq_self u)
find_row-set_new (r ∷ rs) u (suc i) row e h is = elim (Bool-cases (bytes_eq r.ufrag u)) [
  | inl hit ↦ cc (find_row-here r rs u hit)
  | inr miss ↦
      find_row-there r (set rs i row) u miss
      ∙ ap later (
          find_row-set_new rs u i row (later-none _ (sym (find_row-there r rs u miss) ∙ e))
            (omega (arith, h)) is)
]

find_row-set_old :
    (rs : List Row) (u : List ℕ) (i : ℕ) (row : Row)
    → find_row rs u ≡ some i
    → row.ufrag ≡ (get_or rs i zero_row).ufrag
    → find_row (set rs i row) u ≡ some i
find_row-set_old [] u i row e is = e
find_row-set_old (r ∷ rs) u zero row e is = elim (Bool-cases (bytes_eq r.ufrag u)) [
  | inl hit ↦ find_row-here row rs u (ap (λ x. bytes_eq x u) is ∙ hit)
  | inr miss ↦ absurd (later-zero _ (sym (find_row-there r rs u miss) ∙ e))
]
find_row-set_old (r ∷ rs) u (suc i) row e is = elim (Bool-cases (bytes_eq r.ufrag u)) [
  | inl hit ↦ cc (find_row-here r rs u hit)
  | inr miss ↦
      find_row-there r (set rs i row) u miss
      ∙ ap later
          (find_row-set_old rs u i row (later-suc _ i (sym (find_row-there r rs u miss) ∙ e)) is)
]

-- After a claim is noted, its row is found and holds the password.
note_row-found :
    (l : Served) (u : List ℕ) (pwd : Option (List ℕ))
    → length l.rows ≡ served_max
    → l.next < served_max
    → length u < ufrag_len
    → (i : ℕ) × (find_row (note_row l u pwd).rows u ≡ some i)
      × ((get_or (note_row l u pwd).rows i zero_row).pwd ≡ stored pwd_len pwd)
unfolding note_row
note_row-found l u pwd wide inside short = elim (Option-cases (find_row l.rows u)) [
  | inl new ↦
      let row : Row = record { ufrag = stored ufrag_len (some u); pwd = stored pwd_len pwd } in
      let kept : row.ufrag ≡ u = take_all 39 u (omega arith) in
      let there : l.next < length l.rows = omega arith in
      rw (new, note_row)
        ((
          l.next,
          find_row-set_new l.rows u l.next row new there kept,
          ap (λ r. r.pwd) (get_or-set_self l.rows l.next row zero_row there),
        ))
  | inr (i, old) ↦
      let row : Row = record {
        ufrag = (get_or l.rows i zero_row).ufrag;
        pwd = stored pwd_len pwd;
      } in
      rw (old, note_row)
        ((
          i,
          find_row-set_old l.rows u i row old refl,
          ap (λ r. r.pwd) (get_or-set_self l.rows i row zero_row (find_row-lt l.rows u i old)),
        ))
]

-- Once a claim with a fragment and a password shorter than their rows is noted in a log of eight
-- rows, the log has it, and a later claim with that fragment counts as the same exactly where
-- `claim_made` says so of the two passwords.
pub served_made-note :
    (l : Served) (c : ℕ) (cs pwd : List ℕ) (claim : Option (List ℕ))
    → length l.rows ≡ served_max
    → l.next < served_max
    → length (c ∷ cs) < ufrag_len
    → length pwd < pwd_len
    → (served_has (served_note l (some (c ∷ cs)) (some pwd)) (some (c ∷ cs)) ≡ true)
      × (served_made (served_note l (some (c ∷ cs)) (some pwd)) (some (c ∷ cs)) claim
          ≡ claim_made (some pwd) claim)
unfolding served_has served_made served_note served_find
served_made-note l c cs pwd claim wide inside short fits =
    let (i, found, holds) = note_row-found l (c ∷ cs) (some pwd) wide inside short in
    let kept : take 39 pwd ≡ pwd = take_all 39 pwd (omega arith) in
    (rw found, rw (found, holds, kept, served_made))
