-- ===== src/Paths/Admit/Evict.antt =====
-- What `path_table_add` and `path_table_offer` of src/path.c may take a slot from.
use comrade.Prelude.{
  ℕ, suc, ◌+◌, ◌≤◌, ◌≡◌, ◌≢◌, refl, sym, ap, ◌∙◌, Bool, true, false, not, ◌&&◌, Option, none, some,
  List, [], ◌∷◌, arith, get_elem?, get_or, set, get_or-set_ne, Option-cases, Bool-cases, inl, inr,
  ◌⊎◌, subst,
}
use comrade.Prelude.Pick.{IsPreference, pick-best, pick-found}
use mathlib.Core.Option.{some-injective}
use native.Mathlib.Decide.{ℕ_discrete}
use comrade.Paths.Ep.{Os, Ep, Sockaddr, from_sockaddr}
use comrade.Paths.Types.{NetPath, PathKind, Warmth, dead, zero_path, warmth_rank}
use comrade.Paths.Measure.{warmth_of}
use comrade.Paths.Table.{Table, slot, first, is_sel, is_dead, worse, worst_slot, evict, find_ep}
use comrade.Paths.Admit.{add, add_ep, offer, new_path, known, remote_ep, spare, dead_from}
use comrade.Paths.Rank.Best.{slot-At, index_of-some}
use comrade.Paths.Invariant.{IsValid, chosen-at}

pub first-found :
    (test : NetPath → Bool) (k : ℕ) (ps : List NetPath) (i : ℕ)
    → first test k ps ≡ some i
    → (j : ℕ) × (i ≡ k + j) × (test (get_or ps j zero_path) ≡ true)
unfolding first
first-found test k [] i e = cc
first-found test k (p ∷ ps) i e = elim (Bool-cases (test p)) [
  | inl hit ↦ (0, ground arith, hit)
  | inr miss ↦
      let (j, at, hit) = first-found test (suc k) ps i (rw (miss, first) at e) in
      (suc j, omega arith, hit)
]

worse-IsPreference : (now : ℕ) → IsPreference (worse now)
worse-IsPreference now = record {
  irrefl = λ p. ground arith;
  asym = λ p q h. ground arith;
  trans = λ p q r h k. ground arith;
}

-- The slot that is given up: a free one, or the worst of those that do not carry the session.
evict-cases :
    (t : Table) (now i : ℕ)
    → evict t now ≡ some i
    → ((slot t i).used ≡ false)
      ⊎ ((first (λ p. not p.used) 0 t.p ≡ none) × (worst_slot t now ≡ some i))
unfolding evict
evict-cases t now i e = elim (Option-cases (first (λ p. not p.used) 0 t.p)) [
  | inl full ↦ inr (full, rw (full, evict) at e)
  | inr (k, free) ↦
      let (j, at, hit) = first-found (λ p. not p.used) 0 t.p k free in
      let same : k ≡ i = some-injective _ _ (rw (free, evict) at e) in
      let k_is : j ≡ i = omega arith in
      inl (ap (λ m. (slot t m).used) (sym k_is) ∙ ground (arith, hit))
]

worst_slot-not_sel : (t : Table) (now i s : ℕ) → worst_slot t now ≡ some i → t.sel ≡ some s → i ≢ s
unfolding worst_slot
worst_slot-not_sel t now i s e sel same =
    let (p, found) = index_of-some _ i e in
    let (at, ok) = pick-found (λ k q. not (is_sel t.sel k)) (worse now) t.p i p found in
    ground arith

evict-not_sel :
    (t : Table) (now i s : ℕ) → IsValid t → evict t now ≡ some i → t.sel ≡ some s → i ≢ s
evict-not_sel t now i s v e sel same = elim (evict-cases t now i e) [
  | inl free ↦
      let used : (slot t s).used ≡ true = chosen-at t.p t.sel s sel v.chosen in
      let unused : (slot t s).used ≡ false = ap (λ k. (slot t k).used) (sym same) ∙ free in cc
  | inr (full, worst) ↦ worst_slot-not_sel t now i s worst sel same
]

module _ (os : Os) (t : Table) (kind : PathKind) (now : ℕ) where
  -- Adding a path leaves the table alone, or writes the slot that is given up.
  add_ep-effect :
      (e : Ep) (remote : Option Sockaddr) (agent : Option ℕ)
      → let u = (add_ep os t kind e remote agent now).1 in
        (u ≡ t)
        ⊎ ((i : ℕ) × (evict t now ≡ some i)
            × (u ≡ record t { p = set t.p i (new_path os kind e remote agent now) }))
  unfolding add_ep
  add_ep-effect e remote agent = elim (Option-cases (known t kind e agent)) [
    | inr (i, found) ↦ inl (rw (found, add_ep))
    | inl missing ↦ elim (Option-cases (evict t now)) [
      | inl full ↦ inl (rw (missing, full, add_ep))
      | inr (i, room) ↦ inr (i, room, rw (missing, room, add_ep))
    ]
  ]

  add-effect :
      (remote : Option Sockaddr) (agent : Option ℕ)
      → let u = (add os t kind remote agent now).1 in
        (u ≡ t)
        ⊎ ((i : ℕ) × (q : NetPath) × (evict t now ≡ some i) × (u ≡ record t { p = set t.p i q }))
  unfolding add
  add-effect remote agent = elim (Option-cases (remote_ep remote)) [
    | inl bad ↦ inl (rw (bad, add))
    | inr (e, good) ↦ elim (add_ep-effect e remote agent) [
      | inl same ↦ inl (rw (good, add) same)
      | inr (i, room, wrote) ↦
          inr (i, new_path os kind e remote agent now, room, rw (good, add) wrote)
    ]
  ]

-- A new path never takes the place of the one that carries the session: on a valid table with a
-- choice, `path_table_add` leaves the choice and its path as they are.
pub add-keeps_choice :
    (os : Os) (t : Table) (kind : PathKind) (remote : Option Sockaddr) (agent : Option ℕ)
    (now s : ℕ)
    → IsValid t
    → t.sel ≡ some s
    → let u = (add os t kind remote agent now).1 in (u.sel ≡ some s) × (slot u s ≡ slot t s)
add-keeps_choice os t kind remote agent now s v sel = elim (add-effect os t kind now remote agent) [
  | inl same ↦ (ap (λ u. u.sel) same ∙ sel, ap (λ u. slot u s) same)
  | inr (i, q, room, wrote) ↦ (
    ap (λ u. u.sel) wrote ∙ sel,
    ap (λ u. slot u s) wrote
        ∙ get_or-set_ne t.p i s q zero_path (evict-not_sel t now i s v room sel),
  )
]

-- Some slot that does not carry the session holds a dead path.
dead_from-found :
    (sel : Option ℕ) (now k : ℕ) (ps : List NetPath)
    → dead_from sel now k ps ≡ true
    → (j : ℕ) × (m : ℕ) × (p : NetPath) × (m ≡ k + j)
      × (get_elem? ps j ≡ some p)
      × (not (is_sel sel m) ≡ true)
      × (is_dead (warmth_of p now) ≡ true)
unfolding dead_from
dead_from-found sel now k [] e = cc
dead_from-found sel now k (p ∷ ps) e =
    elim (Bool-cases (not (is_sel sel k) && is_dead (warmth_of p now))) [
      | inl hit ↦ (0, k, p, omega arith, refl, ground arith, ground arith)
      | inr miss ↦
          let (j, m, q, at_m, at, ok, gone) =
            dead_from-found sel now (suc k) ps (rw (miss, dead_from) at e) in
          (suc j, m, q, omega (arith, at_m), at, ok, gone)
    ]

rank-dead : (w : Warmth) → is_dead w ≡ true → warmth_rank w ≡ 3
rank-dead w h = ground arith

dead_of_rank : (w : Warmth) → 3 ≤ warmth_rank w → w ≡ dead
dead_of_rank w h = ground arith

-- With a dead path to spare, the slot given up is free or holds a dead path.
evict-dead :
    (t : Table) (now i : ℕ)
    → spare t now ≡ true
    → evict t now ≡ some i
    → ((slot t i).used ≡ false) ⊎ (warmth_of (slot t i) now ≡ dead)
unfolding spare worst_slot
evict-dead t now i room e = elim (evict-cases t now i e) [
  | inl unused ↦ inl unused
  | inr (full, worst) ↦
      let (j, m, q, at_m, at_j, ok_j, gone) =
        dead_from-found t.sel now 0 t.p (rw (full, spare) at room) in
      let (p, found) = index_of-some _ i worst in
      let (at, ok) = pick-found (λ k q. not (is_sel t.sel k)) (worse now) t.p i p found in
      let no_worse : worse now q p ≡ false =
        pick-best (λ k q. not (is_sel t.sel k)) (worse now) (worse-IsPreference now) t.p 0 none i p
          found j m q at_m at_j ok_j in
      inr (
        ap (λ r. warmth_of r now) (slot-At t i p at)
        ∙ dead_of_rank _ (ground (arith, rank-dead (warmth_of q now))))
]

add-displaces_dead :
    (os : Os) (t : Table) (kind : PathKind) (remote : Option Sockaddr) (agent : Option ℕ)
    (now j : ℕ)
    → spare t now ≡ true
    → (slot (add os t kind remote agent now).1 j ≡ slot t j)
      ⊎ (((slot t j).used ≡ false) ⊎ (warmth_of (slot t j) now ≡ dead))
add-displaces_dead os t kind remote agent now j room =
    elim (add-effect os t kind now remote agent) [
      | inl same ↦ inl (ap (λ u. slot u j) same)
      | inr (i, q, given, wrote) ↦ elim (ℕ_discrete i j) [
        | no other ↦ inl (ap (λ u. slot u j) wrote ∙ get_or-set_ne t.p i j q zero_path other)
        | yes here ↦ inr (
            subst (λ k. ((slot t k).used ≡ false) ⊎ (warmth_of (slot t k) now ≡ dead)) here
              (evict-dead t now i room given))
      ]
    ]

-- An advertised endpoint displaces nothing that may still answer: every slot of the table after
-- `path_table_offer` holds the path it held, or held no path, or a dead one.
pub offer-displaces_dead :
    (os : Os) (t : Table) (kind : PathKind) (remote : Option Sockaddr) (now j : ℕ)
    → (slot (offer os t kind remote now).1 j ≡ slot t j)
      ⊎ (((slot t j).used ≡ false) ⊎ (warmth_of (slot t j) now ≡ dead))
unfolding offer
offer-displaces_dead os t kind none now j = inl refl
offer-displaces_dead os t kind (some sa) now j = elim (Option-cases (from_sockaddr sa 28)) [
  | inl bad ↦ inl (rw (bad, offer))
  | inr (e, good) ↦ elim (Option-cases (find_ep t e)) [
    | inr (i, found) ↦ inl (rw (good, found, offer))
    | inl missing ↦ elim (Bool-cases (spare t now)) [
      | inr full ↦ inl (rw (good, missing, full, offer))
      | inl room ↦
          rw (good, missing, room, offer) (add-displaces_dead os t kind (some sa) none now j room)
    ]
  ]
]
