-- ===== src/Paths/Invariant.antt =====
-- The table of src/path.c keeps its size, and its choice always stands on a path in use, whatever
-- is done to it.
use comrade.Prelude.{
  ℕ, zero, suc, ◌+◌, ◌≡◌, refl, ap, ◌∙◌, Bool, true, false, ◌&&◌, Option, none, some, List, [], ◌∷◌,
  arith, get_or, set, map, length, length-set, length-map, Option-cases, Bool-cases, inl, inr,
  subst, if◌then◌else◌,
}
use mathlib.Core.Option.{some-injective}
use comrade.Paths.Ep.{Os, Ep, Sockaddr, from_sockaddr}
use comrade.Paths.Types.{NetPath, PathKind, zero_path, path_table_max}
use comrade.Paths.Table.{Table, init, is_sel, evict, find_ep}
use comrade.Paths.Admit.{add, add_ep, offer, new_path, known, remote_ep, spare}
use comrade.Paths.Reclaim.{
  clear, drop_from, drop_where, drop_agent, drop_kind, reset_stats, reset_path,
}
use comrade.Paths.Rank.Select.{choose-Carries, p-choose}
use comrade.Paths.Rank.{select, expire_all}

-- The choice stands on a path in use.
abbrev pub IsChosen : List NetPath → Option ℕ → Type 0
IsChosen ps none = Unit {0}
IsChosen ps (some i) = (get_or ps i zero_path).used ≡ true

pub record IsValid (t : Table) : Type 0 where
  pub wide : length t.p ≡ path_table_max
  pub chosen : IsChosen t.p t.sel

pub init-IsValid : IsValid init
unfolding init
init-IsValid = record { wide = refl; chosen = tt }

IsChosen-intro :
    (ps : List NetPath) (sel : Option ℕ)
    → ((i : ℕ) → sel ≡ some i → (get_or ps i zero_path).used ≡ true)
    → IsChosen ps sel
IsChosen-intro ps none h = tt
IsChosen-intro ps (some i) h = h i refl

pub chosen-at :
    (ps : List NetPath) (sel : Option ℕ) (i : ℕ)
    → sel ≡ some i
    → IsChosen ps sel
    → (get_or ps i zero_path).used ≡ true
chosen-at ps none i e h = cc
chosen-at ps (some s) i e h =
    subst (λ k. (get_or ps k zero_path).used ≡ true) (some-injective _ _ e) h

used-set :
    (ps : List NetPath) (i s : ℕ) (v : NetPath)
    → v.used ≡ true
    → (get_or ps s zero_path).used ≡ true
    → (get_or (set ps i v) s zero_path).used ≡ true
used-set [] i s v u h = h
used-set (p ∷ ps) zero zero v u h = u
used-set (p ∷ ps) zero (suc s) v u h = h
used-set (p ∷ ps) (suc i) zero v u h = h
used-set (p ∷ ps) (suc i) (suc s) v u h = used-set ps i s v u h

IsChosen-set :
    (ps : List NetPath) (i : ℕ) (v : NetPath) (sel : Option ℕ)
    → v.used ≡ true
    → IsChosen ps sel
    → IsChosen (set ps i v) sel
IsChosen-set ps i v none u h = tt
IsChosen-set ps i v (some s) u h = used-set ps i s v u h

used-map :
    (f : NetPath → NetPath) (keeps : (p : NetPath) → (f p).used ≡ p.used) (ps : List NetPath)
    (s : ℕ)
    → (get_or (map f ps) s zero_path).used ≡ (get_or ps s zero_path).used
used-map f keeps [] s = refl
used-map f keeps (p ∷ ps) zero = keeps p
used-map f keeps (p ∷ ps) (suc s) = used-map f keeps ps s

IsChosen-map :
    (f : NetPath → NetPath) (keeps : (p : NetPath) → (f p).used ≡ p.used) (ps : List NetPath)
    (sel : Option ℕ)
    → IsChosen ps sel
    → IsChosen (map f ps) sel
IsChosen-map f keeps ps none h = tt
IsChosen-map f keeps ps (some s) h = used-map f keeps ps s ∙ h

head_kept :
    (hit : Bool) (p : NetPath) (sel : Option ℕ) (s i : ℕ)
    → sel ≡ some s
    → s ≡ i
    → (if hit && is_sel sel i then none else sel) ≡ some s
    → (if hit then zero_path else p) ≡ p
head_kept false p sel s i was at h = refl
head_kept true p none s i was at h = cc
head_kept true p (some k) s i was at h = absurd (ground arith)

module _ (test : NetPath → Bool) where
  length-drop_from :
      (i : ℕ) (ps : List NetPath) (sel : Option ℕ) → length (drop_from test i ps sel).0 ≡ length ps
  unfolding drop_from
  length-drop_from i [] sel = refl
  length-drop_from i (p ∷ ps) sel = ap suc (length-drop_from (suc i) ps _)

  -- The choice that is left after the pass stood there before, and its slot was not dropped.
  drop_from-sel :
      (i : ℕ) (ps : List NetPath) (sel : Option ℕ) (s : ℕ)
      → (drop_from test i ps sel).1 ≡ some s
      → sel ≡ some s
  unfolding drop_from
  drop_from-sel i [] sel s e = e
  drop_from-sel i (p ∷ ps) sel s e = ground (arith, drop_from-sel (suc i) ps _ s e)

  drop_from-kept :
      (i : ℕ) (ps : List NetPath) (sel : Option ℕ) (s k : ℕ)
      → (drop_from test i ps sel).1 ≡ some s
      → s ≡ i + k
      → get_or (drop_from test i ps sel).0 k zero_path ≡ get_or ps k zero_path
  unfolding drop_from
  drop_from-kept i [] sel s k e at = refl
  drop_from-kept i (p ∷ ps) sel s zero e at =
      head_kept (test p) p sel s i (drop_from-sel i (p ∷ ps) sel s e) (omega arith)
        (drop_from-sel (suc i) ps _ s e)
  drop_from-kept i (p ∷ ps) sel s (suc k) e at = drop_from-kept (suc i) ps _ s k e (omega arith)

drop_where-IsValid : (test : NetPath → Bool) (t : Table) → IsValid t → IsValid (drop_where test t)
drop_where-IsValid test t v = record {
  wide = length-drop_from test 0 t.p t.sel ∙ v.wide;
  chosen = IsChosen-intro _ _ λ s e.
      ap (λ p. p.used) (drop_from-kept test 0 t.p t.sel s s e (omega arith))
      ∙ chosen-at t.p t.sel s (drop_from-sel test 0 t.p t.sel s e) v.chosen;
}

module _ (os : Os) where
  add_ep-IsValid :
      (t : Table) (kind : PathKind) (e : Ep) (remote : Option Sockaddr) (agent : Option ℕ) (now : ℕ)
      → IsValid t
      → IsValid (add_ep os t kind e remote agent now).1
  unfolding add_ep new_path
  add_ep-IsValid t kind e remote agent now v = elim (Option-cases (known t kind e agent)) [
    | inr (i, found) ↦ rw (found, add_ep) v
    | inl missing ↦ elim (Option-cases (evict t now)) [
      | inl full ↦ rw (missing, full, add_ep) v
      | inr (i, room) ↦
          rw (missing, room, add_ep)
            (record {
              wide = length-set t.p i _ ∙ v.wide;
              chosen = IsChosen-set t.p i _ t.sel refl v.chosen;
            })
    ]
  ]

  add-IsValid :
      (t : Table) (kind : PathKind) (remote : Option Sockaddr) (agent : Option ℕ) (now : ℕ)
      → IsValid t
      → IsValid (add os t kind remote agent now).1
  unfolding add
  add-IsValid t kind remote agent now v = elim (Option-cases (remote_ep remote)) [
    | inl bad ↦ rw (bad, add) v
    | inr (e, good) ↦ rw (good, add) (add_ep-IsValid t kind e remote agent now v)
  ]

  offer-IsValid :
      (t : Table) (kind : PathKind) (remote : Option Sockaddr) (now : ℕ)
      → IsValid t
      → IsValid (offer os t kind remote now).1
  unfolding offer
  offer-IsValid t kind none now v = v
  offer-IsValid t kind (some sa) now v = elim (Option-cases (from_sockaddr sa 28)) [
    | inl bad ↦ rw (bad, offer) v
    | inr (e, good) ↦ elim (Option-cases (find_ep t e)) [
      | inr (i, found) ↦ rw (good, found, offer) v
      | inl missing ↦ elim (Bool-cases (spare t now)) [
        | inl room ↦ rw (good, missing, room, offer) (add-IsValid t kind (some sa) none now v)
        | inr full ↦ rw (good, missing, full, offer) v
      ]
    ]
  ]

used-reset_path : (now : ℕ) (p : NetPath) → (reset_path now p).used ≡ p.used
unfolding reset_path
used-reset_path now p = ground arith

reset_stats-IsValid : (t : Table) (now : ℕ) → IsValid t → IsValid (reset_stats t now)
unfolding reset_stats
reset_stats-IsValid t now v = record {
  wide = length-map t.p _ ∙ v.wide;
  chosen = IsChosen-map (reset_path now) (λ p. used-reset_path now p) t.p t.sel v.chosen;
}

select-IsValid : (t : Table) (now : ℕ) → IsValid t → IsValid (select t now).1
unfolding select expire_all
select-IsValid t now v = record {
  wide = ap length (p-choose u now) ∙ length-map t.p _ ∙ v.wide;
  chosen = IsChosen-intro _ _ λ i e.
      ap (λ ps. (get_or ps i zero_path).used) (p-choose u now) ∙ (choose-Carries u now i e).used;
}
  where
    u : Table
    u = expire_all t now

-- What callers do to a table: the operations of src/path.c that change which slots are in use or
-- which one is chosen.
pub data Op : Type 0 where
  adds : PathKind → Option Sockaddr → Option ℕ → ℕ → Op
  offers : PathKind → Option Sockaddr → ℕ → Op
  drops_agent : Option ℕ → Op
  drops_kind : PathKind → Op
  resets selects : ℕ → Op
  clears : Op

unfoldable pub apply : Os → Table → Op → Table
apply os t (adds kind remote agent now) = (add os t kind remote agent now).1
apply os t (offers kind remote now) = (offer os t kind remote now).1
apply os t (drops_agent a) = drop_agent t a
apply os t (drops_kind kind) = drop_kind t kind
apply os t (resets now) = reset_stats t now
apply os t (selects now) = (select t now).1
apply os t clears = clear t

unfoldable pub apply_all : Os → Table → List Op → Table
apply_all os t [] = t
apply_all os t (op ∷ ops) = apply_all os (apply os t op) ops

apply-IsValid : (os : Os) (t : Table) (op : Op) → IsValid t → IsValid (apply os t op)
unfolding apply drop_agent drop_kind clear
apply-IsValid os t (adds kind remote agent now) v = add-IsValid os t kind remote agent now v
apply-IsValid os t (offers kind remote now) v = offer-IsValid os t kind remote now v
apply-IsValid os t (drops_agent none) v = v
apply-IsValid os t (drops_agent (some a)) v = drop_where-IsValid _ t v
apply-IsValid os t (drops_kind kind) v = drop_where-IsValid _ t v
apply-IsValid os t (resets now) v = reset_stats-IsValid t now v
apply-IsValid os t (selects now) v = select-IsValid t now v
apply-IsValid os t clears v = init-IsValid

-- Whatever sequence of additions, offers, drops of an agent or a kind, resets, selections and
-- clears runs on a valid table (eight slots, and a choice that is none or stands on a path in
-- use), the table stays valid.
pub apply_all-IsValid :
    (os : Os) (ops : List Op) (t : Table) → IsValid t → IsValid (apply_all os t ops)
unfolding apply_all
apply_all-IsValid os [] t v = v
apply_all-IsValid os (op ∷ ops) t v = apply_all-IsValid os ops _ (apply-IsValid os t op v)
