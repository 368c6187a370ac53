-- ===== src/PathPlane/Arrive/Sources.antt =====
-- What adopts or answers a source qualifies no path (src/pathplane.c over src/path.c).
use comrade.Prelude.{
  ℕ, zero, suc, ◌≡◌, sym, ◌∙◌, true, Option, none, some, List, [], ◌∷◌, if◌then◌else◌, arith, set,
  get_or, Bool-cases, Option-cases, inl, inr, if-keeps,
}
use comrade.Paths.Ep.{Ep, Os, Sockaddr, from_sockaddr}
use comrade.Paths.Types.{NetPath, PathKind, zero_path}
use comrade.Paths.Cost.{peer_view}
use comrade.Paths.Table.{Table, slot, find_ep, evict}
use comrade.Paths.Admit.{add, add_ep, offer, new_path, known, remote_ep, spare}
use comrade.Paths.Observe.{Probe, saw_inbound, apply_tail, set_self_ep, id_refresh}
use comrade.PathPlane.{PathPlane, Sinks, kind_of}
use comrade.PathPlane.Arrive.{is_ice, note_probe, adopt, answer}

-- Every path that is qualified afterwards was so before.
unfoldable pub NoMore : Table → Table → Type 0
NoMore t t' = (i : ℕ) → (slot t' i).qualified ≡ true → (slot t i).qualified ≡ true

set-qualified :
    (ps : List NetPath) (i j : ℕ) (v : NetPath)
    → (v.qualified ≡ true → (get_or ps i zero_path).qualified ≡ true)
    → (get_or (set ps i v) j zero_path).qualified ≡ true
    → (get_or ps j zero_path).qualified ≡ true
set-qualified [] i j v h e = e
set-qualified (p ∷ ps) zero zero v h e = h e
set-qualified (p ∷ ps) zero (suc j) v h e = e
set-qualified (p ∷ ps) (suc i) zero v h e = e
set-qualified (p ∷ ps) (suc i) (suc j) v h e = set-qualified ps i j v h e

module _ (os : Os) where
  add_ep-NoMore :
      (t : Table) (kind : PathKind) (e : Ep) (remote : Option Sockaddr) (agent : Option ℕ) (now : ℕ)
      → NoMore t (add_ep os t kind e remote agent now).1
  unfolding add_ep new_path NoMore
  add_ep-NoMore t kind e remote agent now = elim (Option-cases (known t kind e agent)) [
    | inr (i, found) ↦ rw (found, add_ep) (λ j h. h)
    | inl missing ↦ elim (Option-cases (evict t now)) [
      | inl full ↦ rw (missing, full, add_ep) (λ j h. h)
      | inr (i, room) ↦
          rw (missing, room, add_ep)
            (λ j. set-qualified t.p i j (new_path os kind e remote agent now) (λ f. cc))
    ]
  ]

  add-NoMore :
      (t : Table) (kind : PathKind) (remote : Option Sockaddr) (agent : Option ℕ) (now : ℕ)
      → NoMore t (add os t kind remote agent now).1
  unfolding add NoMore
  add-NoMore t kind remote agent now = elim (Option-cases (remote_ep remote)) [
    | inl bad ↦ rw (bad, add) (λ j h. h)
    | inr (e, good) ↦ rw (good, add) (add_ep-NoMore t kind e remote agent now)
  ]

  offer-NoMore :
      (t : Table) (kind : PathKind) (remote : Option Sockaddr) (now : ℕ)
      → NoMore t (offer os t kind remote now).1
  unfolding offer NoMore
  offer-NoMore t kind none now = λ j h. h
  offer-NoMore t kind (some sa) now = elim (Option-cases (from_sockaddr sa 28)) [
    | inl bad ↦ rw (bad, offer) (λ j h. h)
    | inr (e, good) ↦ elim (Option-cases (find_ep t e)) [
      | inr (i, found) ↦ rw (good, found, offer) (λ j h. h)
      | inl missing ↦ elim (Bool-cases (spare t now)) [
        | inl room ↦ rw (good, missing, room, offer) (add-NoMore t kind (some sa) none now)
        | inr full ↦ rw (good, missing, full, offer) (λ j h. h)
      ]
    ]
  ]

  note_probe-same :
      (key : List ℕ) (p : NetPath) (pr : Probe) (from : Ep)
      → ((note_probe os key p pr from).qualified ≡ p.qualified)
        × ((note_probe os key p pr from).outstanding ≡ p.outstanding)
        × ((note_probe os key p pr from).nonce ≡ p.nonce)
  unfolding note_probe apply_tail saw_inbound set_self_ep id_refresh peer_view
  note_probe-same key p pr from = ground arith

  pub adopt-NoMore :
      (pl : PathPlane) (k : Sinks) (kind : PathKind) (from : Ep) (src : Option Sockaddr)
      (agent : Option ℕ) (now : ℕ)
      → NoMore pl.t (adopt os pl k kind from src agent now).1
  unfolding adopt NoMore
  adopt-NoMore pl k kind from src agent now =
      if-keeps {A = Option ℕ × Table} (λ r. NoMore pl.t r.1) _
        (λ e. offer-NoMore pl.t (if is_ice kind then kind else kind_of k from) src now) (λ e j h. h)

  pub answer-NoMore :
      (key : List ℕ) (t : Table) (pr : Probe) (from : Ep) (at : Option ℕ)
      → NoMore t (answer os key t pr from at).1
  unfolding answer NoMore
  answer-NoMore key t pr from none = λ j h. h
  answer-NoMore key t pr from (some i) = λ j.
      set-qualified t.p i j (note_probe os key (slot t i) pr from)
        (λ f. sym (note_probe-same key (slot t i) pr from).0 ∙ f)

pub NoMore-trans : (t t' t'' : Table) → NoMore t t' → NoMore t' t'' → NoMore t t''
unfolding NoMore
NoMore-trans t t' t'' g h i q = g i (h i q)
