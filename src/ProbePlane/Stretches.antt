-- ===== src/ProbePlane/Stretches.antt =====
-- The calls of several threads on one plane, taken apart into the stretches that hold its lock
-- (src/probeplane.c): `probeplane_open`, `probeplane_wrap` and `probeplane_unwrap` let go of it
-- between reading the keys and what they do with them.
use comrade.Prelude.{
  ℕ, ◌+◌, ◌%◌, ◌^◌, ◌≡◌, inl, inr, refl, sym, ap, ◌∙◌, subst, true, false, Option, none, some, List,
  [], ◌∷◌, arith, if◌then◌else◌, Bool-cases,
}
use comrade.Replay.Defs.{zeroed, replay_ok}
use comrade.Replay.Window.{after, replay_once}
use comrade.Paths.Ep.{Os}
use comrade.DataAuth.{open_body}
use comrade.ProbePlane.{
  Plane, KeysNow, init, reset, bind, tx_ready, saw_pair, admit, admit_or, unwrap_base, unwrap_with,
}
use comrade.ProbePlane.Once.{Asks, open_body-number, saw_pair-data_rx, admit-data_rx}

-- A stretch that changes the plane: those of reset, bind and tx_ready, the counter of probeplane_seal,
-- `saw_pair`, the counter of probeplane_wrap, and the windows of probeplane_unwrap and
-- probeplane_fresh.
pub data Stretch : Type 0 where
  st_reset st_tx_ready st_seal st_saw_pair st_wrap : Stretch
  st_bind : (half_out half_in : List ℕ) → Stretch
  st_ask st_fresh : (seq : ℕ) → Stretch

module _ (os : Os) where
  unfoldable pub touch : Plane → Stretch → Plane
  touch p st_reset = reset p
  touch p st_tx_ready = (tx_ready p).1
  touch p st_seal = record p { seq = (p.seq + 1) % 2 ^ 64 }
  touch p st_saw_pair = saw_pair p
  touch p st_wrap = record p { data_seq = (p.data_seq + 1) % 2 ^ 64 }
  touch p (st_bind half_out half_in) = bind os p half_out half_in
  touch p (st_ask seq) = record p { data_rx = (replay_ok p.data_rx seq).1 }
  touch p (st_fresh seq) = record p { rx = (replay_ok p.rx seq).1 }

  unfoldable pub touched : Plane → List Stretch → Plane
  touched p [] = p
  touched p (s ∷ ss) = touched (touch p s) ss

  -- The stretches of `probeplane_unwrap` after `keys_take`, by what opens under the keys.
  asked : (tried : Option (ℕ × ℕ)) → List Stretch
  asked none = []
  asked (some opened) = st_ask opened.1 ∷ []

  by_base : KeysNow → (tried : Option (ℕ × ℕ)) → List Stretch
  by_base k tried = if k.base_ok then asked tried else []

  by_pair : (tried : Option (ℕ × ℕ)) → List Stretch → List Stretch
  by_pair none other = other
  by_pair (some opened) other = st_saw_pair ∷ st_ask opened.1 ∷ []

  unwrap_stretches : KeysNow → (pair base : Option (ℕ × ℕ)) → List Stretch
  unwrap_stretches k pair base = if k.have_rx then by_pair pair (by_base k base) else by_base k base

  asked-admit :
      (p : Plane) (tried : Option (ℕ × ℕ))
      → (admit_or p tried (none, p)).1 ≡ touched p (asked tried)
  unfolding admit_or admit asked touched touch
  asked-admit p none = refl
  asked-admit p (some opened) = refl

  base-stretches :
      (k : KeysNow) (p : Plane) (wire : List ℕ)
      → (unwrap_base os k p wire).1 ≡ touched p (by_base k (open_body os p.base wire))
  unfolding unwrap_base by_base touched
  base-stretches k p wire = elim (Bool-cases k.base_ok) [
    | inl good ↦ simp good (asked-admit p (open_body os p.base wire))
    | inr shut ↦ simp shut refl
  ]

  pair-stretches :
      (p : Plane) (tried : Option (ℕ × ℕ)) (other : Option ℕ × Plane) (rest : List Stretch)
      → other.1 ≡ touched p rest
      → (admit_or (saw_pair p) tried other).1 ≡ touched p (by_pair tried rest)
  unfolding admit_or admit by_pair touched touch
  pair-stretches p none other rest e = e
  pair-stretches p (some opened) other rest e = refl

  -- A call of `probeplane_unwrap` that no other thread's stretch falls into leaves the plane that its
  -- stretches leave one after the other.
  unwrap_with-touched :
      (k : KeysNow) (p : Plane) (wire : List ℕ)
      → (unwrap_with os k p wire).1
        ≡ touched p (unwrap_stretches k (open_body os k.rx wire) (open_body os p.base wire))
  unfolding unwrap_stretches
  unwrap_with-touched k p wire =
      let base = base-stretches k p wire in
      elim (Bool-cases k.have_rx) [
        | inl ready ↦ simp ready (
            pair-stretches p (open_body os k.rx wire) (unwrap_base os k p wire)
              (by_base k (open_body os p.base wire)) base)
        | inr without ↦ simp without base
      ]

  touch-Asks : (p : Plane) (s : Stretch) → (seq : ℕ) × Asks seq p.data_rx (touch p s).data_rx
  unfolding touch reset tx_ready bind
  touch-Asks p st_reset = (0, inl refl)
  touch-Asks p st_tx_ready = (0, ground arith)
  touch-Asks p st_seal = (0, inl refl)
  touch-Asks p st_saw_pair = (0, inl (saw_pair-data_rx p))
  touch-Asks p st_wrap = (0, inl refl)
  touch-Asks p (st_bind half_out half_in) = (0, inl refl)
  touch-Asks p (st_ask seq) = (seq, inr refl)
  touch-Asks p (st_fresh seq) = (0, inl refl)

  touched-after :
      (ss : List Stretch) (p : Plane)
      → (seqs : List ℕ) × ((touched p ss).data_rx ≡ after p.data_rx seqs)
  unfolding touched after
  touched-after [] p = ([], refl)
  touched-after (s ∷ ss) p =
      let (seqs, e) = touched-after ss (touch p s) in
      let (seq, asks) = touch-Asks p s in
      elim asks [
        | inl same ↦ (seqs, e ∙ ap (λ w. after w seqs) same)
        | inr asked ↦ (seq ∷ seqs, e ∙ ap (λ w. after w seqs) asked)
      ]

  admit-new :
      (p : Plane) (opened : ℕ × ℕ) (n : ℕ)
      → (admit p opened).0 ≡ some n
      → (replay_ok p.data_rx opened.1).0 ≡ true
  unfolding admit
  admit-new p opened n e = ground arith

  admit-refused :
      (p : Plane) (opened : ℕ × ℕ)
      → (replay_ok p.data_rx opened.1).0 ≡ false
      → (admit p opened).0 ≡ none
  unfolding admit
  admit-refused p opened e = ground arith

  -- From a plane as `probeplane_init` leaves it, with the stretches of any threads' calls in any order:
  -- once a call of `probeplane_unwrap` has had its datagram admitted by the window, no call that
  -- asks the window later has the same datagram admitted, whatever keys the two calls had read
  -- before and opened it under.
  pub admit_once :
      (magic : ℕ) (base : List ℕ) (seq0 : ℕ) (before between : List Stretch)
      (wire key key' : List ℕ) (opened opened' : ℕ × ℕ) (n : ℕ)
      → open_body os key wire ≡ some opened
      → open_body os key' wire ≡ some opened'
      → (admit (touched (init magic base seq0) before) opened).0 ≡ some n
      → (admit (touched (admit (touched (init magic base seq0) before) opened).1 between) opened').0
        ≡ none
  unfolding init
  admit_once magic base seq0 before between wire key key' opened opened' n is is' e =
      let start = init magic base seq0 in
      let p = touched start before in
      let p' = (admit p opened).1 in
      let q = touched p' between in
      let (earlier, then_p) = touched-after before start in
      let (later, then_q) = touched-after between p' in
      let same : opened'.1 ≡ opened.1 =
        open_body-number os key' wire opened' is' ∙ sym (open_body-number os key wire opened is) in
      let first : (replay_ok (after zeroed earlier) opened.1).0 ≡ true =
        subst (λ w. (replay_ok w opened.1).0 ≡ true) then_p (admit-new p opened n e) in
      let kept : p'.data_rx ≡ (replay_ok (after zeroed earlier) opened.1).1 =
        admit-data_rx p opened ∙ ap (λ w. (replay_ok w opened.1).1) then_p in
      admit-refused q opened' (
        ap (λ s. (replay_ok q.data_rx s).0) same
        ∙ ap (λ w. (replay_ok w opened.1).0) (then_q ∙ ap (λ w. after w later) kept)
        ∙ replay_once earlier later opened.1 first)
