-- ===== src/ProbePlane/Once.antt =====
-- A datagram of the stream is delivered at most once (src/probeplane.c over src/replay.c).
use comrade.Prelude.{
  ℕ, ◌^◌, ◌-◌, ◌≡◌, refl, sym, ap, ◌∙◌, ◌⊎◌, subst, true, false, Option, none, some, List, [], ◌∷◌,
  length, take, drop, arith, inl, inr,
}
use comrade.Prelude.BigEndian.{be_value}
use comrade.Replay.Defs.{ReplayWin, zeroed, replay_ok}
use comrade.Replay.Window.{after, replay_once}
use comrade.Paths.Ep.{Os}
use comrade.Paths.Observe.{Probe}
use comrade.Paths.Probe.{parse}
use comrade.Seal.{Aead}
use comrade.DataAuth.{open_body}
use comrade.ProbePlane.{
  keys_take, Plane, Call, call_reset, call_bind, call_tx_ready, call_seal, call_open, call_wrap,
  call_unwrap, call_fresh, init, reset, bind, tx_ready, saw_pair, fresh, admit, admit_or, paired_or,
  plane_wrap, unwrap_base, unwrap, plane_seal, open_base, plane_open, step, run,
}

-- The number that a datagram carries, whatever key it is tagged under.
abbrev pub number : List ℕ → ℕ
number wire = be_value (2 ^ 64) 0 (take 8 (drop (length wire - 16 - 8) wire))

pub open_body-number :
    (os : Os) (key wire : List ℕ) (opened : ℕ × ℕ)
    → open_body os key wire ≡ some opened
    → opened.1 ≡ number wire
unfolding open_body
open_body-number os key wire opened e = ground arith

pub saw_pair-data_rx : (p : Plane) → (saw_pair p).data_rx ≡ p.data_rx
unfolding saw_pair
saw_pair-data_rx p = ground arith

-- What one call does to the window of the datagrams: nothing, or one question.
abbrev pub Asks : (seq : ℕ) → ReplayWin → ReplayWin → Type 0
Asks seq w w' = (w' ≡ w) ⊎ (w' ≡ (replay_ok w seq).1)

pub admit-data_rx :
    (p : Plane) (opened : ℕ × ℕ) → (admit p opened).1.data_rx ≡ (replay_ok p.data_rx opened.1).1
unfolding admit
admit-data_rx p opened = refl

-- What opened carries the number `seq`.
abbrev Carries : (seq : ℕ) → Option (ℕ × ℕ) → Type 0
Carries seq tried = (opened : ℕ × ℕ) → tried ≡ some opened → opened.1 ≡ seq

admit_or-Asks :
    (seq : ℕ) (p : Plane) (tried : Option (ℕ × ℕ)) (other : Option ℕ × Plane)
    → Carries seq tried
    → Asks seq p.data_rx other.1.data_rx
    → Asks seq p.data_rx (admit_or p tried other).1.data_rx
unfolding admit_or
admit_or-Asks seq p none other is h = h
admit_or-Asks seq p (some opened) other is h =
    inr (admit-data_rx p opened ∙ ap (λ n. (replay_ok p.data_rx n).1) (is opened refl))

module _ (os : Os) (p : Plane) (wire : List ℕ) where
  unwrap_base-Asks : Asks (number wire) p.data_rx (unwrap_base os (keys_take p) p wire).1.data_rx
  unfolding unwrap_base
  unwrap_base-Asks = ground (
    arith,
    admit_or-Asks (number wire) p (open_body os p.base wire) (none, p)
        (open_body-number os p.base wire) (inl refl),
  )

  unwrap-Asks : Asks (number wire) p.data_rx (unwrap os p wire).1.data_rx
  unfolding unwrap
  unwrap-Asks = ground (
    arith,
    unwrap_base-Asks,
    admit_or-Asks (number wire) (saw_pair p) (open_body os p.pair wire)
        (unwrap_base os (keys_take p) p wire) (open_body-number os p.pair wire)
        (subst (λ w. Asks (number wire) w (unwrap_base os (keys_take p) p wire).1.data_rx)
          (sym (saw_pair-data_rx p)) unwrap_base-Asks),
    saw_pair-data_rx p,
  )

paired_or-data_rx :
    (p : Plane) (tried : Option Probe) (other : Option Probe × Plane)
    → other.1.data_rx ≡ p.data_rx
    → (paired_or p tried other).1.data_rx ≡ p.data_rx
unfolding paired_or
paired_or-data_rx p none other h = h
paired_or-data_rx p (some pr) other h = saw_pair-data_rx p

open-data_rx :
    (aead : Aead) (p : Plane) (wire : List ℕ) → (plane_open aead p wire).1.data_rx ≡ p.data_rx
unfolding plane_open open_base
open-data_rx aead p wire = ground (
  arith,
  paired_or-data_rx p (parse aead p.magic p.pair wire) (open_base aead (keys_take p) p wire) refl,
)

module _ (os : Os) (aead : Aead) where
  step-Asks : (p : Plane) (c : Call) → (seq : ℕ) × Asks seq p.data_rx (step os aead p c).data_rx
  unfolding step reset bind tx_ready plane_seal plane_wrap fresh
  step-Asks p call_reset = (0, inl refl)
  step-Asks p (call_bind half_out half_in) = (0, inl refl)
  step-Asks p call_tx_ready = (0, ground arith)
  step-Asks p (call_seal pr ufrag out_len random) = (0, inl refl)
  step-Asks p (call_open wire) = (0, inl (open-data_rx aead p wire))
  step-Asks p (call_wrap out_max body) = (0, inl refl)
  step-Asks p (call_unwrap wire) = (number wire, unwrap-Asks os p wire)
  step-Asks p (call_fresh pr) = (0, inl refl)

  -- Any calls put some questions to the window, in order.
  run-after :
      (cs : List Call) (p : Plane)
      → (seqs : List ℕ) × ((run os aead p cs).data_rx ≡ after p.data_rx seqs)
  unfolding run after
  run-after [] p = ([], refl)
  run-after (c ∷ cs) p =
      let (seqs, e) = run-after cs (step os aead p c) in
      let (seq, asks) = step-Asks p c in
      elim asks [
        | inl same ↦ (seqs, e ∙ ap (λ w. after w seqs) same)
        | inr asked ↦ (seq ∷ seqs, e ∙ ap (λ w. after w seqs) asked)
      ]

-- A window that says yes to a number, and the plane that it leaves.
abbrev Taken : ReplayWin → (seq : ℕ) → Plane → Type 0
Taken w seq p' = ((replay_ok w seq).0 ≡ true) × (p'.data_rx ≡ (replay_ok w seq).1)

admit_or-Taken :
    (w : ReplayWin) (seq : ℕ) (p : Plane) (tried : Option (ℕ × ℕ)) (other : Option ℕ × Plane)
    (n : ℕ)
    → p.data_rx ≡ w
    → Carries seq tried
    → (other.0 ≡ some n → Taken w seq other.1)
    → (admit_or p tried other).0 ≡ some n
    → Taken w seq (admit_or p tried other).1
unfolding admit_or admit
admit_or-Taken w seq p none other n at_w is h e = h e
admit_or-Taken w seq p (some opened) other n at_w is h e = rw at_w (ground (arith, is opened refl))

admit_or-refused :
    (w : ReplayWin) (seq : ℕ) (p : Plane) (tried : Option (ℕ × ℕ)) (other : Option ℕ × Plane)
    → p.data_rx ≡ w
    → Carries seq tried
    → (replay_ok w seq).0 ≡ false
    → other.0 ≡ none
    → (admit_or p tried other).0 ≡ none
unfolding admit_or admit
admit_or-refused w seq p none other at_w is taken e = e
admit_or-refused w seq p (some opened) other at_w is taken e = ground (arith, is opened refl)

module _ (os : Os) (p : Plane) (wire : List ℕ) where
  unwrap_base-Taken :
      (n : ℕ)
      → (unwrap_base os (keys_take p) p wire).0 ≡ some n
      → Taken p.data_rx (number wire) (unwrap_base os (keys_take p) p wire).1
  unfolding unwrap_base
  unwrap_base-Taken n e = ground (
    arith,
    admit_or-Taken p.data_rx (number wire) p (open_body os p.base wire) (none, p) n refl
        (open_body-number os p.base wire) (λ no. cc),
  )

  -- What is delivered was new to the window, and stands in it.
  unwrap-Taken :
      (n : ℕ) → (unwrap os p wire).0 ≡ some n → Taken p.data_rx (number wire) (unwrap os p wire).1
  unfolding unwrap
  unwrap-Taken n e = ground (
    arith,
    unwrap_base-Taken n,
    admit_or-Taken p.data_rx (number wire) (saw_pair p) (open_body os p.pair wire)
        (unwrap_base os (keys_take p) p wire) n (saw_pair-data_rx p)
        (open_body-number os p.pair wire) (unwrap_base-Taken n),
  )

  unwrap_base-refused :
      (replay_ok p.data_rx (number wire)).0 ≡ false → (unwrap_base os (keys_take p) p wire).0 ≡ none
  unfolding unwrap_base
  unwrap_base-refused taken = ground (
    arith,
    admit_or-refused p.data_rx (number wire) p (open_body os p.base wire) (none, p) refl
        (open_body-number os p.base wire) taken refl,
  )

  unwrap-refused : (replay_ok p.data_rx (number wire)).0 ≡ false → (unwrap os p wire).0 ≡ none
  unfolding unwrap
  unwrap-refused taken = ground (
    arith,
    unwrap_base-refused taken,
    admit_or-refused p.data_rx (number wire) (saw_pair p) (open_body os p.pair wire)
        (unwrap_base os (keys_take p) p wire) (saw_pair-data_rx p) (open_body-number os p.pair wire)
        taken (unwrap_base-refused taken),
  )

module _ (os : Os) (aead : Aead) where
  -- From a plane as `probeplane_init` leaves it, through any calls in any order, each run through as a
  -- whole (resets and other keys among them): a datagram that `probeplane_unwrap` delivers is delivered by no later call.
  pub unwrap_once :
      (magic : ℕ) (base : List ℕ) (seq0 : ℕ) (before between : List Call) (wire : List ℕ) (n : ℕ)
      → (unwrap os (run os aead (init magic base seq0) before) wire).0 ≡ some n
      → (unwrap os
          (run os aead (unwrap os (run os aead (init magic base seq0) before) wire).1 between)
          wire).0
        ≡ none
  unfolding init
  unwrap_once magic base seq0 before between wire n e =
      let start = init magic base seq0 in
      let p = run os aead start before in
      let p' = (unwrap os p wire).1 in
      let (earlier, then_p) = run-after os aead before start in
      let (later, then_q) = run-after os aead between p' in
      let (new, kept) = unwrap-Taken os p wire n e in
      let first : (replay_ok (after zeroed earlier) (number wire)).0 ≡ true = rw then_p at new in
      let refused = replay_once earlier later (number wire) first in
      unwrap-refused os (run os aead p' between) wire (
        ap (λ w. (replay_ok w (number wire)).0)
          (then_q ∙ ap (λ w. after w later) (kept ∙ ap (λ w. (replay_ok w (number wire)).1) then_p))
        ∙ refused)
