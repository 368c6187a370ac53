-- ===== src/ProbePlane/Paired.antt =====
-- Once a frame has opened under the pair key, the base key opens no more (src/probeplane.c).
use comrade.Prelude.{
  ℕ, ◌+◌, ◌%◌, ◌^◌, ◌≡◌, refl, sym, ap, ◌∙◌, ◌⊎◌, inl, inr, true, false, Option, none, some, List,
  [], ◌∷◌, length, take, drop, All, arith, Bool-cases,
}
use comrade.Replay.Defs.{replay_ok}
use comrade.Paths.Ep.{Os}
use comrade.Paths.Observe.{Probe}
use comrade.Paths.Probe.{parse}
use comrade.Seal.{Aead}
use comrade.DataAuth.{open_body, tag_of}
use comrade.DataAuth.Laws.{IsDigest, open_body-tagged, open_body-wrap}
use comrade.ProbePlane.{
  keys_take, Plane, Call, call_reset, call_bind, call_tx_ready, call_seal, call_open, call_wrap,
  call_unwrap, call_fresh, probe_fresh, tx_key, tx_ready, saw_pair, fresh, admit, admit_or,
  paired_or, base_allows, plane_wrap, unwrap_base, unwrap, plane_seal, open_base, plane_open, step,
  run,
}

-- The base key is spent, and `key` opens frames.
record Spent (key : List ℕ) (p : Plane) : Type 0 where
  ready : p.pair_ready ≡ true
  shut : p.base_ok ≡ false
  is : p.pair ≡ key

-- A call that agrees no other key.
abbrev pub Keeps : Call → Type 0
Keeps call_reset = ⊥
Keeps (call_bind half_out half_in) = ⊥
Keeps _ = Unit

saw_pair-Spent :
    (key : List ℕ) (p : Plane) → p.pair_ready ≡ true → p.pair ≡ key → Spent key (saw_pair p)
unfolding saw_pair
saw_pair-Spent key p ready is = ground arith

admit-Spent :
    (key : List ℕ) (p : Plane) (opened : ℕ × ℕ) → Spent key p → Spent key (admit p opened).1
unfolding admit
admit-Spent key p opened h = record { ready = h.ready; shut = h.shut; is = h.is }

admit_or-Spent :
    (key : List ℕ) (p : Plane) (tried : Option (ℕ × ℕ)) (other : Option ℕ × Plane)
    → Spent key p
    → Spent key other.1
    → Spent key (admit_or p tried other).1
unfolding admit_or
admit_or-Spent key p none other h k = k
admit_or-Spent key p (some opened) other h k = admit-Spent key p opened h

paired_or-Spent :
    (key : List ℕ) (p : Plane) (tried : Option Probe) (other : Option Probe × Plane)
    → Spent key p
    → Spent key other.1
    → Spent key (paired_or p tried other).1
unfolding paired_or
paired_or-Spent key p none other h k = k
paired_or-Spent key p (some pr) other h k = saw_pair-Spent key p h.ready h.is

module _ (os : Os) (aead : Aead) (key : List ℕ) where
  unwrap_base-shut :
      (p : Plane) (wire : List ℕ)
      → p.base_ok ≡ false
      → unwrap_base os (keys_take p) p wire ≡ (none, p)
  unfolding unwrap_base
  unwrap_base-shut p wire e = ground arith

  unwrap-Spent : (p : Plane) (wire : List ℕ) → Spent key p → Spent key (unwrap os p wire).1
  unfolding unwrap unwrap_base
  unwrap-Spent p wire h =
      simp (h.ready, unwrap_base-shut p wire h.shut)
        (admit_or-Spent key (saw_pair p) (open_body os p.pair wire) (none, p)
          (saw_pair-Spent key p h.ready h.is) h)

  open-Spent : (p : Plane) (wire : List ℕ) → Spent key p → Spent key (plane_open aead p wire).1
  unfolding plane_open open_base base_allows
  open-Spent p wire h = simp h.ready (
      paired_or-Spent key p (parse aead p.magic p.pair wire) (open_base aead (keys_take p) p wire) h
        h)

  step-Spent : (p : Plane) (c : Call) → Keeps c → Spent key p → Spent key (step os aead p c)
  unfolding step tx_ready plane_seal plane_wrap fresh
  step-Spent p call_reset k h = elim k [ ]
  step-Spent p (call_bind half_out half_in) k h = elim k [ ]
  step-Spent p call_tx_ready k h = ground arith
  step-Spent p (call_seal pr ufrag out_len random) k h = record {
    ready = h.ready;
    shut = h.shut;
    is = h.is;
  }
  step-Spent p (call_open wire) k h = open-Spent p wire h
  step-Spent p (call_wrap out_max body) k h = record { ready = h.ready; shut = h.shut; is = h.is }
  step-Spent p (call_unwrap wire) k h = unwrap-Spent p wire h
  step-Spent p (call_fresh pr) k h = record { ready = h.ready; shut = h.shut; is = h.is }

  run-Spent :
      (cs : List Call) (p : Plane) → All Keeps cs → Spent key p → Spent key (run os aead p cs)
  unfolding run
  run-Spent [] p k h = h
  run-Spent (c ∷ cs) p k h = run-Spent cs (step os aead p c) k.1 (step-Spent p c k.0 h)

  admit_or-shut :
      (p q : Plane) (tried : Option (ℕ × ℕ)) (n : ℕ)
      → (admit_or p tried (none, q)).0 ≡ some n
      → (seq : ℕ) × (tried ≡ some (n, seq))
  unfolding admit_or admit
  admit_or-shut p q none n e = absurd cc
  admit_or-shut p q (some opened) n e = (opened.1, ground arith)

  Spent-unwrap :
      (p : Plane) (wire : List ℕ) (n : ℕ)
      → Spent key p
      → (unwrap os p wire).0 ≡ some n
      → (seq : ℕ) × (open_body os key wire ≡ some (n, seq))
  unfolding unwrap unwrap_base
  Spent-unwrap p wire n h e =
      let (seq, is) =
        admit_or-shut (saw_pair p) p (open_body os p.pair wire) n
          (simp (h.ready, unwrap_base-shut p wire h.shut) at e) in
      (seq, ap (λ k. open_body os k wire) (sym h.is) ∙ is)

  base_allows-shut :
      (p : Plane) (tried : Option Probe) (pr : Probe)
      → p.base_ok ≡ false
      → base_allows (keys_take p) tried ≡ some pr
      → pr.type ≡ probe_fresh
  unfolding base_allows
  base_allows-shut p none pr h e = absurd cc
  base_allows-shut p (some got) pr h e = ground (arith)

  paired_or-allows :
      (p : Plane) (tried : Option Probe) (other : Option Probe × Plane) (pr : Probe)
      → (paired_or p tried other).0 ≡ some pr
      → (tried ≡ some pr) ⊎ (other.0 ≡ some pr)
  unfolding paired_or
  paired_or-allows p none other pr e = inr e
  paired_or-allows p (some got) other pr e = inl e

  Spent-open :
      (p : Plane) (wire : List ℕ) (pr : Probe)
      → Spent key p
      → (plane_open aead p wire).0 ≡ some pr
      → (parse aead p.magic key wire ≡ some pr) ⊎ (pr.type ≡ probe_fresh)
  unfolding plane_open open_base base_allows
  Spent-open p wire pr h e =
      elim (paired_or-allows p (parse aead p.magic p.pair wire)
        (open_base aead (keys_take p) p wire) pr (simp h.ready at e)) [
          | inl paired ↦ inl (ap (λ k. parse aead p.magic k wire) (sym h.is) ∙ paired)
          | inr other ↦ inr (base_allows-shut p (parse aead p.magic p.base wire) pr h.shut other)
        ]

  first-Spent :
      (p : Plane) (frame : List ℕ) (pr : Probe)
      → p.pair_ready ≡ true
      → p.pair ≡ key
      → parse aead p.magic key frame ≡ some pr
      → Spent key (plane_open aead p frame).1
  unfolding plane_open paired_or open_base base_allows
  first-Spent p frame pr ready is e = simp (ready, is, e) (saw_pair-Spent key p ready is)

module _ (os : Os) (aead : Aead) where
  -- After a probe has opened under the pair key, through any calls, each run through as a whole, that
  -- neither reset the plane nor bind another key: a datagram that is delivered carries at its end the
  -- tag, under the pair key, of all before it.
  pub unwrap-paired :
      (p : Plane) (frame : List ℕ) (pr : Probe) (cs : List Call) (wire : List ℕ) (n : ℕ)
      → IsDigest os
      → p.pair_ready ≡ true
      → parse aead p.magic p.pair frame ≡ some pr
      → All Keeps cs
      → (unwrap os (run os aead (plane_open aead p frame).1 cs) wire).0 ≡ some n
      → (length wire ≡ n + 24) × (drop (n + 8) wire ≡ tag_of os p.pair (take (n + 8) wire))
  unwrap-paired p frame pr cs wire n digest ready e keep got =
      let spent =
        run-Spent os aead p.pair cs (plane_open aead p frame).1 keep
          (first-Spent os aead p.pair p frame pr ready refl e) in
      let (seq, is) =
        Spent-unwrap os aead p.pair (run os aead (plane_open aead p frame).1 cs) wire n spent got in
      open_body-tagged os digest p.pair wire n seq is

  -- After a probe has opened under the pair key, through any calls, each run through as a whole, that
  -- neither reset the plane nor bind another key: a probe that `probeplane_open` accepts opens under
  -- the pair key or asks for a fresh start (PROBE_FRESH).
  pub open-paired :
      (p : Plane) (frame : List ℕ) (pr : Probe) (cs : List Call) (wire : List ℕ) (got : Probe)
      → p.pair_ready ≡ true
      → parse aead p.magic p.pair frame ≡ some pr
      → All Keeps cs
      → (plane_open aead (run os aead (plane_open aead p frame).1 cs) wire).0 ≡ some got
      → (parse aead (run os aead (plane_open aead p frame).1 cs).magic p.pair wire ≡ some got)
        ⊎ (got.type ≡ probe_fresh)
  open-paired p frame pr cs wire got ready e keep is =
      Spent-open os aead p.pair (run os aead (plane_open aead p frame).1 cs) wire got
        (run-Spent os aead p.pair cs (plane_open aead p frame).1 keep
          (first-Spent os aead p.pair p frame pr ready refl e))
        is

-- The far end opens what this end seals with.
abbrev pub Shares : (p q : Plane) → Type 0
Shares p q =
    (p.pair_tx ≡ true) × (q.pair_ready ≡ true) × (q.pair ≡ p.pair)
    ⊎ (p.pair_tx ≡ false) × (q.base_ok ≡ true) × (q.base ≡ p.base)

-- What opens under two keys opens to the same.
open_body_unique :
    (os : Os) (key other wire : List ℕ) (opened : ℕ × ℕ)
    → open_body os key wire ≡ some opened
    → (open_body os other wire ≡ none) ⊎ (open_body os other wire ≡ some opened)
unfolding open_body
open_body_unique os key other wire opened e = ground arith

module _ (os : Os) (q : Plane) (wire : List ℕ) (opened : ℕ × ℕ) where
  admit-new :
      (p : Plane) → (replay_ok p.data_rx opened.1).0 ≡ true → (admit p opened).0 ≡ some opened.0
  unfolding admit
  admit-new p e = ground arith

  saw_pair-new :
      (replay_ok q.data_rx opened.1).0 ≡ true → (replay_ok (saw_pair q).data_rx opened.1).0 ≡ true
  unfolding saw_pair
  saw_pair-new e = ground arith

  unwrap-pair :
      q.pair_ready ≡ true
      → open_body os q.pair wire ≡ some opened
      → (replay_ok q.data_rx opened.1).0 ≡ true
      → (unwrap os q wire).0 ≡ some opened.0
  unfolding unwrap unwrap_base admit_or
  unwrap-pair ready e new = simp (ready, e) (admit-new (saw_pair q) (saw_pair-new new))

  unwrap_base-opens :
      q.base_ok ≡ true
      → open_body os q.base wire ≡ some opened
      → (replay_ok q.data_rx opened.1).0 ≡ true
      → (unwrap_base os (keys_take q) q wire).0 ≡ some opened.0
  unfolding unwrap_base admit_or
  unwrap_base-opens good e new = simp (good, e) (admit-new q new)

  unwrap-base :
      q.base_ok ≡ true
      → open_body os q.base wire ≡ some opened
      → (replay_ok q.data_rx opened.1).0 ≡ true
      → (unwrap os q wire).0 ≡ some opened.0
  unfolding unwrap unwrap_base admit_or
  unwrap-base good e new =
      let under_base = unwrap_base-opens good e new in
      elim (Bool-cases q.pair_ready) [
        | inr without ↦ simp without under_base
        | inl ready ↦ elim (open_body_unique os q.base q.pair wire opened e) [
          | inl shut ↦ simp (ready, shut) under_base
          | inr both ↦ simp (ready, both) (admit-new (saw_pair q) (saw_pair-new new))
        ]
      ]

paired_key : (p q : Plane) → p.pair_tx ≡ true → q.pair ≡ p.pair → tx_key p ≡ q.pair
paired_key p q tx same = ground arith

base_key : (p q : Plane) → p.pair_tx ≡ false → q.base ≡ p.base → tx_key p ≡ q.base
base_key p q tx same = ground arith

-- What `probeplane_wrap` makes at one end, the other end delivers with its length, where the far
-- end's window has not seen the number: under the pair key that both ends have, or under the base
-- key while the far end still takes it (also if it has a pair key by then).
pub unwrap-wrap :
    (os : Os) (p q : Plane) (out_max : ℕ) (body wire : List ℕ)
    → IsDigest os
    → Shares p q
    → (replay_ok q.data_rx ((p.data_seq + 1) % 2 ^ 64)).0 ≡ true
    → (plane_wrap os p out_max body).0 ≡ some wire
    → ((unwrap os q wire).0 ≡ some (length body)) × (take (length body) wire ≡ body)
unfolding plane_wrap
unwrap-wrap os p q out_max body wire digest shares new e =
    let seq = (p.data_seq + 1) % 2 ^ 64 in
    let (opens, front) =
      open_body-wrap os digest out_max (tx_key p) body seq wire (omega arith) e in
    let opened : ℕ × ℕ = (length body, seq) in
    elim shares [
      | inl (tx, ready, same) ↦
          (unwrap-pair os q wire opened ready (rw (paired_key p q tx same) at opens) new, front)
      | inr (tx, good, same) ↦
          (unwrap-base os q wire opened good (rw (base_key p q tx same) at opens) new, front)
    ]
