-- ===== src/NsFacts/Queue.antt =====
-- The facts as one queue (src/nsfacts.c).
use comrade.Prelude.{
  ℕ, zero, suc, leb→le, ◌-◌, ◌≤◌, ◌≡◌, refl, sym, ap, ap₂, ◌∙◌, Bool, true, false, List, [], ◌∷◌,
  ◌++◌, arith, append_assoc, append-nil, leb, if◌then◌else◌, length, take, drop, length-append,
  length-take, Bool-cases, inl, inr,
}
use comrade.NsFacts.{
  FactKind, roundtrip, probe_done, servers, Fact, Slots, Facts, slot_fact, emit, emit_slots,
  emit_queue, take_facts,
}

abbrev one : Bool → Fact → List Fact
one flag fact = if flag then fact ∷ [] else []

-- What the flags of a kind stand for.
abbrev pub slots_facts : FactKind → Slots → List Fact
slots_facts kind s =
    one s.v4 (slot_fact kind 4 s.v4_epoch) ++ one s.v6 (slot_fact kind 6 s.v6_epoch)

-- The facts that are waiting, in the order in which they are taken.
unfoldable pub pending : Facts → List Fact
pending f =
    slots_facts roundtrip f.rt
    ++ (slots_facts servers f.more ++ (f.q ++ slots_facts probe_done f.done))

-- From `before` to `after` the array takes as much of `queue` as it has room for, and `rest` stays.
record Pours (max : ℕ) (before queue after rest : List Fact) : Type 0 where
  taken : after ≡ before ++ take (max - length before) queue
  left : rest ≡ drop (max - length before) queue

take_none : (k : ℕ) → take {A = Fact} k [] ≡ []
take_none zero = refl
take_none (suc k) = refl

drop_none : (k : ℕ) → drop {A = Fact} k [] ≡ []
drop_none zero = refl
drop_none (suc k) = refl

take-append : (k : ℕ) (xs ys : List Fact) → take k (xs ++ ys) ≡ take k xs ++ take (k - length xs) ys
take-append k [] ys =
    let all : k ≡ k - 0 = omega arith in
    ap (λ n. take n ys) all ∙ ap (λ l. l ++ take (k - 0) ys) (sym (take_none k))
take-append zero (x ∷ xs) ys =
    let none_left : 0 ≡ 0 - suc (length xs) = omega arith in ap (λ n. take n ys) none_left
take-append (suc k) (x ∷ xs) ys =
    let same : k - length xs ≡ suc k - suc (length xs) = omega arith in
    ap (◌∷◌ x) (take-append k xs ys ∙ ap (λ n. take k xs ++ take n ys) same)

drop-append : (k : ℕ) (xs ys : List Fact) → drop k (xs ++ ys) ≡ drop k xs ++ drop (k - length xs) ys
drop-append k [] ys =
    let all : k ≡ k - 0 = omega arith in
    ap (λ n. drop n ys) all ∙ ap (λ l. l ++ drop (k - 0) ys) (sym (drop_none k))
drop-append zero (x ∷ xs) ys =
    let none_left : 0 ≡ 0 - suc (length xs) = omega arith in
    ap (λ n. x ∷ (xs ++ drop n ys)) none_left
drop-append (suc k) (x ∷ xs) ys =
    let same : k - length xs ≡ suc k - suc (length xs) = omega arith in
    drop-append k xs ys ∙ ap (λ n. drop k xs ++ drop n ys) same

-- Two pours, one after the other, pour the two queues.
Pours-append :
    (max : ℕ) (before q middle r p after s : List Fact)
    → Pours max before q middle r
    → Pours max middle p after s
    → Pours max before (q ++ p) after (r ++ s)
Pours-append max before q middle r p after s a b =
    let k = max - length before in
    let room : max - length middle ≡ k - length q = omega (
      arith,
      ap length a.taken,
      length-append before (take (max - length before) q),
      length-take (max - length before) q,
    ) in
    record {
      taken =
          b.taken
          ∙ ap₂ ◌++◌ a.taken (ap (λ n. take n p) room)
          ∙ append_assoc before (take k q) (take (k - length q) p)
          ∙ ap (λ l. before ++ l) (sym (take-append k q p));
      left = ap₂ ◌++◌ a.left (b.left ∙ ap (λ n. drop n p) room) ∙ sym (drop-append k q p);
    }

-- A full array takes nothing.
Pours-full : (max : ℕ) (out q : List Fact) → max ≤ length out → Pours max out q out q
Pours-full max out q full =
    let none_left : 0 ≡ max - length out = omega arith in
    record {
      taken = sym (append-nil out) ∙ ap (λ n. out ++ take n q) none_left;
      left = ap (λ n. drop n q) none_left;
    }

emit-Pours :
    (max : ℕ) (out : List Fact) (flag : Bool) (fact : Fact)
    → Pours max out (one flag fact) (emit max out flag fact).0 (one (emit max out flag fact).1 fact)
unfolding emit
emit-Pours max out false fact = record {
  taken = sym (append-nil out) ∙ ap (λ l. out ++ l) (sym (take_none (max - length out)));
  left = sym (drop_none (max - length out));
}
emit-Pours max out true fact = elim (Bool-cases (leb max (length out))) [
  | inl full ↦ rw full (Pours-full max out (fact ∷ []) (leb→le max (length out) full))
  | inr room ↦
      let some_left : max - length out ≡ suc (max - length out - 1) = ground (arith, room) in
      rw room (record {
        taken =
            ap (λ l. out ++ (fact ∷ l)) (sym (take_none (max - length out - 1)))
            ∙ ap (λ n. out ++ take n (fact ∷ [])) (sym some_left);
        left =
            sym (drop_none (max - length out - 1)) ∙ ap (λ n. drop n (fact ∷ [])) (sym some_left);
      })
]

emit_slots-Pours :
    (max : ℕ) (out : List Fact) (kind : FactKind) (s : Slots)
    → Pours max out
        (slots_facts kind s)
        (emit_slots max out kind s).0
        (slots_facts kind (emit_slots max out kind s).1)
unfolding emit_slots
emit_slots-Pours max out kind s =
    let f4 = slot_fact kind 4 s.v4_epoch in
    let f6 = slot_fact kind 6 s.v6_epoch in
    let a = emit max out s.v4 f4 in
    Pours-append max out (one s.v4 f4) a.0 (one a.1 f4) (one s.v6 f6) (emit max a.0 s.v6 f6).0
      (one (emit max a.0 s.v6 f6).1 f6) (emit-Pours max out s.v4 f4) (emit-Pours max a.0 s.v6 f6)

emit_queue-Pours :
    (max : ℕ) (out q : List Fact)
    → Pours max out q (emit_queue max out q).0 (emit_queue max out q).1
unfolding emit_queue
emit_queue-Pours max out [] = record {
  taken = sym (append-nil out) ∙ ap (λ l. out ++ l) (sym (take_none (max - length out)));
  left = sym (drop_none (max - length out));
}
emit_queue-Pours max out (e ∷ es) = elim (Bool-cases (leb max (length out))) [
  | inl full ↦ rw full (Pours-full max out (e ∷ es) (leb→le max (length out) full))
  | inr room ↦
      let some_left : max - length out ≡ suc (max - length out - 1) = ground (arith, room) in
      let next : max - length (out ++ (e ∷ [])) ≡ max - length out - 1 =
        omega (arith, length-append out (e ∷ [])) in
      let rest = emit_queue-Pours max (out ++ (e ∷ [])) es in
      rw room (record {
        taken =
            rest.taken
            ∙ ap (λ n. (out ++ (e ∷ [])) ++ take n es) next
            ∙ append_assoc out (e ∷ []) (take (max - length out - 1) es)
            ∙ ap (λ n. out ++ take n (e ∷ es)) (sym some_left);
        left = rest.left ∙ ap (λ n. drop n es) next ∙ ap (λ n. drop n (e ∷ es)) (sym some_left);
      })
]

-- The posted facts are one queue: `nsfacts_take` hands on the first `max` of those that wait (the
-- answers of both families, the servers, the addresses in the order they were posted, the ends of
-- the probe rounds), and exactly the others wait on.
pub take_facts-pending :
    (f : Facts) (max : ℕ)
    → ((take_facts f max).0 ≡ take max (pending f))
      × (pending (take_facts f max).1 ≡ drop max (pending f))
unfolding take_facts pending
take_facts-pending f max =
    let a = emit_slots max [] roundtrip f.rt in
    let b = emit_slots max a.0 servers f.more in
    let c = emit_queue max b.0 f.q in
    let d = emit_slots max c.0 probe_done f.done in
    let last =
      Pours-append max b.0 f.q c.0 c.1 (slots_facts probe_done f.done) d.0
        (slots_facts probe_done d.1) (emit_queue-Pours max b.0 f.q)
        (emit_slots-Pours max c.0 probe_done f.done) in
    let two =
      Pours-append max a.0 (slots_facts servers f.more) b.0 (slots_facts servers b.1)
        (f.q ++ slots_facts probe_done f.done) d.0 (c.1 ++ slots_facts probe_done d.1)
        (emit_slots-Pours max a.0 servers f.more) last in
    let all =
      Pours-append max [] (slots_facts roundtrip f.rt) a.0 (slots_facts roundtrip a.1)
        (slots_facts servers f.more ++ (f.q ++ slots_facts probe_done f.done)) d.0
        (slots_facts servers b.1 ++ (c.1 ++ slots_facts probe_done d.1))
        (emit_slots-Pours max [] roundtrip f.rt) two in
    let whole : max - 0 ≡ max = omega arith in
    (all.taken ∙ ap (λ n. take n (pending f)) whole, all.left ∙ ap (λ n. drop n (pending f)) whole)
