-- ===== src/CtlProto/Reframe.antt =====
-- The reframer finds the frames again however the stream is cut (src/ctlproto.c).
use comrade.Prelude.{
  ℕ, zero, suc, ◌+◌, ◌%◌, ◌<◌, ◌≤◌, ◌≡◌, refl, sym, ap, ap₂, subst, ltb→lt, length-drop,
  drop_append_more, ◌∙◌, true, false, List, [], ◌∷◌, ◌++◌, arith, append_assoc, append-nil, ltb,
  length, take, drop, All, length-append, Bool-cases, inl, inr,
}
use comrade.Paths.Ep.{octet}
use comrade.CtlProto.{frame, drain, feed}

-- What may be sent: a type of one byte and a payload that fits a frame.
abbrev pub IsFrame : ℕ × List ℕ → Type 0
IsFrame f = (f.0 < 256) × (length f.1 ≤ 32)

-- What the writer puts on the wire, frame after frame.
unfoldable pub stream : List (ℕ × List ℕ) → List ℕ
unfolding frame
stream [] = []
stream (f ∷ fs) = frame f.0 f.1 ++ stream fs

-- Chunk by chunk: the frames handed on, and what is held.
unfoldable pub feed_all : (held : List ℕ) (chunks : List (List ℕ)) → List (ℕ × List ℕ) × List ℕ
feed_all held [] = ([], held)
feed_all held (c ∷ cs) =
    let now = feed held c in let rest = feed_all now.1 cs in (now.0 ++ rest.0, rest.1)

abbrev pub joined : List (List ℕ) → List ℕ
joined [] = []
joined (c ∷ cs) = c ++ joined cs

-- The frames of a stream split in those that the bytes so far complete and the others.
record Split (out : List (ℕ × List ℕ) × List ℕ) (more : List ℕ) (fs : List (ℕ × List ℕ))
    : Type 0 where
  later : List (ℕ × List ℕ)
  whole : fs ≡ out.0 ++ later
  left : out.1 ++ more ≡ stream later
  fine : All IsFrame later
  short : length out.1 < 34
  -- At the end of the stream nothing is left to come.
  done : more ≡ [] → later ≡ []

stream-cons :
    (f : ℕ × List ℕ) (fs : List (ℕ × List ℕ))
    → IsFrame f
    → stream (f ∷ fs) ≡ f.0 ∷ length f.1 ∷ (f.1 ++ stream fs)
unfolding stream
stream-cons f fs ok =
    let fits : ltb 32 (length f.1) ≡ false = ground (arith, ok.1) in
    let t : f.0 % 256 ≡ f.0 = omega (arith, ok.0) in
    let l : length f.1 % 256 ≡ length f.1 = omega (arith, ok.1) in rw (fits, t, l)

cons_ne_nil : (x : ℕ) (xs : List ℕ) → x ∷ xs ≡ [] → ⊥
cons_ne_nil x xs e = absurd (omega (arith, ap length e))

stream-nil : (fs : List (ℕ × List ℕ)) → All IsFrame fs → stream fs ≡ [] → fs ≡ []
stream-nil [] ok e = refl
stream-nil (f ∷ fs) ok e =
    absurd (cons_ne_nil f.0 (length f.1 ∷ (f.1 ++ stream fs)) (sym (stream-cons f fs ok.0) ∙ e))

one_short :
    (x : ℕ) (more : List ℕ) (fs : List (ℕ × List ℕ))
    → All IsFrame fs
    → x ∷ more ≡ stream fs
    → more ≡ []
    → fs ≡ []
one_short x more [] ok e d = refl
one_short x more (f ∷ fs) ok e d = absurd (
    cons_ne_nil (length f.1) (f.1 ++ stream fs) (ap (drop 1) (sym (e ∙ stream-cons f fs ok.0)) ∙ d))

-- Two ways to cut one list.
append_split :
    (xs ys zs ws : List ℕ)
    → xs ++ ys ≡ zs ++ ws
    → length zs ≤ length xs
    → (take (length zs) xs ≡ zs) × (drop (length zs) xs ++ ys ≡ ws)
append_split xs ys [] ws e le = (refl, e)
append_split [] ys (z ∷ zs) ws e le = absurd (omega (arith, le))
append_split (x ∷ xs) ys (z ∷ zs) ws e le =
    let rest = append_split xs ys zs ws (ap (drop 1) e) (omega (arith, le)) in
    (ap₂ ◌∷◌ (ap (λ l. octet l 0) e) rest.0, rest.1)

drain-stop :
    (fuel x y : ℕ) (buf : List ℕ)
    → y ≤ 32
    → length buf < y
    → drain (suc fuel) (x ∷ y ∷ buf) ≡ ([], x ∷ y ∷ buf)
unfolding drain
drain-stop fuel x y buf small part =
    let fits : ltb 34 (2 + y) ≡ false = ground arith in
    let wait : ltb (suc (suc (length buf))) (2 + y) ≡ true = ground arith in
    let two : ltb (suc (suc (length buf))) 2 ≡ false = ground arith in rw (two, fits, wait)

drain-take :
    (fuel x y : ℕ) (buf : List ℕ)
    → y ≤ 32
    → y ≤ length buf
    → drain (suc fuel) (x ∷ y ∷ buf)
      ≡ ((x, take y buf) ∷ (drain fuel (drop y buf)).0, (drain fuel (drop y buf)).1)
unfolding drain
drain-take fuel x y buf small full =
    let fits : ltb 34 (2 + y) ≡ false = ground arith in
    let there : ltb (suc (suc (length buf))) (2 + y) ≡ false = ground arith in
    let two : ltb (suc (suc (length buf))) 2 ≡ false = ground arith in
    rw (two, fits, there, drop_append_more y (x ∷ y ∷ []) buf)

cut_short :
    (buf more payload after : List ℕ)
    → buf ++ more ≡ payload ++ after
    → more ≡ []
    → length buf < length payload
    → ⊥
cut_short buf more payload after e d lt = absurd (
    omega
      (arith, ap length e, ap length d, lt, length-append buf more, length-append payload after))

drain-Split :
    (fuel : ℕ) (buf more : List ℕ) (fs : List (ℕ × List ℕ))
    → All IsFrame fs
    → length buf ≤ fuel
    → buf ++ more ≡ stream fs
    → Split (drain fuel buf) more fs
unfolding drain stream
drain-Split zero [] more fs ok le e = record {
  later = fs;
  whole = refl;
  left = e;
  fine = ok;
  short = omega arith;
  done = λ d. stream-nil fs ok (sym e ∙ d);
}
drain-Split zero (x ∷ buf) more fs ok le e = absurd (omega (arith, le))
drain-Split (suc fuel) [] more fs ok le e = record {
  later = fs;
  whole = refl;
  left = e;
  fine = ok;
  short = omega arith;
  done = λ d. stream-nil fs ok (sym e ∙ d);
}
drain-Split (suc fuel) (x ∷ []) more fs ok le e = record {
  later = fs;
  whole = refl;
  left = e;
  fine = ok;
  short = omega arith;
  done = λ d. one_short x more fs ok e d;
}
drain-Split (suc fuel) (x ∷ y ∷ buf) more [] ok le e = absurd (cons_ne_nil x (y ∷ (buf ++ more)) e)
drain-Split (suc fuel) (x ∷ y ∷ buf) more (f ∷ fs) ok le e =
    let wire = e ∙ stream-cons f fs ok.0 in
    let is_type : x ≡ f.0 = ap (λ l. octet l 0) wire in
    let is_plen : y ≡ length f.1 = ap (λ l. octet l 1) wire in
    let is_rest : buf ++ more ≡ f.1 ++ stream fs = ap (drop 2) wire in
    let small : y ≤ 32 = omega (arith, is_plen, ok.0.1) in
    elim (Bool-cases (ltb (length buf) y)) [
      | inl part ↦
          subst (λ o. Split o more (f ∷ fs))
            (sym (drain-stop fuel x y buf small (ltb→lt (length buf) y part)))
            (record {
              later = f ∷ fs;
              whole = refl;
              left = e;
              fine = ok;
              short = omega (arith, small, ltb→lt (length buf) y part);
              done = λ d. absurd (
                  cut_short buf more f.1 (stream fs) is_rest d
                    (omega (arith, is_plen, ltb→lt (length buf) y part)));
            })
      | inr full ↦
          let enough : y ≤ length buf = ground (arith, full) in
          let cut =
            append_split buf more f.1 (stream fs) is_rest (omega (arith, enough, is_plen)) in
          let payload : take y buf ≡ f.1 = ap (λ n. take n buf) is_plen ∙ cut.0 in
          let beyond : drop y buf ++ more ≡ stream fs =
            ap (λ n. drop n buf ++ more) is_plen ∙ cut.1 in
          let rest =
            drain-Split fuel (drop y buf) more fs ok.1 (omega (arith, le, length-drop y buf))
              beyond in
          subst (λ o. Split o more (f ∷ fs)) (sym (drain-take fuel x y buf small enough))
            (record {
              later = rest.later;
              whole = ap₂ ◌∷◌ (ap₂ (λ a b. (a, b)) (sym is_type) (sym payload)) rest.whole;
              left = rest.left;
              fine = rest.fine;
              short = rest.short;
              done = rest.done;
            })
    ]

feed-drain :
    (held chunk : List ℕ)
    → length held < 34
    → length chunk ≤ 94
    → feed held chunk ≡ drain (length (held ++ chunk)) (held ++ chunk)
unfolding feed
feed-drain held chunk short small =
    let room : ltb 128 (length held + length chunk) ≡ false = ground arith in
    let fits : ltb 128 (length chunk) ≡ false = ground arith in rw (room, fits)

feed_all-rest :
    (chunks : List (List ℕ)) (held : List ℕ) (fs : List (ℕ × List ℕ))
    → All IsFrame fs
    → All (λ c. length c ≤ 94) chunks
    → length held < 34
    → held ++ joined chunks ≡ stream fs
    → (joined chunks ≡ [] → fs ≡ [])
    → feed_all held chunks ≡ (fs, [])
unfolding feed_all stream
feed_all-rest [] held fs ok small short e done =
    let none_left = done refl in
    ap₂ (λ a b. (a, b)) (sym none_left) (sym (append-nil held) ∙ e ∙ ap stream none_left)
feed_all-rest (c ∷ cs) held fs ok small short e done =
    let all = held ++ c in
    let now = feed-drain held c short small.0 in
    let s =
      drain-Split (length all) all (joined cs) fs ok (omega arith)
        (append_assoc held c (joined cs) ∙ e) in
    let rest =
      feed_all-rest cs (drain (length all) all).1 s.later s.fine small.1 s.short s.left s.done in
    rw (now, rest, s.whole)

-- However a stream of frames (a type of one byte and a payload of at most 32) is cut into chunks of
-- at most 94 bytes, the reframer hands on exactly those frames, in their order, and holds nothing
-- at the end.
pub feed_all-stream :
    (chunks : List (List ℕ)) (fs : List (ℕ × List ℕ))
    → All IsFrame fs
    → All (λ c. length c ≤ 94) chunks
    → joined chunks ≡ stream fs
    → feed_all [] chunks ≡ (fs, [])
feed_all-stream chunks fs ok small e =
    feed_all-rest chunks [] fs ok small (omega arith) e (λ d. stream-nil fs ok (sym e ∙ d))
