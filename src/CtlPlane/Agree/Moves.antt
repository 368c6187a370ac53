-- ===== src/CtlPlane/Agree/Moves.antt =====
-- The invariant of `Ways` holds of the code, whatever the order of its moves (src/ctlplane.c).
use comrade.Prelude.{
  ℕ, Bool, true, false, ◌||◌, some, List, [], ◌∷◌, ◌++◌, ◌≡◌, inl, inr, refl, sym, ap, ap₂, ◌∙◌,
  take_all, subst, arith, Bool-cases, length, take, replicate, length-append, length-take,
  append-nil, ◌==◌,
}
use comrade.Paths.Ep.{Os}
use comrade.Seal.{Aead}
use comrade.ProbePlane.{
  Plane, Call, call_reset, call_bind, call_tx_ready, call_seal, call_open, call_wrap, call_unwrap,
  call_fresh, plane_seal, plane_open, plane_wrap, unwrap, unwrap_base, fresh, open_base, admit,
  admit_or, paired_or, saw_pair,
}
use comrade.CtlPlane.{Ctl, Sinks, init, ctlm_key, ctlm_keyok}
use comrade.CtlPlane.Say.{offer_key}
use comrade.CtlPlane.Hear.{on_msg}
use comrade.CtlPlane.Agree.{
  Message, World, Move, offer, say, hear, traffic, sends, half32, agrees_keys, hear_next, move_left,
  move, play, new_world, flip,
}
use comrade.CtlPlane.Agree.Keying.{
  Keying, keying, Word, half, ok, aside, word, words, add, offer_word, hear_word, words-append,
  offer_key-word, on_msg-word,
}
use comrade.CtlPlane.Agree.Traffic.{keying-traffic}
use comrade.CtlPlane.Agree.Ways.{
  End, Way, Says, out-Way, offer-Way, hear_half-Way, hear_ok-Way, offer-Says, hear_half-Says,
  hear_ok-Says, hear_aside-Says, hear_aside-Way,
}

-- Two ends that exchange keys, and the two ways between them.
pub record Pair (os : Os) (x y : Keying) (out back : List Word) : Type 0 where
  pub this : End os x
  pub that : End os y
  pub there : Way x y out
  pub here : Way y x back
  pub base : x.base ≡ y.base

module _ (os : Os) where
  Pair-flip : (x y : Keying) (out back : List Word) → Pair os x y out back → Pair os y x back out
  Pair-flip x y out back p = record {
    this = p.that;
    that = p.this;
    there = p.here;
    here = p.there;
    base = sym p.base;
  }

  Says-Pair :
      (x y : Keying) (out back back' : List Word) (r : List Word × Keying)
      → Pair os x y out back
      → Says os x r
      → Way y r.1 back'
      → Pair os r.1 y (out ++ r.0) back'
  Says-Pair x y out back back' r p s w = record {
    this = s.end;
    that = p.that;
    there = out-Way os x p.this y out r s p.there;
    here = w;
    base = s.base ∙ p.base;
  }

  offer-Pair :
      (x y : Keying) (out back : List Word) (h : List ℕ)
      → Pair os x y out back
      → Pair os (offer_word os x h).1 y (out ++ (offer_word os x h).0) back
  offer-Pair x y out back h p =
      Says-Pair x y out back back (offer_word os x h) p (offer-Says os x p.this h)
        (offer-Way os x p.this y back h p.here)

  hear-Pair :
      (x y : Keying) (out back : List Word) (w : Word)
      → Pair os x y out (add w back)
      → Pair os (hear_word os x w).1 y (out ++ (hear_word os x w).0) back
  hear-Pair x y out back (half h) p =
      Says-Pair x y out (half h ∷ back) back (hear_word os x (half h)) p
        (hear_half-Says os x p.this h (λ s. p.here.theirs s ∙ sym p.here.fits.1))
        (hear_half-Way os x p.this y back h p.here)
  hear-Pair x y out back ok p =
      Says-Pair x y out (ok ∷ back) back (hear_word os x ok) p (hear_ok-Says os x p.this)
        (hear_ok-Way os x p.this y back (p.there.sent (p.that.seen p.here.fits.0)) p.here)
  hear-Pair x y out back aside p =
      Says-Pair x y out back back (hear_word os x aside) p (hear_aside-Says os x p.this)
        (hear_aside-Way os x p.this y back p.here)

length-half32 : (random : List ℕ) → length (half32 random) ≡ 32
unfolding half32
length-half32 random =
    omega (arith, length-take 32 (random ++ replicate 32 0), length-append random (replicate 32 0))

whole-half32 : (random : List ℕ) → take 32 (half32 random) ≡ half32 random
whole-half32 random = take_all 32 (half32 random) (length-half32 random)

-- The exchange as a world has it.
abbrev pub Inv : Os → World → Type 0
Inv os w = Pair os (keying w.left) (keying w.right) (words w.to_right) (words w.to_left)

module _ (os : Os) (aead : Aead) where
  -- What an operation of the left end does to the exchange, where the code refines it.
  refines :
      (x y : Keying) (out back : List Word) (c : Ctl) (said : List Message) (before : List Message)
      (r : List Word × Keying)
      → words said ≡ r.0
      → keying c ≡ r.1
      → words before ≡ out
      → Pair os r.1 y (out ++ r.0) back
      → Pair os (keying c) y (words (before ++ said)) back
  refines x y out back c said before r said_is is before_is p =
      subst (λ k. Pair os k y (words (before ++ said)) back) (sym is)
        (subst (λ ws. Pair os r.1 y ws back)
          (sym (words-append before said ∙ ap₂ ◌++◌ before_is said_is)) p)

  offer-Inv : (w : World) (random : List ℕ) → Inv os w → Inv os (move_left os aead (offer random) w)
  unfolding move_left
  offer-Inv w random i =
      let h = half32 random in
      let (said, is) = offer_key-word os w.left h (length-half32 random) (whole-half32 random) in
      refines (keying w.left) (keying w.right) (words w.to_right) (words w.to_left)
        (offer_key os w.left (some h)).2 (sends (offer_key os w.left (some h)).1) w.to_right
        (offer_word os (keying w.left) h) said is refl
        (offer-Pair os (keying w.left) (keying w.right) (words w.to_right) (words w.to_left) h i)

  hear-Inv :
      (k : Sinks) (netgen now : ℕ) (w : World) (queue : List Message)
      → Pair os (keying w.left) (keying w.right) (words w.to_right) (words queue)
      → queue ≡ w.to_left
      → Inv os (hear_next os aead k netgen now w queue)
  unfolding hear_next words
  hear-Inv k netgen now w [] i e =
      subst (λ q. Pair os (keying w.left) (keying w.right) (words w.to_right) (words q)) e i
  hear-Inv k netgen now w (m ∷ rest) i e =
      let heard = on_msg-word os w.left k m.0 m.1 netgen now in
      let r = (on_msg os w.left k m.0 m.1 netgen now).1 in
      refines (keying w.left) (keying w.right) (words w.to_right) (words rest) r.1 (sends r.0)
        w.to_right (hear_word os (keying w.left) (word m)) (ap (λ s. s.0) heard)
        (ap (λ s. s.1) heard) refl
        (hear-Pair os (keying w.left) (keying w.right) (words w.to_right) (words rest) (word m) i)

  word-other : (m : Message) → (m.0 == ctlm_key || m.0 == ctlm_keyok) ≡ false → word m ≡ aside
  unfolding word
  word-other m e = ground arith

  words-other :
      (ms : List Message) (m : Message)
      → (m.0 == ctlm_key || m.0 == ctlm_keyok) ≡ false
      → words (ms ++ (m ∷ [])) ≡ words ms
  unfolding words
  words-other ms m e =
      words-append ms (m ∷ [])
      ∙ ap (λ w. words ms ++ add w []) (word-other m e)
      ∙ append-nil (words ms)

  say-Inv : (w : World) (m : Message) → Inv os w → Inv os (move_left os aead (say m) w)
  unfolding move_left
  say-Inv w m i = elim (Bool-cases (m.0 == ctlm_key || m.0 == ctlm_keyok)) [
    | inl keys ↦ simp keys i
    | inr aside_of_keys ↦ simp aside_of_keys (
        subst (λ ws. Pair os (keying w.left) (keying w.right) ws (words w.to_left))
          (sym (words-other w.to_right m aside_of_keys)) i)
  ]

  traffic-Inv : (w : World) (call : Call) → Inv os w → Inv os (move_left os aead (traffic call) w)
  unfolding move_left
  traffic-Inv w call i = elim (Bool-cases (agrees_keys call)) [
    | inl agrees ↦ simp agrees i
    | inr plain ↦ simp plain (
        subst (λ k. Pair os k (keying w.right) (words w.to_right) (words w.to_left))
          (sym (keying-traffic os aead w.left call plain)) i)
  ]

  move_left-Inv : (m : Move) (w : World) → Inv os w → Inv os (move_left os aead m w)
  unfolding move_left
  move_left-Inv (offer random) w i = offer-Inv w random i
  move_left-Inv (say m) w i = say-Inv w m i
  move_left-Inv (hear k netgen now) w i = hear-Inv k netgen now w w.to_left i refl
  move_left-Inv (traffic call) w i = traffic-Inv w call i

  move-Inv : (m : Bool × Move) (w : World) → Inv os w → Inv os (move os aead m w)
  unfolding move
  move-Inv (true, m) w i = move_left-Inv m w i
  move-Inv (false, m) w i =
      Pair-flip os _ _ _ _ (move_left-Inv m (flip os aead w) (Pair-flip os _ _ _ _ i))

  pub play-Inv : (ms : List (Bool × Move)) (w : World) → Inv os w → Inv os (play os aead w ms)
  unfolding play
  play-Inv [] w i = i
  play-Inv (m ∷ ms) w i = play-Inv ms (move os aead m w) (move-Inv m w i)

  pub start-Inv : (magic : ℕ) (base : List ℕ) (sl sr : ℕ) → Inv os (new_world magic base sl sr)
  unfolding new_world keying words init comrade.ProbePlane.init
  start-Inv magic base sl sr = record {
    this = ground arith;
    that = ground arith;
    there = record {
      fits = tt;
      sent = ground arith;
      theirs = ground arith;
      ready = ground arith;
      half_due = ground arith;
      ok_due = ground arith;
    };
    here = record {
      fits = tt;
      sent = ground arith;
      theirs = ground arith;
      ready = ground arith;
      half_due = ground arith;
      ok_due = ground arith;
    };
    base = refl;
  }
