-- ===== src/CtlPlane/Agree/Ways.antt =====
-- The invariant of an exchange of keys: what holds of one end, and of one way from an end `x`
-- through its channel to an end `y`.
use comrade.Prelude.{
  ℕ, Bool, true, false, ◌||◌, List, [], ◌∷◌, ◌++◌, ◌≡◌, refl, sym, ◌∙◌, subst, arith,
}
use comrade.Paths.Ep.{Os}
use comrade.Keys.{conn_key}
use comrade.CtlPlane.Agree.Keying.{Keying, Word, half, ok, aside, bind_word, offer_word, hear_word}

pub record End (os : Os) (k : Keying) : Type 0 where
  pub binds : k.sent ≡ true → k.seen ≡ true → k.ready ≡ true
  pub sent : k.ready ≡ true → k.sent ≡ true
  pub seen : k.ready ≡ true → k.seen ≡ true
  pub pair : k.ready ≡ true → k.pair ≡ conn_key os k.base k.mine k.theirs
  pub tx : k.tx ≡ true → k.ready ≡ true

-- What stands in the channel: halves are the sender's, and an `ok` was sent by a sender with a key
-- and comes after a half.
abbrev pub Fits : Keying → (seen : Bool) → List Word → Type 0
Fits x seen [] = Unit
Fits x seen (half h ∷ ws) = (x.sent ≡ true) × (h ≡ x.mine) × Fits x true ws
Fits x seen (ok ∷ ws) = (x.ready ≡ true) × (seen ≡ true) × Fits x seen ws
Fits x seen (aside ∷ ws) = Fits x seen ws

abbrev pub has_half : List Word → Bool
has_half [] = false
has_half (half h ∷ ws) = true
has_half (_ ∷ ws) = has_half ws

abbrev pub has_ok : List Word → Bool
has_ok [] = false
has_ok (ok ∷ ws) = true
has_ok (_ ∷ ws) = has_ok ws

pub record Way (x y : Keying) (ws : List Word) : Type 0 where
  pub fits : Fits x y.seen ws
  pub sent : y.seen ≡ true → x.sent ≡ true
  pub theirs : y.seen ≡ true → y.theirs ≡ x.mine
  pub ready : y.tx ≡ true → x.ready ≡ true
  pub half_due : x.sent ≡ true → (y.seen || has_half ws) ≡ true
  pub ok_due : x.ready ≡ true → (y.tx || has_ok ws) ≡ true

-- The sender after it sent a half or got a key.
pub record Grows (x x' : Keying) : Type 0 where
  sent : x.sent ≡ true → x'.sent ≡ true
  mine : x.sent ≡ true → x'.mine ≡ x.mine
  ready : x.ready ≡ true → x'.ready ≡ true

Fits-Grows :
    (x x' : Keying) (seen : Bool) (ws : List Word) → Grows x x' → Fits x seen ws → Fits x' seen ws
Fits-Grows x x' seen [] g f = tt
Fits-Grows x x' seen (half h ∷ ws) g f =
    (g.sent f.0, f.1 ∙ sym (g.mine f.0), Fits-Grows x x' true ws g f.2)
Fits-Grows x x' seen (ok ∷ ws) g f = (g.ready f.0, f.1, Fits-Grows x x' seen ws g f.2)
Fits-Grows x x' seen (aside ∷ ws) g f = Fits-Grows x x' seen ws g f

Fits-seen : (x : Keying) (seen : Bool) (ws : List Word) → Fits x seen ws → Fits x true ws
Fits-seen x seen [] f = tt
Fits-seen x seen (half h ∷ ws) f = f
Fits-seen x seen (ok ∷ ws) f = (f.0, refl, Fits-seen x seen ws f.2)
Fits-seen x seen (aside ∷ ws) f = Fits-seen x seen ws f

-- What is sent after all that stands in the channel.
Fits-append :
    (x : Keying) (seen : Bool) (ws vs : List Word)
    → Fits x seen ws
    → Fits x (seen || has_half ws) vs
    → Fits x seen (ws ++ vs)
Fits-append x seen [] vs f g = subst (λ b. Fits x b vs) (ground arith) g
Fits-append x seen (half h ∷ ws) vs f g =
    (f.0, f.1, Fits-append x true ws vs f.2 (subst (λ b. Fits x b vs) (ground arith) g))
Fits-append x seen (ok ∷ ws) vs f g = (f.0, f.1, Fits-append x seen ws vs f.2 g)
Fits-append x seen (aside ∷ ws) vs f g = Fits-append x seen ws vs f g

has_half-append : (ws vs : List Word) → has_half (ws ++ vs) ≡ has_half ws || has_half vs
has_half-append [] vs = refl
has_half-append (half h ∷ ws) vs = refl
has_half-append (ok ∷ ws) vs = has_half-append ws vs
has_half-append (aside ∷ ws) vs = has_half-append ws vs

has_ok-append : (ws vs : List Word) → has_ok (ws ++ vs) ≡ has_ok ws || has_ok vs
has_ok-append [] vs = refl
has_ok-append (half h ∷ ws) vs = has_ok-append ws vs
has_ok-append (ok ∷ ws) vs = refl
has_ok-append (aside ∷ ws) vs = has_ok-append ws vs

-- The way out of an end that grew and said something.
Way-says :
    (x x' y : Keying) (ws vs : List Word)
    → Grows x x'
    → Way x y ws
    → Fits x' (y.seen || has_half ws) vs
    → (x'.sent ≡ true → (x.sent || has_half vs) ≡ true)
    → (x'.ready ≡ true → (x.ready || has_ok vs) ≡ true)
    → Way x' y (ws ++ vs)
Way-says x x' y ws vs g w f h k = record {
  fits = Fits-append x' y.seen ws vs (Fits-Grows x x' y.seen ws g w.fits) f;
  sent = λ e. g.sent (w.sent e);
  theirs = λ e. w.theirs e ∙ sym (g.mine (w.sent e));
  ready = λ e. g.ready (w.ready e);
  half_due = λ e. ground (arith, has_half-append ws vs, h e, w.half_due);
  ok_due = λ e. ground (arith, has_ok-append ws vs, k e, w.ok_due);
}

-- What an operation makes of an end and says, and what it leaves of a way into it.
pub record Says (os : Os) (x : Keying) (r : List Word × Keying) : Type 0 where
  pub end : End os r.1
  grows : Grows x r.1
  pub base : r.1.base ≡ x.base
  fits : (heard : Bool) → (x.sent ≡ true → heard ≡ true) → Fits r.1 heard r.0
  half_said : r.1.sent ≡ true → (x.sent || has_half r.0) ≡ true
  ok_said : r.1.ready ≡ true → (x.ready || has_ok r.0) ≡ true

module _ (os : Os) (x : Keying) (e : End os x) where
  offer-End : (h : List ℕ) → End os (offer_word os x h).1
  unfolding offer_word bind_word
  offer-End h = ground (arith, e.binds, e.sent, e.seen, e.pair, e.tx)

  offer-Grows : (h : List ℕ) → Grows x (offer_word os x h).1
  unfolding offer_word bind_word
  offer-Grows h = ground (arith, e.binds, e.sent, e.seen, e.pair, e.tx)

  pub offer-Says : (h : List ℕ) → Says os x (offer_word os x h)
  unfolding offer_word bind_word
  offer-Says h = record {
    end = offer-End h;
    grows = offer-Grows h;
    base = ground arith;
    fits = λ heard known. ground (arith, known, e.binds, e.sent, e.seen);
    half_said = ground (arith, e.binds, e.sent, e.seen);
    ok_said = ground (arith, e.binds, e.sent, e.seen);
  }

  pub hear_half-Says :
      (h : List ℕ) → (x.seen ≡ true → x.theirs ≡ h) → Says os x (hear_word os x (half h))
  unfolding hear_word bind_word
  hear_half-Says h same = record {
    end = ground (arith, same, e.binds, e.sent, e.seen, e.pair, e.tx);
    grows = ground (arith, e.binds, e.sent, e.seen, e.pair, e.tx);
    base = ground arith;
    fits = λ heard known. ground (arith, known, e.binds, e.sent, e.seen);
    half_said = ground (arith, e.binds, e.sent, e.seen);
    ok_said = ground (arith, e.binds, e.sent, e.seen);
  }

  pub hear_ok-Says : Says os x (hear_word os x ok)
  unfolding hear_word
  hear_ok-Says = record {
    end = ground (arith, e.binds, e.sent, e.seen, e.pair, e.tx);
    grows = ground arith;
    base = refl;
    fits = λ heard known. tt;
    half_said = ground arith;
    ok_said = ground arith;
  }

  pub hear_aside-Says : Says os x (hear_word os x aside)
  unfolding hear_word
  hear_aside-Says = record {
    end = e;
    grows = ground arith;
    base = refl;
    fits = λ heard known. tt;
    half_said = ground arith;
    ok_said = ground arith;
  }

  -- The way out, after any of these.
  pub out-Way :
      (y : Keying) (ws : List Word) (r : List Word × Keying)
      → Says os x r
      → Way x y ws
      → Way r.1 y (ws ++ r.0)
  out-Way y ws r s w =
      Way-says x r.1 y ws r.0 s.grows w (s.fits (y.seen || has_half ws) w.half_due) s.half_said
        s.ok_said

  -- The way in, after an offer and after each word.
  pub offer-Way :
      (y : Keying) (ws : List Word) (h : List ℕ) → Way y x ws → Way y (offer_word os x h).1 ws
  unfolding offer_word bind_word
  offer-Way y ws h w = rebuild
    where
      k : Keying
      k = (offer_word os x h).1

      same_seen : k.seen ≡ x.seen
      same_seen = ground arith

      same_tx : k.tx ≡ x.tx
      same_tx = ground arith

      same_theirs : k.theirs ≡ x.theirs
      same_theirs = ground arith

      rebuild : Way y k ws
      rebuild = record {
        fits = subst (λ b. Fits y b ws) (sym same_seen) w.fits;
        sent = λ s. w.sent (sym same_seen ∙ s);
        theirs = λ s. same_theirs ∙ w.theirs (sym same_seen ∙ s);
        ready = λ s. w.ready (sym same_tx ∙ s);
        half_due = λ s. ground (arith, same_seen, w.half_due s);
        ok_due = λ s. ground (arith, same_tx, w.ok_due s);
      }

  pub hear_half-Way :
      (y : Keying) (ws : List Word) (h : List ℕ)
      → Way y x (half h ∷ ws)
      → Way y (hear_word os x (half h)).1 ws
  unfolding hear_word bind_word
  hear_half-Way y ws h w = rebuild
    where
      k : Keying
      k = (hear_word os x (half h)).1

      now_seen : k.seen ≡ true
      now_seen = ground arith

      same_tx : k.tx ≡ x.tx
      same_tx = ground arith

      now_theirs : k.theirs ≡ h
      now_theirs = ground arith

      rebuild : Way y k ws
      rebuild = record {
        fits = subst (λ b. Fits y b ws) (sym now_seen) w.fits.2;
        sent = λ s. w.fits.0;
        theirs = λ s. now_theirs ∙ w.fits.1;
        ready = λ s. w.ready (sym same_tx ∙ s);
        half_due = λ s. ground (arith, now_seen);
        ok_due = λ s. ground (arith, same_tx, w.ok_due s);
      }

  pub hear_ok-Way :
      (y : Keying) (ws : List Word)
      → x.sent ≡ true
      → Way y x (ok ∷ ws)
      → Way y (hear_word os x ok).1 ws
  unfolding hear_word
  hear_ok-Way y ws out w = record {
    fits = w.fits.2;
    sent = w.sent;
    theirs = w.theirs;
    ready = λ s. w.fits.0;
    half_due = w.half_due;
    ok_due = λ s. ground (arith, e.binds out w.fits.1);
  }

  pub hear_aside-Way :
      (y : Keying) (ws : List Word) → Way y x ws → Way y (hear_word os x aside).1 ws
  unfolding hear_word
  hear_aside-Way y ws w = w
