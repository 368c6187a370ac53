-- ===== src/CtlPlane/Agree/Keying.antt =====
-- What the exchange of keys sees of an end and of a message, and how the operations of
-- src/ctlplane.c move it.
use comrade.Prelude.{
  ℕ, ◌≤◌, Bool, true, false, not, ◌&&◌, ◌||◌, Option, none, some, List, [], ◌∷◌, ◌++◌, ◌≡◌, refl,
  sym, ap, ◌∙◌, subst, arith, leb, ◌==◌, if◌then◌else◌, length, take, Bool-cases, inl, inr,
}
use comrade.Paths.Ep.{Os, Sockaddr, in4, in6, unspec}
use comrade.Keys.{conn_key}
use comrade.CtlProto.{rdv_decode, txsel_decode}
use comrade.ProbePlane.{bind, tx_ready}
use comrade.CtlPlane.{Ctl, Sinks, Effect, others, ctlm_key, ctlm_keyok}
use comrade.CtlPlane.Say.{key_bind, offer_key}
use comrade.CtlPlane.Hear.{
  on_ping, on_pong, on_rdv, on_reach, on_key, on_keyok, on_rdvask, on_txsel, on_txack, on_cand,
  on_msg, hold_txsel, hold_txack, note_node,
}
use comrade.CtlPlane.Ops.{on_msg-keeps}
use comrade.CtlPlane.Agree.{Message, sends}

pub record Keying : Type 0 where
  pub sent : Bool
  pub seen : Bool
  pub ready : Bool
  pub tx : Bool
  pub mine : List ℕ
  pub theirs : List ℕ
  pub base : List ℕ
  pub pair : List ℕ

unfoldable pub keying : Ctl → Keying
keying c = record {
  sent = c.half_sent;
  seen = c.half_seen;
  ready = c.pp.pair_ready;
  tx = c.pp.pair_tx;
  mine = c.half_out;
  theirs = c.half_in;
  base = c.pp.base;
  pair = c.pp.pair;
}

-- A half, the word that the pair key opens frames, or anything else.
pub data Word : Type 0 where
  half : List ℕ → Word
  ok aside : Word

unfoldable pub word : Message → Word
word m =
    if m.0 == ctlm_key && leb 32 (length m.1)
    then half (take 32 m.1)
    else if m.0 == ctlm_keyok
    then ok
    else aside

abbrev pub add : Word → List Word → List Word
add aside ws = ws
add w ws = w ∷ ws

-- What a channel holds of the exchange; all else is left out.
unfoldable pub words : List Message → List Word
words [] = []
words (m ∷ ms) = add (word m) (words ms)

unfoldable pub bind_word : Os → Keying → List Word × Keying
bind_word os k =
    if k.ready || (not k.sent || not k.seen)
    then ([], k)
    else (ok ∷ [], record k { ready = true; pair = conn_key os k.base k.mine k.theirs })

unfoldable pub offer_word : Os → Keying → List ℕ → List Word × Keying
offer_word os k h =
    let bound = bind_word os (record k { sent = true; mine = h }) in
    if k.sent then ([], k) else (half h ∷ bound.0, bound.1)

unfoldable pub hear_word : Os → Keying → Word → List Word × Keying
hear_word os k (half h) = bind_word os (record k { seen = true; theirs = h })
hear_word os k ok = ([], record k { tx = k.tx || k.ready })
hear_word os k aside = ([], k)

-- An outcome of the code, as the exchange sees it.
abbrev pub seen_as : List Effect × Ctl → List Word × Keying
seen_as r = (words (sends r.0), keying r.1)

add-append : (w : Word) (vs ws : List Word) → add w (vs ++ ws) ≡ add w vs ++ ws
add-append (half h) vs ws = refl
add-append ok vs ws = refl
add-append aside vs ws = refl

pub words-append : (ms ns : List Message) → words (ms ++ ns) ≡ words ms ++ words ns
unfolding words
words-append [] ns = refl
words-append (m ∷ ms) ns =
    ap (add (word m)) (words-append ms ns) ∙ add-append (word m) (words ms) (words ns)

module _ (os : Os) where
  pub key_bind-word : (c : Ctl) → seen_as (key_bind os c) ≡ bind_word os (keying c)
  unfolding key_bind bind_word keying words word sends bind
  key_bind-word c = ground arith

  pub offer_key-word :
      (c : Ctl) (h : List ℕ)
      → length h ≡ 32
      → take 32 h ≡ h
      → (words (sends (offer_key os c (some h)).1) ≡ (offer_word os (keying c) h).0)
        × (keying (offer_key os c (some h)).2 ≡ (offer_word os (keying c) h).1)
  unfolding offer_key offer_word keying words word sends key_bind bind_word bind
  offer_key-word c h long whole = ground arith

  -- What the exchange does not see.
  Same : Ctl → List Effect × Ctl → Type 0
  Same c r = seen_as r ≡ ([], keying c)

  on_ping-Same : (c : Ctl) (k : Sinks) (pl : List ℕ) → Same c (on_ping c k pl)
  unfolding on_ping words word sends Same
  on_ping-Same c k pl = ground arith

  on_pong-Same :
      (c : Ctl) (k : Sinks) (pl : List ℕ) (netgen now : ℕ) → Same c (on_pong c k pl netgen now)
  unfolding on_pong words word sends Same keying
  on_pong-Same c k pl netgen now = ground arith

  on_cand-Same : (c : Ctl) (k : Sinks) (pl : List ℕ) → Same c (on_cand c k pl)
  unfolding on_cand words word sends Same
  on_cand-Same c k pl = ground arith

  other-Same :
      (c : Ctl) (k : Sinks) (type : ℕ) (pl : List ℕ)
      → Same c ((if k.other then others type pl ∷ [] else []), c)
  unfolding words word sends Same
  other-Same c k type pl = ground arith

  on_reach-Same : (c : Ctl) (pl : List ℕ) → Same c ([], on_reach c pl)
  unfolding on_reach words sends Same keying
  on_reach-Same c pl = refl

  on_rdvask-Same : (c : Ctl) (pl : List ℕ) → Same c ([], on_rdvask c pl)
  unfolding on_rdvask words sends Same keying
  on_rdvask-Same c pl = ground arith

  note_node-Same :
      (c : Ctl) (status : ℕ) (sa : Option Sockaddr) → Same c ([], note_node c status sa)
  unfolding words sends Same keying
  note_node-Same c status none = refl
  note_node-Same c status (some (in6 addr port scope)) = refl
  note_node-Same c status (some (in4 addr port)) = refl
  note_node-Same c status (some unspec) = refl

  hold_txsel-Same : (c : Ctl) (t : Option (ℕ × List ℕ × ℕ)) → Same c ([], hold_txsel c t)
  unfolding hold_txsel words sends Same keying
  hold_txsel-Same c none = refl
  hold_txsel-Same c (some (seq, id, flags)) = ground arith

  hold_txack-Same : (c : Ctl) (t : Option (ℕ × List ℕ × ℕ)) → Same c ([], hold_txack c t)
  unfolding hold_txack words sends Same keying
  hold_txack-Same c none = refl
  hold_txack-Same c (some (seq, id, flags)) = ground arith

  key-word :
      (type : ℕ) (pl : List ℕ)
      → type ≡ ctlm_key
      → 32 ≤ length pl
      → word (type, pl) ≡ half (take 32 pl)
  unfolding word
  key-word type pl is long = ground arith

  ok-word : (type : ℕ) (pl : List ℕ) → type ≡ ctlm_keyok → word (type, pl) ≡ ok
  unfolding word
  ok-word type pl is = ground arith

  aside-word :
      (type : ℕ) (pl : List ℕ)
      → (type == ctlm_key && leb 32 (length pl)) ≡ false
      → (type == ctlm_keyok) ≡ false
      → word (type, pl) ≡ aside
  unfolding word
  aside-word type pl no_key no_ok = ground arith

  on_key-word :
      (c : Ctl) (pl : List ℕ)
      → seen_as (on_key os c pl) ≡ hear_word os (keying c) (half (take 32 pl))
  unfolding on_key hear_word keying key_bind bind_word words word sends bind
  on_key-word c pl = ground arith

  on_keyok-word : (c : Ctl) → seen_as ([], on_keyok os c) ≡ hear_word os (keying c) ok
  unfolding on_keyok hear_word keying words sends tx_ready
  on_keyok-word c = ground arith

  on_msg-key :
      (c : Ctl) (k : Sinks) (pl : List ℕ) (netgen now : ℕ)
      → leb 32 (length pl) ≡ true
      → (on_msg os c k ctlm_key pl netgen now).1 ≡ on_key os c pl
  unfolding on_msg
  on_msg-key c k pl netgen now long = ground arith

  on_msg-keyok :
      (c : Ctl) (k : Sinks) (pl : List ℕ) (netgen now : ℕ)
      → (on_msg os c k ctlm_keyok pl netgen now).1 ≡ ([], on_keyok os c)
  unfolding on_msg
  on_msg-keyok c k pl netgen now = refl

  on_msg-Same :
      (c : Ctl) (k : Sinks) (type : ℕ) (pl : List ℕ) (netgen now : ℕ)
      → (type == ctlm_key && leb 32 (length pl)) ≡ false
      → (type == ctlm_keyok) ≡ false
      → Same c (on_msg os c k type pl netgen now).1
  unfolding on_rdv on_txsel on_txack
  on_msg-Same c k type pl netgen now no_key no_ok =
      on_msg-keeps os (Same c) c k type pl netgen now (on_ping-Same c k pl)
        (on_pong-Same c k pl netgen now) (note_node-Same c _ (rdv_decode pl)) (on_reach-Same c pl)
        (λ is long. absurd (ground (arith, no_key, is, long)))
        (λ is. absurd (ground (arith, no_ok, is))) (on_rdvask-Same c pl)
        (hold_txsel-Same c (txsel_decode pl)) (λ is. hold_txack-Same c (txsel_decode pl))
        (on_cand-Same c k pl) (other-Same c k type pl)

  -- What `ctlplane_on_msg` does is what the exchange does with the word.
  pub on_msg-word :
      (c : Ctl) (k : Sinks) (type : ℕ) (pl : List ℕ) (netgen now : ℕ)
      → seen_as (on_msg os c k type pl netgen now).1 ≡ hear_word os (keying c) (word (type, pl))
  unfolding word Same hear_word
  on_msg-word c k type pl netgen now = elim (Bool-cases (type == ctlm_key && leb 32 (length pl))) [
    | inl key ↦
        let is : type ≡ 6 = ground arith in
        let long : leb 32 (length pl) ≡ true = ground arith in
        subst
          (λ t. seen_as (on_msg os c k t pl netgen now).1 ≡ hear_word os (keying c) (word (t, pl)))
          (sym is)
          (ap seen_as (on_msg-key c k pl netgen now long)
            ∙ on_key-word c pl
            ∙ ap (hear_word os (keying c)) (sym (key-word 6 pl refl (ground arith))))
    | inr no_key ↦ elim (Bool-cases (type == ctlm_keyok)) [
      | inl is ↦
          subst
            (λ t.
              seen_as (on_msg os c k t pl netgen now).1 ≡ hear_word os (keying c) (word (t, pl)))
            (sym (is_keyok type is))
            (ap seen_as (on_msg-keyok c k pl netgen now)
              ∙ on_keyok-word c
              ∙ ap (hear_word os (keying c)) (sym (ok-word 7 pl refl)))
      | inr no_ok ↦
          on_msg-Same c k type pl netgen now no_key no_ok
          ∙ ap (hear_word os (keying c)) (sym (aside-word type pl no_key no_ok))
    ]
  ]
    where
      is_keyok : (t : ℕ) → (t == ctlm_keyok) ≡ true → t ≡ 7
      is_keyok t e = ground arith
