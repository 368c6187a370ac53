-- ===== src/CtlPlane/Agree/Keyed.antt =====
-- Where an exchange of keys gets to, whatever the order of its moves (src/ctlplane.c).
use comrade.Prelude.{
  ℕ, ◌+◌, ◌%◌, ◌^◌, Bool, true, some, List, [], ◌≡◌, inl, sym, ap, ap₂, ◌∙◌, subst, arith, length,
  take,
}
use comrade.Paths.Ep.{Os}
use comrade.Seal.{Aead}
use comrade.Keys.{conn_key}
use comrade.Keys.Laws.{conn_key_comm}
use comrade.ProbePlane.{plane_wrap, unwrap}
use comrade.CtlPlane.Agree.{World, Move, play, new_world}
use comrade.CtlPlane.Agree.Keying.{Keying, keying, Word, words}
use comrade.Replay.Defs.{replay_ok}
use comrade.DataAuth.Laws.{IsDigest}
use comrade.ProbePlane.Paired.{unwrap-wrap}
use comrade.CtlPlane.Agree.Moves.{Inv, Pair, play-Inv, start-Inv}

both-pair :
    (os : Os) (x y : Keying) (out back : List Word)
    → Pair os x y out back
    → x.ready ≡ true
    → y.ready ≡ true
    → y.pair ≡ x.pair
both-pair os x y out back p rx ry =
    p.that.pair ry
    ∙ ap (λ b. conn_key os b y.mine y.theirs) (sym p.base)
    ∙ ap₂ (conn_key os x.base) (sym (p.here.theirs (p.this.seen rx)))
        (p.there.theirs (p.that.seen ry))
    ∙ conn_key_comm os x.base x.theirs x.mine
    ∙ sym (p.this.pair rx)

settled-Pair :
    (os : Os) (x y : Keying)
    → Pair os x y [] []
    → x.sent ≡ true
    → y.sent ≡ true
    → (x.tx ≡ true) × (y.tx ≡ true) × (y.pair ≡ x.pair)
settled-Pair os x y p sx sy =
    let seen_y : y.seen ≡ true = ground (arith, p.there.half_due sx) in
    let seen_x : x.seen ≡ true = ground (arith, p.here.half_due sy) in
    let rx = p.this.binds sx seen_x in
    let ry = p.that.binds sy seen_y in
    (
      ground (arith, p.here.ok_due ry),
      ground (arith, p.there.ok_due rx),
      both-pair os x y [] [] p rx ry,
    )

module _ (os : Os) (aead : Aead) (magic : ℕ) (base : List ℕ) (seq_left seq_right : ℕ)
    (ms : List (Bool × Move)) where
  reached : World
  reached = play os aead (new_world magic base seq_left seq_right) ms

  reached-Inv : Inv os reached
  unfolding reached
  reached-Inv =
      play-Inv os aead ms (new_world magic base seq_left seq_right)
        (start-Inv os aead magic base seq_left seq_right)

  -- From two new ends on one base key, by any moves of either in any order (offers, other messages,
  -- sealed and opened frames, deliveries in the order of each channel): an end that seals with its
  -- pair key has a peer that has one too, and it is the same key.
  pub sealing-keyed :
      (play os aead (new_world magic base seq_left seq_right) ms).left.pp.pair_tx ≡ true
      → ((play os aead (new_world magic base seq_left seq_right) ms).right.pp.pair_ready ≡ true)
        × ((play os aead (new_world magic base seq_left seq_right) ms).right.pp.pair
            ≡ (play os aead (new_world magic base seq_left seq_right) ms).left.pp.pair)
  unfolding reached keying
  sealing-keyed tx =
      let w = play os aead (new_world magic base seq_left seq_right) ms in
      let ready = reached-Inv.here.ready tx in
      (
        ready,
        both-pair os (keying w.left) (keying w.right) (words w.to_right) (words w.to_left)
            reached-Inv (reached-Inv.this.tx tx) ready,
      )

  -- However the moves were ordered: where both ends have offered a half and nothing is on the way
  -- any more, both seal with the pair key, and it is the same at both.
  pub settled-keyed :
      (play os aead (new_world magic base seq_left seq_right) ms).left.half_sent ≡ true
      → (play os aead (new_world magic base seq_left seq_right) ms).right.half_sent ≡ true
      → (play os aead (new_world magic base seq_left seq_right) ms).to_right ≡ []
      → (play os aead (new_world magic base seq_left seq_right) ms).to_left ≡ []
      → ((play os aead (new_world magic base seq_left seq_right) ms).left.pp.pair_tx ≡ true)
        × ((play os aead (new_world magic base seq_left seq_right) ms).right.pp.pair_tx ≡ true)
        × ((play os aead (new_world magic base seq_left seq_right) ms).right.pp.pair
            ≡ (play os aead (new_world magic base seq_left seq_right) ms).left.pp.pair)
  unfolding reached keying words
  settled-keyed sl sr er el =
      let w = play os aead (new_world magic base seq_left seq_right) ms in
      settled-Pair os (keying w.left) (keying w.right)
        (subst (λ q. Pair os (keying w.left) (keying w.right) [] (words q)) el
          (subst (λ q. Pair os (keying w.left) (keying w.right) (words q) (words w.to_left)) er
            reached-Inv))
        sl sr

  -- By any such moves: a datagram that an end which seals with its pair key wraps is delivered by
  -- the peer with its length and its bytes, where the peer's window has not seen the number.
  pub keyed-unwrap :
      (out_max : ℕ) (body wire : List ℕ)
      → IsDigest os
      → (play os aead (new_world magic base seq_left seq_right) ms).left.pp.pair_tx ≡ true
      → (replay_ok (play os aead (new_world magic base seq_left seq_right) ms).right.pp.data_rx (
          ((play os aead (new_world magic base seq_left seq_right) ms).left.pp.data_seq + 1)
          % 2 ^ 64)).0
        ≡ true
      → (plane_wrap os
          (play os aead (new_world magic base seq_left seq_right) ms).left.pp
          out_max
          body).0
        ≡ some wire
      → ((unwrap os (play os aead (new_world magic base seq_left seq_right) ms).right.pp wire).0
          ≡ some (length body))
        × (take (length body) wire ≡ body)
  keyed-unwrap out_max body wire digest tx new wrapped =
      let w = play os aead (new_world magic base seq_left seq_right) ms in
      let (ready, same) = sealing-keyed tx in
      unwrap-wrap os w.left.pp w.right.pp out_max body wire digest (inl (tx, ready, same)) new
        wrapped
