-- ===== src/CtlPlane/Tests/Keys.antt =====
-- An exchange of keys in one of its orders (src/ctlplane.c).
use comrade.Prelude.{ℕ, ◌≡◌, refl, Bool, true, false, some, List, [], ◌∷◌, take, replicate}
use comrade.Samples.{summing, summing-IsDigest, clear, body}
use comrade.Replay.Defs.{replay_ok, advance}
use comrade.Keys.{conn_key}
use comrade.DataAuth.{wrap, tag_of}
use comrade.ProbePlane.{bind, tx_ready, plane_wrap, unwrap}
use comrade.CtlPlane.{init}
use comrade.CtlPlane.Say.{offer_key, key_bind}
use comrade.CtlPlane.Hear.{on_msg, on_key, on_keyok, on_ping, on_pong}
use comrade.CtlPlane.Agree.{
  World, Move, offer, say, hear, play, move, move_left, new_world, hear_next, sends, half32,
}
use comrade.CtlPlane.Agree.Keyed.{sealing-keyed, settled-keyed, keyed-unwrap}
use comrade.CtlPlane.Tests.{all_ready}

-- The left end offers late, after it has heard the peer's half.
abbrev moves : List (Bool × Move)
moves =
    (false, offer (3 ∷ 4 ∷ []))
    ∷ (true, hear all_ready 0 0)
    ∷ (true, say (0, replicate 8 0))
    ∷ (true, offer (1 ∷ 2 ∷ []))
    ∷ (false, hear all_ready 0 0)
    ∷ (false, hear all_ready 0 0)
    ∷ (false, hear all_ready 0 0)
    ∷ (true, hear all_ready 0 0)
    ∷ (true, hear all_ready 0 0)
    ∷ []

abbrev done : World
done = play summing clear (new_world 7 (1 ∷ 2 ∷ []) 257 300) moves

sealing-keyed_example : (done.right.pp.pair_ready ≡ true) × (done.right.pp.pair ≡ done.left.pp.pair)
unfolding play move move_left new_world hear_next sends half32 init comrade.ProbePlane.init
    offer_key key_bind on_msg on_key on_keyok on_pong on_ping bind tx_ready
sealing-keyed_example = sealing-keyed summing clear 7 (1 ∷ 2 ∷ []) 257 300 moves refl

settled-keyed_example :
    (done.left.pp.pair_tx ≡ true)
    × (done.right.pp.pair_tx ≡ true)
    × (done.right.pp.pair ≡ done.left.pp.pair)
unfolding play move move_left new_world hear_next sends half32 init comrade.ProbePlane.init
    offer_key key_bind on_msg on_key on_keyok on_pong on_ping bind tx_ready
settled-keyed_example = settled-keyed summing clear 7 (1 ∷ 2 ∷ []) 257 300 moves refl refl refl refl

abbrev keyed_wire : List ℕ
keyed_wire = 10 ∷ 20 ∷ 0 ∷ 0 ∷ 0 ∷ 0 ∷ 0 ∷ 0 ∷ 1 ∷ 2 ∷ replicate 16 45

keyed-unwrap_example :
    ((unwrap summing done.right.pp keyed_wire).0 ≡ some 2) × (take 2 keyed_wire ≡ body)
unfolding play move move_left new_world hear_next sends half32 init comrade.ProbePlane.init
    offer_key key_bind on_msg on_key on_keyok on_pong on_ping bind tx_ready plane_wrap wrap tag_of
    conn_key replay_ok advance
keyed-unwrap_example =
    keyed-unwrap summing clear 7 (1 ∷ 2 ∷ []) 257 300 moves 64 body keyed_wire summing-IsDigest refl
      refl refl
