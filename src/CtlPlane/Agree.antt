-- ===== src/CtlPlane/Agree.antt =====
-- Two ends and the two channels between them, each in order (src/ctlplane.c): the moves that either
-- end makes, from two new planes on one base key.
pub mod Keying
pub mod Ways
pub mod Traffic
pub mod Moves
pub mod Keyed
use comrade.Prelude.{
  ℕ, Bool, true, false, not, ◌&&◌, ◌||◌, Option, none, some, List, [], ◌∷◌, ◌++◌, ◌==◌,
  if◌then◌else◌, take, replicate,
}
use comrade.Paths.Ep.{Os}
use comrade.Seal.{Aead}
use comrade.ProbePlane.{Call, call_reset, call_bind, call_tx_ready}
use comrade.CtlPlane.{Ctl, Sinks, Effect, send, init, ctlm_key, ctlm_keyok}
use comrade.CtlPlane.Say.{offer_key}
use comrade.CtlPlane.Hear.{on_msg}

-- A message on a channel: its type and its payload.
abbrev pub Message : Type 0
Message = ℕ × List ℕ

pub record World : Type 0 where
  pub left : Ctl
  pub right : Ctl
  pub to_right : List Message
  pub to_left : List Message

-- What the left end can do. A drawn half is cut or filled up to 32 bytes; what it says beside the
-- exchange of keys is any message of another type; traffic seals and opens frames.
pub data Move : Type 0 where
  offer : (random : List ℕ) → Move
  say : Message → Move
  hear : Sinks → (netgen now : ℕ) → Move
  traffic : Call → Move

unfoldable pub sends : List Effect → List Message
sends [] = []
sends (send type payload ∷ es) = (type, payload) ∷ sends es
sends (_ ∷ es) = sends es

unfoldable pub half32 : List ℕ → List ℕ
half32 random = take 32 (random ++ replicate 32 0)

abbrev pub agrees_keys : Call → Bool
agrees_keys call_reset = true
agrees_keys (call_bind half_out half_in) = true
agrees_keys call_tx_ready = true
agrees_keys _ = false

module _ (os : Os) (aead : Aead) where
  unfoldable pub hear_next : Sinks → (netgen now : ℕ) → World → List Message → World
  hear_next k netgen now w [] = w
  hear_next k netgen now w (m ∷ rest) =
      let r = (on_msg os w.left k m.0 m.1 netgen now).1 in
      record w { left = r.1; to_right = w.to_right ++ sends r.0; to_left = rest }

  unfoldable pub move_left : Move → World → World
  move_left (offer random) w =
      let r = offer_key os w.left (some (half32 random)) in
      record w { left = r.2; to_right = w.to_right ++ sends r.1 }
  move_left (say m) w =
      if m.0 == ctlm_key || m.0 == ctlm_keyok
      then w
      else record w { to_right = w.to_right ++ (m ∷ []) }
  move_left (hear k netgen now) w = hear_next k netgen now w w.to_left
  move_left (traffic call) w =
      if agrees_keys call
      then w
      else record w { left = record w.left { pp = comrade.ProbePlane.step os aead w.left.pp call } }

  abbrev pub flip : World → World
  flip w = record { left = w.right; right = w.left; to_right = w.to_left; to_left = w.to_right }

  -- A move of the left end (true) or of the right one.
  unfoldable pub move : Bool × Move → World → World
  move (true, m) w = move_left m w
  move (false, m) w = flip (move_left m (flip w))

  unfoldable pub play : World → List (Bool × Move) → World
  play w [] = w
  play w (m ∷ ms) = play (move m w) ms

unfoldable pub new_world : (magic : ℕ) (base : List ℕ) (seq_left seq_right : ℕ) → World
new_world magic base seq_left seq_right = record {
  left = init (comrade.ProbePlane.init magic base seq_left);
  right = init (comrade.ProbePlane.init magic base seq_right);
  to_right = [];
  to_left = [];
}
