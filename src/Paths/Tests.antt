-- ===== src/Paths/Tests.antt =====
-- Paths and tables that the tests of src/path.c run on.
mod Choice
mod Reuse
mod Measures
mod Wire
use comrade.Prelude.{ℕ, true, none, some, List, [], ◌∷◌, ◌++◌, map, take}
use comrade.Paths.Ep.{Ep, Os, Sockaddr, in4, v4_prefix}
use comrade.Paths.Types.{NetPath, zero_path, segment, routed}
use comrade.Paths.Table.{Table}
use comrade.Paths.Adopt.{Adopt, AdoptSrc, zero_src, zero_adopt}

-- An operating system that prints no address and whose digest is the message.
abbrev pub quiet : Os
quiet = record { inet_ntop = λ f bs. none; blake2b_keyed = λ n key msg. take n msg }

abbrev pub home : Ep
home = record { addr = v4_prefix ++ (192 ∷ 0 ∷ 2 ∷ 1 ∷ []); port = 4242 }

abbrev pub away : Ep
away = record { addr = v4_prefix ++ (198 ∷ 51 ∷ 100 ∷ 7 ∷ []); port = 9000 }

abbrev pub away_sa : Sockaddr
away_sa = in4 (198 ∷ 51 ∷ 100 ∷ 7 ∷ []) 9000

-- At 10000 ms: a path that answered a second ago, one that fell silent five seconds ago, and one
-- that is dead.
abbrev pub lively : NetPath
lively = record zero_path {
  used = true;
  usable = true;
  qualified = true;
  last_pong_ms = 9000;
  srtt8 = 320;
  peer_ep = home;
  agent = some 7;
}

abbrev pub fading : NetPath
fading = record lively { last_pong_ms = 5000; peer_ep = away; agent = none; kind = routed }

abbrev pub gone : NetPath
gone = record lively { last_pong_ms = 1000; peer_ep = away; agent = none }

abbrev pub empty3 : List NetPath
empty3 = zero_path ∷ zero_path ∷ zero_path ∷ []

-- The incumbent fades; a lively path stands beside it.
abbrev pub fading_choice : Table
fading_choice = record {
  p = fading ∷ lively ∷ zero_path ∷ zero_path ∷ zero_path ∷ empty3;
  sel = some 0;
}

abbrev pub lively_choice : Table
lively_choice = record fading_choice { sel = some 1 }

-- All slots are taken, two of them by dead paths.
abbrev pub full : Table
full = record {
  p = lively ∷ fading ∷ gone ∷ lively ∷ fading ∷ fading ∷ gone ∷ lively ∷ [];
  sel = some 0;
}
