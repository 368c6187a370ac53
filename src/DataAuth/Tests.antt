-- ===== src/DataAuth/Tests.antt =====
-- A tagged datagram (src/dataauth.c), with a digest that sums.
use comrade.Prelude.{◌≡◌, refl, none, some, [], ◌∷◌}
use comrade.Samples.{summing, key, body, wire}
use comrade.DataAuth.{wrap, open_body, tag_of, tag_eq, differing}

wrap_run : wrap summing 64 key body 258 ≡ some wire
unfolding wrap tag_of
wrap_run = refl

open_body_run : open_body summing key wire ≡ some (2, 258)
unfolding open_body tag_of tag_eq differing
open_body_run = refl

-- Under another key.
open_body_other : open_body summing (3 ∷ []) wire ≡ none
unfolding open_body tag_of tag_eq differing
open_body_other = refl
