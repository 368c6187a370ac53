-- ===== src/NsFacts/Tests.antt =====
-- Facts posted and taken in two rounds (src/nsfacts.c).
use comrade.Prelude.{ℕ, ◌≡◌, refl, List, [], ◌∷◌, take, drop, length}
use comrade.NsFacts.{Facts, roundtrip, probe_done, init, post, post_addr, holds_addr, take_facts}
use comrade.NsFacts.Queue.{pending, take_facts-pending}

abbrev home_addr : List ℕ
home_addr = 192 ∷ 0 ∷ 2 ∷ 1 ∷ []

posted : Facts
unfolding init post post_addr
posted =
    post_addr (post_addr (post (post init probe_done 6 2) roundtrip 4 1) 4 1 home_addr) 4 1
      home_addr

posted_count : length (pending posted) ≡ 3
unfolding posted pending init post post_addr holds_addr
posted_count = refl

take_facts-pending_example :
    ((take_facts posted 2).0 ≡ take 2 (pending posted))
    × (pending (take_facts posted 2).1 ≡ drop 2 (pending posted))
take_facts-pending_example = take_facts-pending posted 2
