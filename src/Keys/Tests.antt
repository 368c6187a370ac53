-- ===== src/Keys/Tests.antt =====
-- The key schedule on small inputs (src/keys.c).
use comrade.Prelude.{ℕ, ◌≡◌, refl, some, List, [], ◌∷◌, ◌++◌, arith, replicate}
use comrade.Samples.{summing, plain_curve, plain_curve-IsCurve, clear, clear-IsAead}
use comrade.Keys.{box_seal, box_open, derive_tags, bswap32, box_key}
use comrade.Keys.Laws.{IsDistinct, derive_tags-IsDistinct, box_open-seal}

-- The digest repeats one byte, so the two tags are equal in every draw and the eighth is forced.
derive_tags-IsDistinct_example : IsDistinct (derive_tags summing (5 ∷ 6 ∷ []))
derive_tags-IsDistinct_example = derive_tags-IsDistinct summing (5 ∷ 6 ∷ [])

swapped : bswap32 0x01020304 ≡ 0x04030201
unfolding bswap32
swapped = refl

abbrev boxed : List ℕ
boxed = replicate 32 7 ++ (replicate 16 0 ++ (104 ∷ 105 ∷ []))

box_open-seal_example : box_open summing plain_curve clear 2 (1 ∷ []) boxed ≡ some (104 ∷ 105 ∷ [])
unfolding box_seal box_key
box_open-seal_example =
    box_open-seal summing plain_curve clear plain_curve-IsCurve clear-IsAead 64 2 (1 ∷ [])
      (replicate 32 7) (104 ∷ 105 ∷ []) (3 ∷ []) boxed refl (omega arith) refl
