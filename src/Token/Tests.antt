-- ===== src/Token/Tests.antt =====
-- A token with one direct endpoint, and a sum (src/token.c).
use comrade.Prelude.{ℕ, zero, suc, List, [], ◌∷◌, ◌≡◌, refl, arith}
use comrade.Token.{Token, ok, crc32, crc_from, crc_rounds, open_wire, wire_of}
use comrade.Token.Payload.{IsToken, open_wire-wire_of}

abbrev bytes : ℕ → ℕ → List ℕ
bytes zero b = []
bytes (suc n) b = b ∷ bytes n b

abbrev minted : Token
minted = record {
  version = 7;
  flags = 0x20;
  rdv = bytes 16 1;
  auth = bytes 16 2;
  hostpub = bytes 32 3;
  ep6_addr = bytes 16 0;
  ep6_port = 0;
  ep4_addr = 192 ∷ 0 ∷ 2 ∷ 1 ∷ [];
  ep4_port = 6881;
}

minted-IsToken : IsToken minted
minted-IsToken = record {
  rdv = refl;
  auth = refl;
  hostpub = refl;
  ep6_addr = refl;
  ep6_port = omega arith;
  ep4_addr = refl;
  ep4_port = omega arith;
}

-- The sum of "123456789".
check_value : crc32 (49 ∷ 50 ∷ 51 ∷ 52 ∷ 53 ∷ 54 ∷ 55 ∷ 56 ∷ 57 ∷ []) ≡ 0xcbf43926
unfolding crc32 crc_from crc_rounds
check_value = refl

open_wire-wire_of_example : open_wire (wire_of minted) ≡ ok minted
open_wire-wire_of_example = open_wire-wire_of minted minted-IsToken refl
