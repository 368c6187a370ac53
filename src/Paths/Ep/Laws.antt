-- ===== src/Paths/Ep/Laws.antt =====
-- The endpoint codec, the socket address round trip, and the path id that both ends derive.
use comrade.Prelude.{
  get_or-append_right, ℕ, ◌+◌, ◌*◌, ◌/◌, ◌%◌, ◌^◌, ◌≡◌, ap, true, some, List, [], ◌∷◌, ◌++◌, arith,
  memcmp-flip, memcmp→eq, take, take_append_at, append_assoc, byte, ◌<◌, ◌≤◌,
}
use comrade.Paths.Ep.{
  Ep, IsEp, Os, pack, unpack, ep_eq, from_sockaddr, to_sockaddr, id_message, id_calc,
}

port_split : (p : ℕ) → p < 2 ^ 16 → (byte (p / 2 ^ 8) * 2 ^ 8 + byte p) % 2 ^ 16 ≡ p
port_split p small = omega arith

-- Unpacking the 18 bytes of a packed endpoint (16 address bytes and a port of 16 bits) gives the
-- endpoint back, whatever follows them.
pub unpack-pack_more : (e : Ep) (more : List ℕ) → IsEp e → unpack (pack e ++ more) ≡ e
unfolding unpack pack
unpack-pack_more e more v =
    let rest = byte (e.port / 2 ^ 8) ∷ byte e.port ∷ more in
    rw (
      append_assoc e.addr (byte (e.port / 2 ^ 8) ∷ byte e.port ∷ []) more,
      take_append_at 16 e.addr rest v.wide,
      get_or-append_right e.addr rest 0 16 0 (omega (arith, v.wide)),
      get_or-append_right e.addr rest 1 17 0 (omega (arith, v.wide)),
      port_split e.port v.small,
    )

-- An endpoint survives the way through a sockaddr_in6.
pub from-to_sockaddr : (e : Ep) (len : ℕ) → 28 ≤ len → from_sockaddr (to_sockaddr e) len ≡ some e
unfolding from_sockaddr to_sockaddr
from-to_sockaddr e len h = ground arith

pub ep_eq→eq : (a b : Ep) → ep_eq a b ≡ true → a ≡ b
unfolding ep_eq
ep_eq→eq a b h = ground (arith, memcmp→eq a.addr b.addr)

id_message_comm : (os : Os) (a b : Ep) → id_message os a b ≡ id_message os b a
unfolding id_message
id_message_comm os a b = ground (arith, memcmp-flip (pack a) (pack b), memcmp→eq (pack a) (pack b))

-- Both ends derive one id from the pair of endpoints, whichever of the two each calls its own.
pub id_calc_comm : (os : Os) (key : List ℕ) (a b : Ep) → id_calc os key a b ≡ id_calc os key b a
unfolding id_calc
id_calc_comm os key a b = ap (λ m. take 8 (os.blake2b_keyed 32 key m)) (id_message_comm os a b)
