-- ===== src/Paths/Ep.antt =====
-- The canonical endpoint of src/path.h and the `path_ep_` functions of src/path.c. An address is
-- its 16 bytes; a port is kept in host order, as the source keeps it.
pub mod Laws
use comrade.Prelude.{
  ℕ, ◌+◌, ◌-◌, ◌*◌, ◌/◌, ◌%◌, ◌^◌, ◌<◌, ◌≡◌, Bool, true, false, not, ◌&&◌, Option, none, some, List,
  [], ◌∷◌, ◌++◌, ltb, leb, ◌==◌, if◌then◌else◌, byte, IsByte, bytes_eq, memcmp, is_lt, take, drop,
  get_or, length, All, Ordering,
}
use Prim.Native.Nat.{gt}
use comrade.Prelude.Decimal.{decimal}

-- `struct path_ep`
pub record Ep : Type 0 where
  pub addr : List ℕ
  pub port : ℕ

pub record IsEp (e : Ep) : Type 0 where
  pub wide : length e.addr ≡ 16
  pub bytes : All IsByte e.addr
  pub small : e.port < 2 ^ 16

-- What a `struct sockaddr` may hold, by its family; ports in host order. `unspec` is any other
-- family, and a zeroed one.
pub data Sockaddr : Type 0 where
  in6 : (addr : List ℕ) (port scope : ℕ) → Sockaddr
  in4 : (addr : List ℕ) (port : ℕ) → Sockaddr
  unspec : Sockaddr

pub data Family : Type 0 where
  inet inet6 : Family

abbrev pub v4_prefix : List ℕ
v4_prefix = 0 ∷ 0 ∷ 0 ∷ 0 ∷ 0 ∷ 0 ∷ 0 ∷ 0 ∷ 0 ∷ 0 ∷ 0xff ∷ 0xff ∷ []

abbrev pub zero_addr : List ℕ
zero_addr = 0 ∷ 0 ∷ 0 ∷ 0 ∷ 0 ∷ 0 ∷ 0 ∷ 0 ∷ 0 ∷ 0 ∷ 0 ∷ 0 ∷ 0 ∷ 0 ∷ 0 ∷ 0 ∷ []

abbrev pub zero_ep : Ep
zero_ep = record { addr = zero_addr; port = 0 }

unfoldable pub is_v4 : Ep → Bool
is_v4 e = bytes_eq (take 12 e.addr) v4_prefix

-- The byte at index `i`.
abbrev pub octet : List ℕ → ℕ → ℕ
octet bs i = get_or bs i 0

unfoldable pub v4_is_unicast : List ℕ → Bool
v4_is_unicast a =
    if leb 224 (octet a 0)
    then false
    else if octet a 0 == 255 && (octet a 1 == 255 && (octet a 2 == 255 && octet a 3 == 255))
    then false
    else if octet a 0 == 0
    then false
    else true

unfoldable pub is_unicast : Ep → Bool
unfolding is_v4 v4_is_unicast
is_unicast e =
    if is_v4 e
    then v4_is_unicast (drop 12 e.addr)
    else if octet e.addr 0 == 0xff
    then false
    else not (bytes_eq e.addr zero_addr)

unfoldable pub any : Ep → Bool
any e = e.port == 0 && bytes_eq e.addr zero_addr

unfoldable pub ep_eq : Ep → Ep → Bool
ep_eq a b = a.port == b.port && bytes_eq a.addr b.addr

unfoldable pub same_addr : Ep → Ep → Bool
same_addr a b = bytes_eq a.addr b.addr

-- `len` is the length that the caller gives; -1 is `none`.
unfoldable pub from_sockaddr : Sockaddr → ℕ → Option Ep
from_sockaddr (in6 addr port scope) len =
    if ltb len 28 then none else some (record { addr = addr; port = port })
from_sockaddr (in4 addr port) len =
    if ltb len 16 then none else some (record { addr = v4_prefix ++ addr; port = port })
from_sockaddr unspec len = none

unfoldable pub to_sockaddr : Ep → Sockaddr
to_sockaddr e = in6 e.addr e.port 0

-- PATH_EP_LEN
abbrev pub ep_len : ℕ
ep_len = 18

unfoldable pub pack : Ep → List ℕ
pack e = e.addr ++ (byte (e.port / 2 ^ 8) ∷ byte e.port ∷ [])

-- The two bytes of the port are disjoint fields, so `|` is a sum.
unfoldable pub unpack : List ℕ → Ep
unpack bs = record { addr = take 16 bs; port = (octet bs 16 * 2 ^ 8 + octet bs 17) % 2 ^ 16 }

-- What src/path.c takes from outside: `inet_ntop`, which may fail, and the keyed BLAKE2b of
-- src/ccrypto.h at an output length.
pub record Os : Type 0 where
  pub inet_ntop : Family → List ℕ → Option (List ℕ)
  pub blake2b_keyed : ℕ → List ℕ → List ℕ → List ℕ

module _ (os : Os) where
  -- `snprintf(out, n, ..)` keeps n - 1 characters. The text that stands in `out` is returned;
  -- it is empty when the address cannot be printed.
  unfoldable pub ep_str : Ep → ℕ → List ℕ
  unfolding is_v4
  ep_str e n =
      if is_v4 e
      then elim (os.inet_ntop inet (drop 12 e.addr)) [
        | none ↦ []
        | some host ↦ take (n - 1) (host ++ (b':' ∷ decimal e.port))
      ]
      else elim (os.inet_ntop inet6 e.addr) [
        | none ↦ []
        | some host ↦ take (n - 1) ((b'[' ∷ host) ++ (b']' ∷ b':' ∷ decimal e.port))
      ]

  -- The pair in one order, whichever end is `a`.
  unfoldable pub id_message : Ep → Ep → List ℕ
  unfolding pack
  id_message a b = elim (memcmp (pack a) (pack b)) [ gt ↦ pack b ++ pack a | _ ↦ pack a ++ pack b ]

  unfoldable pub id_calc : List ℕ → Ep → Ep → List ℕ
  unfolding id_message
  id_calc sig_key a b = take 8 (os.blake2b_keyed 32 sig_key (id_message a b))
