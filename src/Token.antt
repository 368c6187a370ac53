-- ===== src/Token.antt =====
-- The token that a host hands out (src/token.c): its payload, the sum over it, and the text in base 58.
-- The state of each family's slot (token_family_state, token_set_family) is not modelled.
pub mod Payload
mod Tests
use comrade.Prelude.{
  ℕ, zero, suc, ◌+◌, ◌-◌, ◌*◌, ◌/◌, ◌%◌, ◌^◌, Bool, not, ◌&&◌, ◌||◌, Option, none, some, List, [],
  ◌∷◌, ◌++◌, ltb, ◌==◌, if◌then◌else◌, length, take, drop, byte, bit_and, bit_or, get_or,
}
use comrade.Prelude.BigEndian.{be_bytes, be_value}
use Prim.Native.Nat.{bit_xor}
use comrade.Base58.{base58_encode, base58_decode}

abbrev pub token_version : ℕ
token_version = 7

abbrev pub token_rdv_len : ℕ
token_rdv_len = 16

abbrev pub token_auth_len : ℕ
token_auth_len = 16

abbrev pub token_hostpub_len : ℕ
token_hostpub_len = 32

abbrev pub token_ep6_len : ℕ
token_ep6_len = 16

abbrev pub token_ep4_len : ℕ
token_ep4_len = 4

abbrev pub token_raw_len : ℕ
token_raw_len = 90

abbrev pub token_wire_len : ℕ
token_wire_len = 94

abbrev pub token_str_len : ℕ
token_str_len = 130

pub record Token : Type 0 where
  pub version : ℕ
  pub flags : ℕ
  pub rdv : List ℕ
  pub auth : List ℕ
  pub hostpub : List ℕ
  pub ep6_addr : List ℕ
  pub ep6_port : ℕ
  pub ep4_addr : List ℕ
  pub ep4_port : ℕ

-- The two bytes of `get16` as one number.
abbrev pub two_bytes : List ℕ → ℕ
two_bytes bs = be_value (2 ^ 32) 0 (take 2 bs)

abbrev pub crc_shift : ℕ → ℕ
crc_shift c = if c % 2 == 0 then c / 2 else bit_xor (c / 2) 0xedb88320

unfoldable pub crc_rounds : ℕ → ℕ → ℕ
crc_rounds zero c = c
crc_rounds (suc k) c = crc_rounds k (crc_shift c)

unfoldable pub crc_from : ℕ → List ℕ → ℕ
crc_from c [] = c
crc_from c (b ∷ bs) = crc_from (crc_rounds 8 (bit_xor c b)) bs

-- `~c` of a word of 32 bits.
unfoldable pub crc32 : List ℕ → ℕ
crc32 bs = 0xffffffff - crc_from 0xffffffff bs

unfoldable pub payload_pack : Token → List ℕ
payload_pack tok =
    tok.version
    ∷ tok.flags
    ∷ (tok.rdv
        ++ (tok.auth
            ++ (tok.hostpub
                ++ (tok.ep6_addr
                    ++ (be_bytes 2 tok.ep6_port ++ (tok.ep4_addr ++ be_bytes 2 tok.ep4_port))))))

unfoldable pub payload_unpack : (raw : List ℕ) → Token
payload_unpack raw =
    let from_rdv = drop 2 raw in
    let from_auth = drop token_rdv_len from_rdv in
    let from_hostpub = drop token_auth_len from_auth in
    let from_ep6 = drop token_hostpub_len from_hostpub in
    let from_port6 = drop token_ep6_len from_ep6 in
    let from_ep4 = drop 2 from_port6 in
    record {
      version = get_or raw 0 0;
      flags = get_or raw 1 0;
      rdv = take token_rdv_len from_rdv;
      auth = take token_auth_len from_auth;
      hostpub = take token_hostpub_len from_hostpub;
      ep6_addr = take token_ep6_len from_ep6;
      ep6_port = two_bytes from_port6;
      ep4_addr = take token_ep4_len from_ep4;
      ep4_port = two_bytes (drop token_ep4_len from_ep4);
    }

-- The payload and its sum, as token_encode fills `wire`.
unfoldable pub wire_of : Token → List ℕ
wire_of tok =
    let sum = crc32 (payload_pack tok) in
    payload_pack tok ++ (be_bytes 2 (sum / 2 ^ 16) ++ be_bytes 2 sum)

abbrev pub ones : ℕ → List ℕ
ones zero = []
ones (suc n) = 49 ∷ ones n

abbrev pub padded : Option (List ℕ) → Option (List ℕ)
padded none = none
padded (some text) =
    if length text == 0 || ltb token_str_len (length text)
    then none
    else some (ones (token_str_len - length text) ++ text)

unfoldable pub token_encode : Token → (dest_len : ℕ) → Option (List ℕ)
token_encode tok dest_len =
    if ltb dest_len (token_str_len + 1)
    then none
    else padded (base58_encode (wire_of tok) (token_str_len + 1))

-- What token_decode returns: 0, TOKEN_ERR_VERSION or -1.
pub data Decoded : Type 0 where
  ok : Token → Decoded
  err_version malformed : Decoded

unfoldable pub open_wire : (wire : List ℕ) → Decoded
open_wire wire =
    if not (
      crc32 (take token_raw_len wire)
      == two_bytes (drop token_raw_len wire) * 2 ^ 16 + two_bytes (drop (token_raw_len + 2) wire))
    then malformed
    else if not (get_or wire 0 0 == token_version)
    then err_version
    else ok (payload_unpack (take token_raw_len wire))

abbrev pub open_digits : Option (List ℕ) → Decoded
open_digits none = malformed
open_digits (some wire) = if length wire == token_wire_len then open_wire wire else malformed

unfoldable pub token_decode : (src : List ℕ) → Decoded
token_decode src =
    if length src == token_str_len
    then open_digits (base58_decode src token_wire_len)
    else malformed
