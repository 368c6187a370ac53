-- ===== src/Token/Payload.antt =====
-- The wire form of a token (src/token.c) read back.
use comrade.Prelude.{
  ℕ, ◌+◌, ◌*◌, ◌/◌, ◌%◌, ◌^◌, ◌<◌, ◌≡◌, refl, sym, ◌∙◌, List, [], ◌++◌, length, drop, arith,
  take_append_at, drop_append_at, drop_append_more, length-append, subst, get_or, ==_refl,
}
use comrade.Prelude.BigEndian.{be_bytes, be_value, be_value-be_bytes}
use comrade.Token.{
  Token, token_version, payload_pack, payload_unpack, crc32, two_bytes, wire_of, open_wire, ok,
}

-- Fields of the lengths and the widths that the source gives them.
pub record IsToken (tok : Token) : Type 0 where
  pub rdv : length tok.rdv ≡ 16
  pub auth : length tok.auth ≡ 16
  pub hostpub : length tok.hostpub ≡ 32
  pub ep6_addr : length tok.ep6_addr ≡ 16
  pub ep6_port : tok.ep6_port < 2 ^ 16
  pub ep4_addr : length tok.ep4_addr ≡ 4
  pub ep4_port : tok.ep4_port < 2 ^ 16

two_bytes-be_bytes : (v : ℕ) (more : List ℕ) → two_bytes (be_bytes 2 v ++ more) ≡ v % 2 ^ 16
two_bytes-be_bytes v more = omega (arith, be_value-be_bytes (2 ^ 32) 2 0 v (omega arith))

port : (v : ℕ) → v < 2 ^ 16 → be_value (2 ^ 32) 0 (be_bytes 2 v) ≡ v
port v small = omega (arith, be_value-be_bytes (2 ^ 32) 2 0 v (omega arith))

unpack-pack : (tok : Token) → IsToken tok → payload_unpack (payload_pack tok) ≡ tok
unfolding payload_unpack payload_pack
unpack-pack tok v =
    let r5 = tok.ep4_addr ++ be_bytes 2 tok.ep4_port in
    let r4 = be_bytes 2 tok.ep6_port ++ r5 in
    let r3 = tok.ep6_addr ++ r4 in
    let r2 = tok.hostpub ++ r3 in
    let r1 = tok.auth ++ r2 in
    rw (
      take_append_at 16 tok.rdv r1 v.rdv,
      drop_append_at 16 tok.rdv r1 v.rdv,
      take_append_at 16 tok.auth r2 v.auth,
      drop_append_at 16 tok.auth r2 v.auth,
      take_append_at 32 tok.hostpub r3 v.hostpub,
      drop_append_at 32 tok.hostpub r3 v.hostpub,
      take_append_at 16 tok.ep6_addr r4 v.ep6_addr,
      drop_append_at 16 tok.ep6_addr r4 v.ep6_addr,
      take_append_at 4 tok.ep4_addr (be_bytes 2 tok.ep4_port) v.ep4_addr,
      drop_append_at 4 tok.ep4_addr (be_bytes 2 tok.ep4_port) v.ep4_addr,
      port tok.ep6_port v.ep6_port,
      port tok.ep4_port v.ep4_port,
    )

length-pack : (tok : Token) → IsToken tok → length (payload_pack tok) ≡ 90
unfolding payload_pack
length-pack tok v =
    let r5 = tok.ep4_addr ++ be_bytes 2 tok.ep4_port in
    let r4 = be_bytes 2 tok.ep6_port ++ r5 in
    let r3 = tok.ep6_addr ++ r4 in
    let r2 = tok.hostpub ++ r3 in
    omega (
      arith,
      v.rdv,
      v.auth,
      v.hostpub,
      v.ep6_addr,
      v.ep4_addr,
      length-append tok.rdv (tok.auth ++ r2),
      length-append tok.auth r2,
      length-append tok.hostpub r3,
      length-append tok.ep6_addr r4,
      length-append tok.ep4_addr (be_bytes 2 tok.ep4_port),
    )

sum-small : (bs : List ℕ) → crc32 bs < 2 ^ 32
unfolding crc32
sum-small bs = omega arith

version-pack : (tok : Token) (more : List ℕ) → get_or (payload_pack tok ++ more) 0 0 ≡ tok.version
unfolding payload_pack
version-pack tok more = refl

-- The sum as the two halves that are written behind the payload.
halves : ℕ → List ℕ
halves sum = be_bytes 2 (sum / 2 ^ 16) ++ be_bytes 2 sum

two_halves :
    (sum : ℕ)
    → sum < 2 ^ 32
    → two_bytes (halves sum) * 2 ^ 16 + two_bytes (drop 2 (halves sum)) ≡ sum
unfolding halves
two_halves sum small =
    omega (arith, two_bytes-be_bytes (sum / 2 ^ 16) (be_bytes 2 sum), two_bytes-be_bytes sum [])

drop_more : (n k : ℕ) (xs ys : List ℕ) → length xs ≡ n → drop (n + k) (xs ++ ys) ≡ drop k ys
drop_more n k xs ys e =
    subst (λ m. drop (m + k) (xs ++ ys) ≡ drop k ys) e (drop_append_more k xs ys)

open_sound :
    (tok : Token) (p : List ℕ)
    → length p ≡ 90
    → payload_unpack p ≡ tok
    → get_or (p ++ halves (crc32 p)) 0 0 ≡ token_version
    → open_wire (p ++ halves (crc32 p)) ≡ ok tok
unfolding open_wire
open_sound tok p long same version =
    let s = halves (crc32 p) in
    let sum : crc32 p ≡ two_bytes s * 2 ^ 16 + two_bytes (drop 2 s) =
      sym (two_halves (crc32 p) (sum-small p)) in
    rw (
      version,
      take_append_at 90 p s long,
      drop_append_at 90 p s long,
      drop_more 90 2 p s long,
      sym sum,
      ==_refl (crc32 p),
      same,
    )

-- A token of this version, whose fields have the lengths and widths that the source gives them, is read
-- back from the wire form that is made of it, the sum behind it included.
pub open_wire-wire_of :
    (tok : Token) → IsToken tok → tok.version ≡ token_version → open_wire (wire_of tok) ≡ ok tok
unfolding wire_of halves
open_wire-wire_of tok v version =
    open_sound tok (payload_pack tok) (length-pack tok v) (unpack-pack tok v)
      (version-pack tok (halves (crc32 (payload_pack tok))) ∙ version)
