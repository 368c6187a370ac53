-- ===== src/Keys.antt =====
-- The key schedule of src/keys.c: the demultiplexing tags, the pair key and the sealed claim box.
-- BLAKE2b (`Os`), X25519 and the cipher are parameters; random bytes are an argument.
pub mod Derive
pub mod Laws
mod Tests
use comrade.Prelude.{
  ℕ, suc, zero, ◌+◌, ◌-◌, ◌*◌, ◌/◌, ◌%◌, ◌^◌, Bool, true, false, not, ◌&&◌, ◌||◌, Option, none,
  some, List, [], ◌∷◌, ◌++◌, ltb, leb, ◌==◌, if◌then◌else◌, take, drop, length, replicate, byte,
  memcmp, Ordering,
}
use Prim.Native.Nat.{gt}
use comrade.Prelude.BigEndian.{be_value}
use comrade.Paths.Ep.{Os, octet}
use comrade.Seal.{Aead, or_fail}

-- BOX_OVERHEAD
abbrev pub box_overhead : ℕ
box_overhead = 48

-- `cc_x25519_public` and `cc_x25519`, which may fail.
pub record Curve : Type 0 where
  pub public : (secret : List ℕ) → Option (List ℕ)
  pub shared : (secret public : List ℕ) → Option (List ℕ)

-- "comrade1 claim box", "comrade1 wire tags", "comrade1 mcast port", "comrade1 conn key"
abbrev pub box_info : List ℕ
box_info =
    99 ∷ 111 ∷ 109 ∷ 114 ∷ 97 ∷ 100 ∷ 101 ∷ 49 ∷ 32 ∷ 99 ∷ 108 ∷ 97 ∷ 105 ∷ 109 ∷ 32 ∷ 98 ∷ 111
    ∷ 120 ∷ []

abbrev pub wire_info : List ℕ
wire_info =
    99 ∷ 111 ∷ 109 ∷ 114 ∷ 97 ∷ 100 ∷ 101 ∷ 49 ∷ 32 ∷ 119 ∷ 105 ∷ 114 ∷ 101 ∷ 32 ∷ 116 ∷ 97 ∷ 103
    ∷ 115 ∷ []

abbrev pub port_info : List ℕ
port_info =
    99 ∷ 111 ∷ 109 ∷ 114 ∷ 97 ∷ 100 ∷ 101 ∷ 49 ∷ 32 ∷ 109 ∷ 99 ∷ 97 ∷ 115 ∷ 116 ∷ 32 ∷ 112 ∷ 111
    ∷ 114 ∷ 116 ∷ []

abbrev pub conn_info : List ℕ
conn_info =
    99 ∷ 111 ∷ 109 ∷ 114 ∷ 97 ∷ 100 ∷ 101 ∷ 49 ∷ 32 ∷ 99 ∷ 111 ∷ 110 ∷ 110 ∷ 32 ∷ 107 ∷ 101 ∷ 121
    ∷ []

abbrev pub box_nonce : List ℕ
box_nonce = replicate 24 0

module _ (os : Os) where
  unfoldable pub box_key : (shared epk pk : List ℕ) → List ℕ
  box_key shared epk pk = os.blake2b_keyed 32 shared (box_info ++ (epk ++ pk))

  -- The key of a pair, from both halves in one order.
  unfoldable pub conn_key : (sig_key a b : List ℕ) → List ℕ
  conn_key sig_key a b = os.blake2b_keyed 32 sig_key (elim (memcmp a b) as (λ o. List ℕ) [
    | gt ↦ conn_info ++ (b ++ a)
    | _ ↦ conn_info ++ (a ++ b)
  ])

  -- `keys->mcast_port`
  unfoldable pub mcast_port : (rdv : List ℕ) → ℕ
  mcast_port rdv =
      let pb = os.blake2b_keyed 32 rdv port_info in
      (32768 + (octet pb 0 * 2 ^ 8 + octet pb 1) % 2 ^ 14) % 2 ^ 16

module _ (os : Os) (curve : Curve) (aead : Aead) where
  -- `random` is the ephemeral secret.
  unfoldable pub box_seal :
      (dst_len : ℕ) (pk plain : List ℕ) (random : Option (List ℕ)) → Option (List ℕ)
  unfolding box_key
  box_seal dst_len pk plain random =
      if ltb dst_len (length plain + box_overhead)
      then none
      else or_fail random λ esk. or_fail (curve.public esk) λ epk.
        or_fail (curve.shared esk pk) λ shared.
          or_fail (aead.lock (box_key os shared epk pk) box_nonce epk plain)
            λ c. some (epk ++ (c.0 ++ c.1))

  unfoldable pub box_open : (dst_len : ℕ) (sk sealed : List ℕ) → Option (List ℕ)
  unfolding box_key
  box_open dst_len sk sealed =
      let epk = take 32 sealed in
      if ltb (length sealed) box_overhead
      then none
      else if ltb dst_len (length sealed - box_overhead)
      then none
      else or_fail (curve.public sk) λ pk. or_fail (curve.shared sk epk) λ shared.
        aead.unlock (box_key os shared epk pk) (take 16 (drop 32 sealed)) box_nonce epk
          (drop 48 sealed)

unfoldable pub wg_msg_type : ℕ → Bool
wg_msg_type v = leb 1 v && leb v 4

-- A word of 32 bits with its bytes in the other order.
unfoldable pub bswap32 : ℕ → ℕ
bswap32 v =
    v / 2 ^ 24 + v / 2 ^ 8 / 2 ^ 8 % 2 ^ 8 * 2 ^ 8 + v / 2 ^ 8 % 2 ^ 8 * 2 ^ 16 + v % 2 ^ 8 * 2 ^ 24

-- `keys->probe_magic` and `keys->conv`
pub record Tags : Type 0 where
  pub probe_magic : ℕ
  pub conv : ℕ

unfoldable pub tags_ok : Tags → Bool
unfolding wg_msg_type bswap32
tags_ok t =
    not (t.probe_magic == t.conv)
    && (not (wg_msg_type (bswap32 t.probe_magic)) && not (wg_msg_type t.conv))

-- `x |= bit` for one bit.
abbrev pub with_bit : ℕ → ℕ → ℕ
with_bit x bit = if x / bit % 2 == 0 then x + bit else x

-- What the eighth failure is made into.
unfoldable pub forced : Tags → Tags
forced t = record {
  probe_magic = with_bit (t.probe_magic % 2 ^ 31) 0x80;
  conv = with_bit t.conv (2 ^ 31);
}

module _ (os : Os) where
  unfoldable pub draw : (rdv : List ℕ) (n : ℕ) → Tags
  draw rdv n =
      let tags = os.blake2b_keyed 32 rdv (wire_info ++ (if n == 0 then [] else byte n ∷ [])) in
      record {
        probe_magic = be_value (2 ^ 32) 0 (take 4 tags);
        conv = be_value (2 ^ 32) 0 (take 4 (drop 4 tags));
      }

  -- The loop, with `left` draws after the one numbered `n`.
  unfoldable pub draw_from : (rdv : List ℕ) (left n : ℕ) → Tags
  unfolding draw tags_ok forced
  draw_from rdv zero n = let t = draw rdv n in if tags_ok t then t else forced t
  draw_from rdv (suc left) n =
      let again = draw_from rdv left (suc n) in let t = draw rdv n in if tags_ok t then t else again

  unfoldable pub derive_tags : (rdv : List ℕ) → Tags
  unfolding draw_from
  derive_tags rdv = draw_from rdv 8 0
