-- ===== src/Keys/Laws.antt =====
-- What the schedule of src/keys.c promises: separate tags, one key for a pair, and a claim box that
-- its owner opens.
use comrade.Prelude.{
  ℕ, suc, zero, ◌+◌, ◌-◌, ◌%◌, ◌^◌, ◌<◌, ◌≤◌, ◌≡◌, ◌≢◌, sym, subst, ◌∙◌, true, false, some, List,
  ◌++◌, arith, ltb, drop, length, length-append, take_append_at, drop_append_at, drop_append_more,
  memcmp-flip, memcmp→eq, Bool-cases, Option-cases, inl, inr,
}
use mathlib.Core.Option.{some-injective}
use comrade.Paths.Ep.{Os}
use comrade.Seal.{Aead}
use comrade.Seal.RoundTrip.{IsAead}
use comrade.Keys.{
  Curve, Tags, bswap32, wg_msg_type, tags_ok, forced, draw, draw_from, derive_tags, conn_key,
  box_key, box_seal, box_open, box_nonce, with_bit,
}

-- Both ends of a pair derive one key from their two halves, whichever each calls its own.
pub conn_key_comm :
    (os : Os) (sig_key a b : List ℕ) → conn_key os sig_key a b ≡ conn_key os sig_key b a
unfolding conn_key
conn_key_comm os sig_key a b = ground (arith, memcmp-flip a b, memcmp→eq a b)

-- What the demultiplexer needs of the two tags.
pub record IsDistinct (t : Tags) : Type 0 where
  pub differ : t.probe_magic ≢ t.conv
  pub magic : wg_msg_type (bswap32 t.probe_magic) ≡ false
  pub conv : wg_msg_type t.conv ≡ false

tags_ok-IsDistinct : (t : Tags) → tags_ok t ≡ true → IsDistinct t
unfolding tags_ok
tags_ok-IsDistinct t e = ground arith

low_half : (x : ℕ) → with_bit (x % 2 ^ 31) 0x80 < 2 ^ 31
low_half x = ground arith

low_byte : (x : ℕ) → 0x80 ≤ with_bit (x % 2 ^ 31) 0x80 % 2 ^ 8
low_byte x = ground arith

high_half : (x : ℕ) → 2 ^ 31 ≤ with_bit x (2 ^ 31)
high_half x = ground arith

bswap32-large : (v : ℕ) → 0x80 ≤ v % 2 ^ 8 → 4 < bswap32 v
unfolding bswap32
bswap32-large v h = omega arith

wg-large : (v : ℕ) → 4 < v → wg_msg_type v ≡ false
unfolding wg_msg_type
wg-large v h = ground arith

forced-IsDistinct : (t : Tags) → IsDistinct (forced t)
unfolding forced
forced-IsDistinct t = record {
  differ = λ e. absurd (omega (arith, e, low_half t.probe_magic, high_half t.conv));
  magic = wg-large _ (bswap32-large _ (low_byte t.probe_magic));
  conv = wg-large _ (omega (arith, high_half t.conv));
}

draw_from-IsDistinct : (os : Os) (rdv : List ℕ) (left n : ℕ) → IsDistinct (draw_from os rdv left n)
unfolding draw_from
draw_from-IsDistinct os rdv zero n = elim (Bool-cases (tags_ok (draw os rdv n))) [
  | inl good ↦ rw good (tags_ok-IsDistinct (draw os rdv n) good)
  | inr bad ↦ rw bad (forced-IsDistinct (draw os rdv n))
]
draw_from-IsDistinct os rdv (suc left) n = elim (Bool-cases (tags_ok (draw os rdv n))) [
  | inl good ↦ rw good (tags_ok-IsDistinct (draw os rdv n) good)
  | inr bad ↦ rw bad (draw_from-IsDistinct os rdv left (suc n))
]

-- Whatever the hash draws, also where all nine draws fail, `keys_derive` ends with tags that differ
-- and of which neither, in the order that its bytes take on the wire, is a WireGuard message type.
pub derive_tags-IsDistinct : (os : Os) (rdv : List ℕ) → IsDistinct (derive_tags os rdv)
unfolding derive_tags
derive_tags-IsDistinct os rdv = draw_from-IsDistinct os rdv 8 0

-- What the documentation of X25519 promises: two secrets agree through their public keys of 32
-- bytes.
pub record IsCurve (curve : Curve) : Type 0 where
  pub size : (s p : List ℕ) → curve.public s ≡ some p → length p ≡ 32
  pub agrees :
      (s t p q shared : List ℕ)
      → curve.public s ≡ some p
      → curve.public t ≡ some q
      → curve.shared s q ≡ some shared
      → curve.shared t p ≡ some shared

module _ (os : Os) (curve : Curve) (aead : Aead) (dh : IsCurve curve) (law : IsAead aead) where
  -- What `box_seal` made, in parts.
  box-parts :
      (dst_len : ℕ) (pk plain esk sealed : List ℕ)
      → box_seal os curve aead dst_len pk plain (some esk) ≡ some sealed
      → (epk : List ℕ) × (shared : List ℕ) × (tag : List ℕ) × (cipher : List ℕ) × (curve.public esk
          ≡ some epk)
        × (curve.shared esk pk ≡ some shared)
        × (aead.lock (box_key os shared epk pk) box_nonce epk plain ≡ some (tag, cipher))
        × (sealed ≡ epk ++ (tag ++ cipher))
  unfolding box_seal
  box-parts dst_len pk plain esk sealed e = elim (Bool-cases (ltb dst_len (length plain + 48))) [
    | inl short ↦ cc
    | inr room ↦ elim (Option-cases (curve.public esk)) [
      | inl fails ↦ cc
      | inr (epk, pub_e) ↦ elim (Option-cases (curve.shared esk pk)) [
        | inl fails ↦ cc
        | inr (shared, dh_e) ↦
            elim (Option-cases (aead.lock (box_key os shared epk pk) box_nonce epk plain)) [
              | inl fails ↦ cc
              | inr ((tag, cipher), locked) ↦ (
                epk,
                shared,
                tag,
                cipher,
                pub_e,
                dh_e,
                locked,
                sym (some-injective _ _ (sym (rw (room, pub_e, dh_e, locked)) ∙ e)),
              )
            ]
      ]
    ]
  ]

  -- Under a curve whose secrets agree and a cipher that opens what it locks, a claim boxed to a
  -- public key opens with the secret of that key to what was boxed, in any array where it fits.
  pub box_open-seal :
      (dst_len open_len : ℕ) (sk pk plain esk sealed : List ℕ)
      → curve.public sk ≡ some pk
      → length plain ≤ open_len
      → box_seal os curve aead dst_len pk plain (some esk) ≡ some sealed
      → box_open os curve aead open_len sk sealed ≡ some plain
  unfolding box_open
  box_open-seal dst_len open_len sk pk plain esk sealed owner fits e =
      let (epk, shared, tag, cipher, pub_e, dh_e, locked, is) =
        box-parts dst_len pk plain esk sealed e in
      let key = box_key os shared epk pk in
      let sixteen = law.tag_size key box_nonce epk plain tag cipher locked in
      let same = law.cipher_size key box_nonce epk plain tag cipher locked in
      let opens = law.unlocks key box_nonce epk plain tag cipher locked in
      let wide = dh.size esk epk pub_e in
      let back = dh.agrees esk sk epk pk shared pub_e owner dh_e in
      let head = take_append_at 32 epk (tag ++ cipher) wide in
      let rest = drop_append_at 32 epk (tag ++ cipher) wide in
      let t16 = take_append_at 16 tag cipher sixteen in
      let d48 : drop 48 (epk ++ (tag ++ cipher)) ≡ cipher =
        subst (λ n. drop (n + 16) (epk ++ (tag ++ cipher)) ≡ cipher) wide
          (drop_append_more 16 epk (tag ++ cipher) ∙ drop_append_at 16 tag cipher sixteen) in
      let long : length (epk ++ (tag ++ cipher)) ≡ 48 + length plain =
        omega (arith, length-append epk (tag ++ cipher), length-append tag cipher) in
      let enough : ltb (length (epk ++ (tag ++ cipher))) 48 ≡ false = ground arith in
      let room : ltb open_len (length (epk ++ (tag ++ cipher)) - 48) ≡ false = ground arith in
      rw (is, enough, room, head, rest, owner, back, t16, d48, opens)
