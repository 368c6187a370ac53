-- ===== src/Seal/RoundTrip.antt =====
-- What is sealed opens again (src/keys.c).
use comrade.Prelude.{
  ℕ, ◌+◌, ◌-◌, ◌≤◌, ◌≡◌, sym, ◌∙◌, some, List, ◌++◌, arith, ltb, length, drop, length-append,
  take_append_at, drop_append_at, drop_append_more, subst, false, Bool-cases, inl, inr,
  Option-cases,
}
use mathlib.Core.Option.{some-injective}
use comrade.Seal.{Aead, msg_seal_ad, msg_open_ad, seal_overhead}

-- What the documentation of the cipher promises: a tag of 16 bytes, a ciphertext as long as the
-- plaintext, and that what it locks it unlocks.
pub record IsAead (aead : Aead) : Type 0 where
  pub tag_size :
      (key nonce ad plain tag cipher : List ℕ)
      → aead.lock key nonce ad plain ≡ some (tag, cipher)
      → length tag ≡ 16
  pub cipher_size :
      (key nonce ad plain tag cipher : List ℕ)
      → aead.lock key nonce ad plain ≡ some (tag, cipher)
      → length cipher ≡ length plain
  pub unlocks :
      (key nonce ad plain tag cipher : List ℕ)
      → aead.lock key nonce ad plain ≡ some (tag, cipher)
      → aead.unlock key tag nonce ad cipher ≡ some plain

module _ (aead : Aead) (law : IsAead aead) (key ad plain nonce : List ℕ) where
  sealed-parts :
      (dst_len : ℕ) (sealed : List ℕ)
      → msg_seal_ad aead dst_len key ad plain (some nonce) ≡ some sealed
      → (tag : List ℕ) × (cipher : List ℕ) × (aead.lock key nonce ad plain ≡ some (tag, cipher))
        × (sealed ≡ nonce ++ (tag ++ cipher))
  unfolding msg_seal_ad
  sealed-parts dst_len sealed e = elim (Bool-cases (ltb dst_len (length plain + seal_overhead))) [
    | inl short ↦ cc
    | inr room ↦ elim (Option-cases (aead.lock key nonce ad plain)) [
      | inl failed ↦ cc
      | inr ((tag, cipher), locked) ↦
          (tag, cipher, locked, sym (some-injective _ _ (sym (rw (room, locked)) ∙ e)))
    ]
  ]

  -- Under a cipher that opens what it locks, what `msg_seal_ad` made with a nonce of 24 bytes
  -- opens, with the same key and additional data, to what was sealed, in any array where the
  -- plaintext fits.
  pub open-seal :
      (dst_len open_len : ℕ) (sealed : List ℕ)
      → length nonce ≡ 24
      → length plain ≤ open_len
      → msg_seal_ad aead dst_len key ad plain (some nonce) ≡ some sealed
      → msg_open_ad aead open_len key ad sealed ≡ some plain
  unfolding msg_open_ad
  open-seal dst_len open_len sealed wide fits e =
      let (tag, cipher, locked, is) = sealed-parts dst_len sealed e in
      let sixteen = law.tag_size key nonce ad plain tag cipher locked in
      let same = law.cipher_size key nonce ad plain tag cipher locked in
      let opens = law.unlocks key nonce ad plain tag cipher locked in
      let n24 = take_append_at 24 nonce (tag ++ cipher) wide in
      let d24 = drop_append_at 24 nonce (tag ++ cipher) wide in
      let t16 = take_append_at 16 tag cipher sixteen in
      let d40 : drop 40 (nonce ++ (tag ++ cipher)) ≡ cipher =
        subst (λ n. drop (n + 16) (nonce ++ (tag ++ cipher)) ≡ cipher) wide
          (drop_append_more 16 nonce (tag ++ cipher) ∙ drop_append_at 16 tag cipher sixteen) in
      let long : length (nonce ++ (tag ++ cipher)) ≡ 40 + length plain =
        omega (arith, length-append nonce (tag ++ cipher), length-append tag cipher) in
      let enough : ltb (length (nonce ++ (tag ++ cipher))) 40 ≡ false = ground arith in
      let room : ltb open_len (length (nonce ++ (tag ++ cipher)) - 40) ≡ false = ground arith in
      rw (is, enough, room, n24, d24, t16, d40, opens)
