-- ===== src/Seal.antt =====
-- Sealing a message (`msg_seal_ad`, `msg_open_ad` of src/keys.c): a random nonce of 24 bytes, the tag
-- of 16, the ciphertext. The cipher of src/ccrypto.h is a parameter, and the random bytes are an
-- argument: `none` where the source of randomness fails.
pub mod RoundTrip
use comrade.Prelude.{
  ℕ, ◌+◌, ◌-◌, Option, none, some, List, [], ◌++◌, ltb, if◌then◌else◌, length, take, drop,
}

-- `cc_aead_lock` gives the tag and the ciphertext, `cc_aead_unlock` the plaintext; both may fail.
pub record Aead : Type 0 where
  pub lock : (key nonce ad plain : List ℕ) → Option (List ℕ × List ℕ)
  pub unlock : (key tag nonce ad cipher : List ℕ) → Option (List ℕ)

-- SEAL_OVERHEAD
abbrev pub seal_overhead : ℕ
seal_overhead = 40

abbrev pub or_fail {ℓ κ} : {A : Type ℓ} {B : Type κ} → Option A → (A → Option B) → Option B
or_fail none k = none
or_fail (some a) k = k a

module _ (aead : Aead) where
  unfoldable pub msg_seal_ad :
      (dst_len : ℕ) (key ad plain : List ℕ) (random : Option (List ℕ)) → Option (List ℕ)
  msg_seal_ad dst_len key ad plain random =
      if ltb dst_len (length plain + seal_overhead)
      then none
      else or_fail random
          λ nonce. or_fail (aead.lock key nonce ad plain) λ c. some (nonce ++ (c.0 ++ c.1))

  unfoldable pub msg_seal :
      (dst_len : ℕ) (key plain : List ℕ) (random : Option (List ℕ)) → Option (List ℕ)
  unfolding msg_seal_ad
  msg_seal dst_len key plain random = msg_seal_ad dst_len key [] plain random

  unfoldable pub msg_open_ad : (dst_len : ℕ) (key ad sealed : List ℕ) → Option (List ℕ)
  msg_open_ad dst_len key ad sealed =
      if ltb (length sealed) seal_overhead
      then none
      else if ltb dst_len (length sealed - seal_overhead)
      then none
      else aead.unlock key (take 16 (drop 24 sealed)) (take 24 sealed) ad (drop 40 sealed)

  unfoldable pub msg_open : (dst_len : ℕ) (key sealed : List ℕ) → Option (List ℕ)
  unfolding msg_open_ad
  msg_open dst_len key sealed = msg_open_ad dst_len key [] sealed
