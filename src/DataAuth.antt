-- ===== src/DataAuth.antt =====
-- The tag and the counter on a datagram of the stream (src/dataauth.c). BLAKE2b is a parameter.
pub mod Laws
mod Tests
use comrade.Prelude.{
  ℕ, ◌+◌, ◌-◌, ◌^◌, bit_or, Bool, true, false, Option, none, some, List, [], ◌∷◌, ◌++◌, ltb, ◌==◌,
  if◌then◌else◌, take, drop, length,
}
use Prim.Native.Nat.{bit_xor}
use comrade.Prelude.BigEndian.{be_bytes, be_value}
use comrade.Paths.Ep.{Os}

-- DATAAUTH_CTR_LEN, DATAAUTH_TAG_LEN, DATAAUTH_OVERHEAD
abbrev pub ctr_len : ℕ
ctr_len = 8

abbrev pub tag_len : ℕ
tag_len = 16

abbrev pub overhead : ℕ
overhead = 24

-- The loop of `tag_eq`: the bits in which two tags differ, gathered.
unfoldable pub differing : (d : ℕ) → List ℕ → List ℕ → ℕ
differing d [] bs = d
differing d (a ∷ as') [] = d
differing d (a ∷ as') (b ∷ bs) = differing (bit_or d (bit_xor a b)) as' bs

unfoldable pub tag_eq : List ℕ → List ℕ → Bool
unfolding differing
tag_eq a b = differing 0 (take tag_len a) (take tag_len b) == 0

module _ (os : Os) where
  unfoldable pub tag_of : (key body : List ℕ) → List ℕ
  tag_of key body = take tag_len (os.blake2b_keyed 32 key body)

  unfoldable pub wrap : (out_max : ℕ) (key body : List ℕ) (seq : ℕ) → Option (List ℕ)
  wrap out_max key body seq =
      let signed = body ++ be_bytes ctr_len seq in
      if ltb out_max (length body + overhead) then none else some (signed ++ tag_of key signed)

  -- The length of the body, and the sequence number.
  unfoldable pub open_body : (key wire : List ℕ) → Option (ℕ × ℕ)
  open_body key wire =
      let n = length wire - tag_len in
      if ltb (length wire) overhead
      then none
      else if tag_eq (tag_of key (take n wire)) (drop n wire)
      then some (n - ctr_len, be_value (2 ^ 64) 0 (take ctr_len (drop (n - ctr_len) wire)))
      else none
