-- ===== src/DataAuth/Laws.antt =====
-- What is wrapped opens, and what opens carries its tag (src/dataauth.c).
use comrade.Prelude.{
  ℕ, suc, zero, ◌+◌, ◌-◌, ◌/◌, ◌^◌, ◌<◌, ◌≤◌, ◌≡◌, refl, sym, ap, ap₂, ◌∙◌, bit_or, true, false,
  some, List, [], ◌∷◌, ◌++◌, arith, append_assoc, ltb, ==_iff, take, drop, length, length-append,
  length-take, take_append_at, take_all, take_append, drop_append_at, length-drop, Bool-cases, inl,
  inr,
}
use Prim.Native.Nat.{bit_xor}
use mathlib.Core.Option.{some-injective}
use comrade.Prelude.BigEndian.{be_bytes, be_value, length-be_bytes, be_value-be_bytes}
use comrade.Prelude.Bits.{bit_or_halve, bit_xor-zero, bit_xor_self}
use comrade.Paths.Ep.{Os}
use comrade.DataAuth.{differing, tag_eq, tag_of, wrap, open_body}

or-ge : (f a b : ℕ) → a ≤ f → b ≤ f → (a ≤ bit_or a b) × (b ≤ bit_or a b)
or-ge zero a b h k = omega arith
or-ge (suc f) a b h k =
    let (l, r) = or-ge f (a / 2) (b / 2) (omega arith) (omega arith) in
    omega (arith, l, r, bit_or_halve a b)

differing-zero :
    (d : ℕ) (as' bs : List ℕ)
    → length as' ≡ length bs
    → differing d as' bs ≡ 0
    → (d ≡ 0) × (as' ≡ bs)
unfolding differing
differing-zero d [] [] l e = (e, refl)
differing-zero d [] (b ∷ bs) l e = absurd (omega (arith, l))
differing-zero d (a ∷ as') [] l e = absurd (omega (arith, l))
differing-zero d (a ∷ as') (b ∷ bs) l e =
    let (none_yet, rest) = differing-zero (bit_or d (bit_xor a b)) as' bs (omega (arith, l)) e in
    let both = or-ge (d + bit_xor a b) d (bit_xor a b) (omega arith) (omega arith) in
    let same : a ≡ b = bit_xor-zero a b (omega (arith, both, none_yet)) in
    (omega (arith, both, none_yet), ap₂ ◌∷◌ same rest)

differing_self : (as' : List ℕ) → differing 0 as' as' ≡ 0
unfolding differing
differing_self [] = refl
differing_self (a ∷ as') =
    ap (λ x. differing (bit_or 0 x) as' as') (bit_xor_self a) ∙ differing_self as'

-- What the documentation of BLAKE2b promises: a digest of the length that was asked for.
pub record IsDigest (os : Os) : Type 0 where
  pub size : (n : ℕ) (key msg : List ℕ) → length (os.blake2b_keyed n key msg) ≡ n

tag_eq-eq : (a b : List ℕ) → length a ≡ 16 → length b ≡ 16 → tag_eq a b ≡ true → a ≡ b
unfolding tag_eq
tag_eq-eq a b la lb e =
    let zeros : differing 0 (take 16 a) (take 16 b) ≡ 0 = (==_iff _ 0).0 e in
    (differing-zero 0 a b (la ∙ sym lb)
      (ap₂ (differing 0) (sym (take_all 16 a la)) (sym (take_all 16 b lb)) ∙ zeros)).1

module _ (os : Os) (digest : IsDigest os) where
  length-tag_of : (key body : List ℕ) → length (tag_of os key body) ≡ 16
  unfolding tag_of
  length-tag_of key body =
      omega (arith, digest.size 32 key body, length-take 16 (os.blake2b_keyed 32 key body))

  tag_eq_self : (key body : List ℕ) → tag_eq (tag_of os key body) (tag_of os key body) ≡ true
  unfolding tag_eq
  tag_eq_self key body =
      let whole = take_all 16 (tag_of os key body) (length-tag_of key body) in
      let none_differ = differing_self (tag_of os key body) in rw (whole, none_differ)

  wrapped :
      (out_max : ℕ) (key body : List ℕ) (seq : ℕ) (wire : List ℕ)
      → wrap os out_max key body seq ≡ some wire
      → wire ≡ (body ++ be_bytes 8 seq) ++ tag_of os key (body ++ be_bytes 8 seq)
  unfolding wrap
  wrapped out_max key body seq wire e = elim (Bool-cases (ltb out_max (length body + 24))) [
    | inl small ↦ cc
    | inr room ↦ sym (some-injective _ _ (sym (rw room) ∙ e))
  ]

  -- A datagram that `dataauth_wrap` made under a key, of any body and a sequence number of 64 bits,
  -- opens under that key to the length of the body and the number; its first bytes are the body.
  pub open_body-wrap :
      (out_max : ℕ) (key body : List ℕ) (seq : ℕ) (wire : List ℕ)
      → seq < 2 ^ 64
      → wrap os out_max key body seq ≡ some wire
      → (open_body os key wire ≡ some (length body, seq)) × (take (length body) wire ≡ body)
  unfolding open_body wrap
  open_body-wrap out_max key body seq wire small e =
      let signed = body ++ be_bytes 8 seq in
      let tag = tag_of os key signed in
      let is : wire ≡ signed ++ tag = wrapped out_max key body seq wire e in
      let eight : length signed ≡ length body + 8 =
        omega (arith, length-append body (be_bytes 8 seq), length-be_bytes 8 seq) in
      let long : length (signed ++ tag) ≡ length body + 24 =
        omega (arith, eight, length-append signed tag, length-tag_of key signed) in
      let cut : length signed ≡ length (signed ++ tag) - 16 = omega arith in
      let ctr : length body ≡ length (signed ++ tag) - 16 - 8 = omega arith in
      let enough : ltb (length (signed ++ tag)) 24 ≡ false = ground arith in
      let front = take_append_at (length (signed ++ tag) - 16) signed tag cut in
      let back = drop_append_at (length (signed ++ tag) - 16) signed tag cut in
      let assoc : signed ++ tag ≡ body ++ (be_bytes 8 seq ++ tag) =
        append_assoc body (be_bytes 8 seq) tag in
      let at_ctr : drop (length (signed ++ tag) - 16 - 8) (signed ++ tag) ≡ be_bytes 8 seq ++ tag =
        ap (drop (length (signed ++ tag) - 16 - 8)) assoc
        ∙ drop_append_at (length (signed ++ tag) - 16 - 8) body (be_bytes 8 seq ++ tag) ctr in
      let number : be_value (2 ^ 64) 0 (be_bytes 8 seq) ≡ seq =
        omega (arith, be_value-be_bytes (2 ^ 64) 8 0 seq (omega arith)) in
      (
        rw (is, enough, front, back, tag_eq_self key signed, at_ctr, number)
            (ap (λ n. some (n, seq)) (sym ctr)),
        ap (take (length body)) (is ∙ assoc) ∙ take_append body (be_bytes 8 seq ++ tag),
      )

  opened :
      (key wire : List ℕ) (n seq : ℕ)
      → open_body os key wire ≡ some (n, seq)
      → (24 ≤ length wire)
        × (length wire - 16 - 8 ≡ n)
        × (tag_eq (tag_of os key (take (length wire - 16) wire)) (drop (length wire - 16) wire)
            ≡ true)
  unfolding open_body
  opened key wire n seq e = elim (Bool-cases (ltb (length wire) 24)) [
    | inl short ↦ cc
    | inr long ↦
        elim (Bool-cases
          (tag_eq (tag_of os key (take (length wire - 16) wire)) (drop (length wire - 16) wire))) [
            | inr other ↦ cc
            | inl same ↦
                let m = length wire - 16 in
                let is : open_body os key wire
                    ≡ some (m - 8, be_value (2 ^ 64) 0 (take 8 (drop (m - 8) wire))) =
                  rw (long, same) in
                (ground (arith, long), ap (λ r. r.0) (some-injective _ _ (sym is ∙ e)), same)
          ]
  ]

  -- A datagram opens only if its last 16 bytes are the tag, under that key, of all before
  -- them.
  pub open_body-tagged :
      (key wire : List ℕ) (n seq : ℕ)
      → open_body os key wire ≡ some (n, seq)
      → (length wire ≡ n + 24) × (drop (n + 8) wire ≡ tag_of os key (take (n + 8) wire))
  open_body-tagged key wire n seq e =
      let (long, is_n, same) = opened key wire n seq e in
      let m = length wire - 16 in
      let at_m : n + 8 ≡ m = omega arith in
      (
        omega arith,
        rw at_m (
            sym (
              tag_eq-eq (tag_of os key (take m wire)) (drop m wire)
                (length-tag_of key (take m wire)) (omega (arith, length-drop m wire)) same)),
      )
